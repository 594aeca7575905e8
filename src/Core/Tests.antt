-- ===== src/Core/Tests.antt =====
-- Digests, policies, arguments of the helper and records of the channel at concrete inputs.
use sandbx.Common.{
  if◌then◌else◌, Bool, true, all, ltb, arith, ◌++◌, ℕ, List, [], ◌∷◌, ◌≡◌, refl, Bytes, codes, none,
  some,
}
use sandbx.Core.Decimal.{parse_uint}
use sandbx.Core.Policy.{
  VettedPath, read, write, ports, SandboxPolicy, default_policy, grant, with_port,
  allow_network_port, is_env_name, allow_env, has_whitespace, is_resolvable_name, allow_dns,
  bounds_resolution, unbounded_resolution,
}
use sandbx.Core.Policy.Built.{
  Widening, granting, port_of, env_of, dns_of, widen_all, IsBuilt, default-IsBuilt,
  widen_all-IsBuilt,
}
use sandbx.Core.HelperArgs.{
  PathText, path_flag, axis_for, HelperArgs, encode, parsed, parse_object, take_flag, take_as,
  command, decode_from, decode,
}
use sandbx.Core.HelperArgs.RoundTrip.{IsUnicode, decode-encode}
use sandbx.Core.HelperArgs.Trusted.{Trusted, decode-Trusted}
use sandbx.Core.Degradation.{
  userns_identity_map, exec_failed, Degraded, failed, record_limit, take, encode_refusal,
  encode as encode_degraded, decode as decode_channel,
}
use sandbx.Core.Degradation.RoundTrip.{received, decode-encode_refusal}
use sandbx.Core.Digest.{
  ok, err, wrong_length, character, parse, display, char_count, nibble, joined, read_pairs,
}
use sandbx.Core.Digest.RoundTrip.{parse-display}
use sandbx.Core.Digest.Canonical.{display-parse}

-- The digest of the empty file.
abbrev spelled : Bytes
spelled = codes "e3b0c44298fc1c149afbf4c8996fb92427ae41e4649b934ca495991b7852b855"

abbrev bytes : List ℕ
bytes =
    0xe3 ∷ 0xb0 ∷ 0xc4 ∷ 0x42 ∷ 0x98 ∷ 0xfc ∷ 0x1c ∷ 0x14 ∷ 0x9a ∷ 0xfb ∷ 0xf4 ∷ 0xc8 ∷ 0x99 ∷ 0x6f
    ∷ 0xb9 ∷ 0x24 ∷ 0x27 ∷ 0xae ∷ 0x41 ∷ 0xe4 ∷ 0x64 ∷ 0x9b ∷ 0x93 ∷ 0x4c ∷ 0xa4 ∷ 0x95 ∷ 0x99
    ∷ 0x1b ∷ 0x78 ∷ 0x52 ∷ 0xb8 ∷ 0x55 ∷ []

spelled_parses : parse spelled ≡ ok bytes
unfolding parse char_count read_pairs nibble joined
spelled_parses = refl

rejected : (parse (codes "e3") ≡ err (wrong_length 2)) × (nibble 65 ≡ err (character 65))
unfolding parse char_count nibble
rejected = (refl, refl)

parse-display_example : parse (display bytes) ≡ ok bytes
parse-display_example = parse-display bytes refl refl

display-parse_example : display bytes ≡ spelled
display-parse_example = display-parse spelled bytes refl spelled_parses

abbrev workspace : VettedPath
workspace = record { path = codes "/work"; object = record { dev = 2049; ino = 131_074 } }

abbrev calls : List Widening
calls =
    granting write workspace
    ∷ granting read workspace
    ∷ port_of 443
    ∷ port_of 443
    ∷ env_of (codes "PATH")
    ∷ env_of (codes "A=B")
    ∷ dns_of (codes "example.org")
    ∷ []

abbrev policy : SandboxPolicy
policy = widen_all calls default_policy

widen_all-IsBuilt_example : IsBuilt policy
widen_all-IsBuilt_example = widen_all-IsBuilt calls default_policy refl default-IsBuilt

abbrev helper_args : HelperArgs
helper_args = record {
  policy = policy;
  program = codes "/bin/ls";
  args = codes "-l" ∷ [];
  pin = some bytes;
}

bounded : unbounded_resolution policy ≡ none
unfolding unbounded_resolution bounds_resolution grant allow_network_port with_port allow_env
    is_env_name allow_dns is_resolvable_name has_whitespace
bounded = refl

-- A display that writes a byte beyond ASCII as the replacement character.
abbrev replaced : Bytes → Bytes
replaced [] = []
replaced (c ∷ cs) = if ltb c 128 then c ∷ replaced cs else 239 ∷ 191 ∷ 189 ∷ replaced cs

abbrev is_ascii : Bytes → Bool
is_ascii p = all (λ c. ltb c 128) p

replaced-ascii : (path : Bytes) → is_ascii path ≡ true → replaced path ≡ path
replaced-ascii [] h = refl
replaced-ascii (c ∷ cs) h = ground (arith, h, replaced-ascii cs)

abbrev ascii : PathText
ascii = record { display = replaced; is_unicode = is_ascii; display-unicode = replaced-ascii }

ascii_paths : IsUnicode ascii policy
unfolding grant allow_network_port with_port allow_env is_env_name allow_dns is_resolvable_name
    has_whitespace
ascii_paths = (refl, refl, refl)

decode-encode_example : decode (encode ascii helper_args) ≡ parsed helper_args
decode-encode_example =
    decode-encode ascii helper_args (widen_all-IsBuilt calls default_policy refl default-IsBuilt)
      ascii_paths (refl, refl) refl bounded

-- A plus before a port and zeros before an inode, which the harness never writes, are taken.
abbrev foreign : List Bytes
foreign =
    codes "--allow-network-port"
    ∷ codes "+80"
    ∷ codes "--ro"
    ∷ codes "/work"
    ∷ codes "+1:007"
    ∷ codes "--"
    ∷ codes "ls"
    ∷ []

foreign_taken :
    decode foreign
    ≡ parsed (record {
      policy = record default_policy {
        readable = record { path = codes "/work"; object = record { dev = 1; ino = 7 } } ∷ [];
        network = ports (80 ∷ []);
      };
      program = codes "ls";
      args = [];
      pin = none;
    })
unfolding decode decode_from take_as take_flag axis_for path_flag parse_uint parse_object
    allow_network_port with_port grant command unbounded_resolution bounds_resolution
foreign_taken = refl

decode-Trusted_example : Trusted (decode foreign)
decode-Trusted_example = decode-Trusted foreign

abbrev reasons : List Degraded
reasons = record { step = userns_identity_map; detail = codes "EPERM" ++ 9 ∷ 13 ∷ 10 ∷ [] } ∷ []

decode-encode_refusal_example :
    decode_channel (encode_degraded reasons ++ encode_refusal exec_failed)
    ≡ take record_limit (received reasons ++ failed exec_failed ∷ [])
decode-encode_refusal_example = decode-encode_refusal reasons exec_failed
