-- ===== src/Core/HelperArgs.antt =====
-- crates/sandbx-core/src/helper_args.rs, and the spelling of an object in vetted_path.rs: a policy and a
-- command as the arguments of the helper, and read back in it.
pub mod Flags
pub mod RoundTrip
pub mod Trusted
use sandbx.Common.{
  split_once, ℕ, Bool, true, false, not, ◌&&◌, ◌==◌, List, [], ◌∷◌, ◌++◌, Option, none, some,
  is_some, Bytes, codes, str_eq, if◌then◌else◌, ◌≡◌,
}
use sandbx.Core.Decimal.{decimal, parse_uint}
use sandbx.Core.Digest.{Result, ok, err, parse, display}
use sandbx.Core.Policy.{
  ObjectId, VettedPath, Axis, read, write, read_execute, NetworkPolicy, denied, any_port, ports,
  SandboxPolicy, default_policy, GrantedPath, granted_paths, grant, allow_network,
  allow_network_port, allow_unix_sockets, hint_dns_over_tcp, allow_env, allow_dns, has_byte,
  is_resolvable_name, unbounded_resolution,
}

-- `ObjectId`'s `Display`.
unfoldable pub object_token : ObjectId → Bytes
object_token o = decimal o.dev ++ 58 ∷ decimal o.ino

abbrev pub u64_max : ℕ
u64_max = 18_446_744_073_709_551_615

abbrev object_of : Option ℕ → Option ℕ → Option ObjectId
object_of (some d) (some i) = some (record { dev = d; ino = i })
object_of _ _ = none

-- `ObjectId::parse`.
unfoldable pub parse_object : Bytes → Option ObjectId
parse_object token = elim (split_once 58 token) [
  | none ↦ none
  | some (d, i) ↦ object_of (parse_uint u64_max d) (parse_uint u64_max i)
]

unfoldable pub path_flag : Axis → Bytes
path_flag read = codes "--ro"
path_flag write = codes "--rw"
path_flag read_execute = codes "--rx"

unfoldable pub axis_for : Bytes → Option Axis
axis_for flag =
    if str_eq (path_flag read) flag
    then some read
    else if str_eq (path_flag write) flag
    then some write
    else if str_eq (path_flag read_execute) flag
    then some read_execute
    else none

pub record HelperArgs : Type 0 where
  pub policy : SandboxPolicy
  pub program : Bytes
  pub args : List Bytes
  pub pin : Option (List ℕ)

-- What the standard library makes of a path: `Path::display` writes a path that is Unicode as it is,
-- and is lossy for any other.
pub record PathText : Type 0 where
  pub display : Bytes → Bytes
  pub is_unicode : Bytes → Bool
  pub display-unicode : (path : Bytes) → is_unicode path ≡ true → display path ≡ path

unfoldable pub encode_paths : PathText → List GrantedPath → List Bytes
encode_paths text [] = []
encode_paths text (g ∷ gs) =
    path_flag g.axis
    ∷ text.display g.vetted.path
    ∷ object_token g.vetted.object
    ∷ encode_paths text gs

-- A flag before each of the values.
unfoldable pub encode_each : Bytes → List Bytes → List Bytes
encode_each flag [] = []
encode_each flag (v ∷ vs) = flag ∷ v ∷ encode_each flag vs

unfoldable pub encode_ports : List ℕ → List Bytes
encode_ports [] = []
encode_ports (p ∷ ps) = codes "--allow-network-port" ∷ decimal p ∷ encode_ports ps

unfoldable pub encode_network : NetworkPolicy → List Bytes
encode_network denied = []
encode_network any_port = codes "--allow-network" ∷ []
encode_network (ports ps) = encode_ports ps

unfoldable pub encode_pin : Option (List ℕ) → List Bytes
encode_pin none = []
encode_pin (some digest) = codes "--pin-sha256" ∷ display digest ∷ []

unfoldable pub encode : PathText → HelperArgs → List Bytes
encode text a =
    encode_paths text (granted_paths a.policy)
    ++ (encode_network a.policy.network
        ++ ((if a.policy.unix_sockets then codes "--allow-unix-sockets" ∷ [] else [])
            ++ ((if a.policy.dns_over_tcp then codes "--dns-over-tcp" ∷ [] else [])
                ++ (encode_each (codes "--env") a.policy.env
                    ++ (encode_each (codes "--allow-dns-name") a.policy.dns_names
                        ++ (encode_pin a.pin ++ (codes "--" ∷ a.program ∷ a.args)))))))

pub data HelperParse (A : Type 0) : Type 0 where
  parsed : A → HelperParse A
  bad_helper_args : Bytes → HelperParse A

-- What the loop of `decode` waits for: a flag, or what the last one takes.
pub data Expecting : Type 0 where
  a_flag a_port an_env a_dns_name a_pin : Expecting
  a_path : Axis → Expecting
  an_object : Axis → Bytes → Expecting

-- `policy` and `pin`, and what is waited for.
pub record Reading : Type 0 where
  pub policy : SandboxPolicy
  pub pin : Option (List ℕ)
  pub expecting : Expecting

pub data Taken : Type 0 where
  on : Reading → Taken
  separator : Taken
  refused : Bytes → Taken

abbrev pub widened : SandboxPolicy → Reading → Taken
widened p r = on (record r { policy = p; expecting = a_flag })

abbrev take_axis : Option Axis → Reading → Taken
take_axis none r = refused (codes "unrecognised helper flag")
take_axis (some axis) r = on (record r { expecting = a_path axis })

unfoldable pub take_flag : Bytes → Reading → Taken
take_flag arg r =
    if str_eq arg (codes "--")
    then separator
    else if str_eq arg (codes "--allow-network")
    then widened (allow_network r.policy) r
    else if str_eq arg (codes "--allow-network-port")
    then on (record r { expecting = a_port })
    else if str_eq arg (codes "--allow-unix-sockets")
    then widened (allow_unix_sockets r.policy) r
    else if str_eq arg (codes "--dns-over-tcp")
    then widened (hint_dns_over_tcp r.policy) r
    else if str_eq arg (codes "--env")
    then on (record r { expecting = an_env })
    else if str_eq arg (codes "--allow-dns-name")
    then on (record r { expecting = a_dns_name })
    else if str_eq arg (codes "--pin-sha256")
    then on (record r { expecting = a_pin })
    else take_axis (axis_for arg) r

abbrev take_port : Option ℕ → Reading → Taken
take_port none r = refused (codes "network port that is not a number in 1..=65535")
take_port (some port) r =
    if port == 0
    then refused (codes "network port 0, which matches no port")
    else widened (allow_network_port port r.policy) r

abbrev take_pin : Result (List ℕ) → Reading → Taken
take_pin (err e) r = refused (codes "pin digest that is not 64 lowercase hex characters")
take_pin (ok digest) r =
    if is_some r.pin
    then refused (codes "more than one pin flag, which names two images for one program")
    else on (record r { pin = some digest; expecting = a_flag })

abbrev take_object : Axis → Bytes → Option ObjectId → Reading → Taken
take_object axis path none r =
    refused (codes "object pin that is not a device and an inode parted by `:`")
take_object axis path (some object) r =
    widened (grant axis (record { path = path; object = object }) r.policy) r

unfoldable pub take_as : Expecting → Bytes → Reading → Taken
take_as a_flag arg r = take_flag arg r
take_as a_port arg r = take_port (parse_uint 65535 arg) r
take_as an_env arg r =
    if has_byte 61 arg
    then refused (codes "env variable name containing `=`")
    else widened (allow_env arg r.policy) r
take_as a_dns_name arg r =
    if not (is_resolvable_name arg)
    then refused (codes "dns name that is empty, over-long, or carries whitespace, `#` or a NUL")
    else widened (allow_dns arg r.policy) r
take_as a_pin arg r = take_pin (parse arg) r
take_as (a_path axis) arg r = on (record r { expecting = an_object axis arg })
take_as (an_object axis path) arg r = take_object axis path (parse_object arg) r

-- What `next_arg` reports.
abbrev pub missing : Expecting → Bytes
missing a_flag = codes "missing `--` separator before the command"
missing a_port = codes "network port flag with no port after it"
missing an_env = codes "env flag with no variable name after it"
missing a_dns_name = codes "dns name flag with no name after it"
missing a_pin = codes "pin flag with no digest after it"
missing (a_path axis) = codes "path flag with no path after it"
missing (an_object axis path) = codes "granted path with no object pin after it"

-- `Path::is_absolute`.
abbrev pub is_absolute : Bytes → Bool
is_absolute [] = false
is_absolute (c ∷ cs) = c == 47

abbrev checked : Option Bytes → HelperArgs → HelperParse HelperArgs
checked (some detail) a = bad_helper_args detail
checked none a = parsed a

-- Behind the separator.
unfoldable pub command : List Bytes → Reading → HelperParse HelperArgs
command [] r = bad_helper_args (codes "no command after `--`")
command (program ∷ args) r =
    if is_some r.pin && not (is_absolute program)
    then bad_helper_args (codes "a pinned program that is not an absolute path")
    else checked (unbounded_resolution r.policy)
        (record { policy = r.policy; program = program; args = args; pin = r.pin })

unfoldable pub decode_from : List Bytes → Reading → HelperParse HelperArgs
decode_from [] r = bad_helper_args (missing r.expecting)
decode_from (arg ∷ rest) r = elim (take_as r.expecting arg r) [
  | on r' ↦ decode_from rest r'
  | separator ↦ command rest r
  | refused detail ↦ bad_helper_args detail
]

unfoldable pub decode : List Bytes → HelperParse HelperArgs
decode argv = decode_from argv (record { policy = default_policy; pin = none; expecting = a_flag })
