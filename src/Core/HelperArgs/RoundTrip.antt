-- ===== src/Core/HelperArgs/RoundTrip.antt =====
-- Writing a policy and a command, and reading them back.
use sandbx.Common.{
  ℕ, true, false, not, ◌&&◌, List, [], ◌∷◌, ◌++◌, ◌≡◌, refl, sym, ap, ◌∙◌, subst, Option, none,
  some, is_some, Bytes, codes, all, length,
}
use mathlib.Core.List.{append-nil, append_assoc}
use sandbx.Core.Digest.RoundTrip.{is_bytes, parse-display}
use sandbx.Core.Policy.{
  VettedPath, Axis, read, write, read_execute, denied, SandboxPolicy, default_policy, GrantedPath,
  granted_on, granted_from, granted_paths, paths, grant, unbounded_resolution,
}
use sandbx.Core.Policy.Built.{IsBuilt, is_pinned}
use sandbx.Core.HelperArgs.{
  PathText, object_token, path_flag, HelperArgs, encode_paths, encode_pin, encode, parsed, a_pin,
  take_flag, take_as, is_absolute, command, decode_from, decode,
}
use sandbx.Core.HelperArgs.Flags.{
  step_on, at, Reads, grant_all, made, Reads-paths, Reads-network, Reads-unix, Reads-hint,
  Reads-env, Reads-names,
}

grant_all-read :
    (vs : List VettedPath) (p : SandboxPolicy)
    → grant_all read vs p ≡ record p { readable = p.readable ++ vs }
unfolding grant
grant_all-read [] p = ap (λ rs. record p { readable = rs }) (sym (append-nil p.readable))
grant_all-read (v ∷ vs) p =
    grant_all-read vs (grant read v p)
    ∙ ap (λ rs. record p { readable = rs }) (append_assoc p.readable (v ∷ []) vs)

grant_all-write :
    (vs : List VettedPath) (p : SandboxPolicy)
    → grant_all write vs p ≡ record p { writable = p.writable ++ vs }
unfolding grant
grant_all-write [] p = ap (λ ws. record p { writable = ws }) (sym (append-nil p.writable))
grant_all-write (v ∷ vs) p =
    grant_all-write vs (grant write v p)
    ∙ ap (λ ws. record p { writable = ws }) (append_assoc p.writable (v ∷ []) vs)

grant_all-read_execute :
    (vs : List VettedPath) (p : SandboxPolicy)
    → grant_all read_execute vs p ≡ record p { executable = p.executable ++ vs }
unfolding grant
grant_all-read_execute [] p =
    ap (λ xs. record p { executable = xs }) (sym (append-nil p.executable))
grant_all-read_execute (v ∷ vs) p =
    grant_all-read_execute vs (grant read_execute v p)
    ∙ ap (λ xs. record p { executable = xs }) (append_assoc p.executable (v ∷ []) vs)

encode_paths-append :
    (text : PathText) (gs hs : List GrantedPath)
    → encode_paths text (gs ++ hs) ≡ encode_paths text gs ++ encode_paths text hs
unfolding encode_paths
encode_paths-append text [] hs = refl
encode_paths-append text (g ∷ gs) hs =
    ap (λ k. path_flag g.axis ∷ text.display g.vetted.path ∷ object_token g.vetted.object ∷ k)
      (encode_paths-append text gs hs)

Reads-append :
    (xs ys : List Bytes) (p q s : SandboxPolicy)
    → Reads xs p q
    → Reads ys q s
    → Reads (xs ++ ys) p s
Reads-append xs ys p q s f g pin tail =
    ap (λ k. decode_from k (at p pin)) (append_assoc xs ys tail) ∙ f pin (ys ++ tail) ∙ g pin tail

Reads-on :
    (text : PathText) (axis : Axis) (vs : List VettedPath) (gs : List GrantedPath)
    (p q s : SandboxPolicy)
    → all is_pinned vs ≡ true
    → all (λ v. text.is_unicode v.path) vs ≡ true
    → grant_all axis vs p ≡ q
    → Reads (encode_paths text gs) q s
    → Reads (encode_paths text (granted_on axis vs ++ gs)) p s
Reads-on text axis vs gs p q s a u e g =
    subst (λ k. Reads k p s) (sym (encode_paths-append text (granted_on axis vs) gs))
      (Reads-append (encode_paths text (granted_on axis vs)) (encode_paths text gs) p q s
        (subst (Reads (encode_paths text (granted_on axis vs)) p) e
          (Reads-paths text axis vs p a u))
        g)

-- The paths that a policy grants are Unicode.
abbrev pub IsUnicode : PathText → SandboxPolicy → Type 0
IsUnicode text p =
    (all (λ v. text.is_unicode v.path) p.readable ≡ true)
    × (all (λ v. text.is_unicode v.path) p.writable ≡ true)
    × (all (λ v. text.is_unicode v.path) p.executable ≡ true)

Reads-granted :
    (text : PathText) (p : SandboxPolicy)
    → IsBuilt p
    → IsUnicode text p
    → Reads
        (encode_paths text (granted_paths p))
        default_policy
        (made p.readable p.writable p.executable denied false [] false [])
unfolding granted_paths granted_from paths encode_paths
Reads-granted text p b u =
    Reads-on text read p.readable _ default_policy (made p.readable [] [] denied false [] false [])
      _ b.0 u.0 (grant_all-read p.readable default_policy)
      (Reads-on text write p.writable _ _ (made p.readable p.writable [] denied false [] false []) _
        b.1 u.1 (grant_all-write p.writable _)
        (Reads-on text read_execute p.executable [] _ _ _ b.2 u.2
          (grant_all-read_execute p.executable _) (λ pin tail. refl)))

-- What a program may be pinned to: 32 bytes.
abbrev pub IsDigest : Option (List ℕ) → Type 0
IsDigest none = Unit {0}
IsDigest (some digest) = (length digest ≡ 32) × (is_bytes digest ≡ true)

Reads-pin :
    (p : SandboxPolicy) (pin : Option (List ℕ)) (tail : List Bytes)
    → IsDigest pin
    → decode_from (encode_pin pin ++ tail) (at p none) ≡ decode_from tail (at p pin)
unfolding encode_pin take_flag take_as
Reads-pin p none tail h = refl
Reads-pin p (some digest) tail h =
    step_on _ _ (at p none) _ refl
    ∙ step_on _ _ (record { policy = p; pin = none; expecting = a_pin }) (at p (some digest))
        (rw (parse-display digest h.0 h.1) refl)

Reads-command :
    (p : SandboxPolicy) (program : Bytes) (args : List Bytes) (pin : Option (List ℕ))
    → (is_some pin && not (is_absolute program)) ≡ false
    → unbounded_resolution p ≡ none
    → decode_from (codes "--" ∷ program ∷ args) (at p pin)
      ≡ parsed (record { policy = p; program = program; args = args; pin = pin })
unfolding decode_from take_as take_flag command
Reads-command p program args pin a u = rw (a, u) refl

-- What the harness hands the helper for a policy that the builders made, the helper reads back as that
-- policy and that command: every grant with the object it was pinned to, the ports, the switches, the
-- names, and the digest of the program. The granted paths have to be Unicode, as the harness writes
-- them by their display; a pinned program has to be absolute, and a bound on names one that holds.
pub decode-encode :
    (text : PathText) (a : HelperArgs)
    → IsBuilt a.policy
    → IsUnicode text a.policy
    → IsDigest a.pin
    → (is_some a.pin && not (is_absolute a.program)) ≡ false
    → unbounded_resolution a.policy ≡ none
    → decode (encode text a) ≡ parsed a
unfolding decode encode
decode-encode text a b unicode digest absolute bounded =
    let p = a.policy in
    let rs = p.readable in
    let ws = p.writable in
    let xs = p.executable in
    Reads-granted text p b unicode none _
    ∙ Reads-network rs ws xs false [] false [] p.network b.3 none _
    ∙ Reads-unix rs ws xs p.network p.unix_sockets none _
    ∙ Reads-hint rs ws xs p.network p.unix_sockets p.dns_over_tcp none _
    ∙ Reads-env rs ws xs p.network p.unix_sockets p.dns_over_tcp [] p.env b.4 none _
    ∙ Reads-names rs ws xs p.network p.unix_sockets p.dns_over_tcp p.env [] p.dns_names b.5 b.6 none
        _
    ∙ Reads-pin p a.pin _ digest
    ∙ Reads-command p a.program a.args a.pin absolute bounded
