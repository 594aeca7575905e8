-- ===== src/Core/HelperArgs/Trusted.antt =====
-- What the helper takes from its arguments, whoever wrote them.
use sandbx.Common.{
  split_once, ℕ, ◌^◌, true, false, not, ◌&&◌, ◌==◌, ltb, List, [], ◌∷◌, ◌≡◌, refl, Option, none,
  some, is_some, Bytes, codes, str_eq, if_elim, arith,
}
use sandbx.Core.Decimal.{parse_uint, parse_uint-bound}
use sandbx.Core.Digest.{Result, ok, err, parse}
use sandbx.Core.Policy.{ObjectId, Axis, has_byte, is_resolvable_name, unbounded_resolution}
use sandbx.Core.Policy.Built.{
  IsBuilt, default-IsBuilt, is_pinned, granting, networking, unix, dns_tcp, port_of, env_of, dns_of,
  widen-IsBuilt,
}
use sandbx.Core.HelperArgs.{
  object_of, parse_object, u64_max, axis_for, HelperArgs, HelperParse, parsed, bad_helper_args,
  Expecting, a_flag, a_port, an_env, a_dns_name, a_pin, a_path, an_object, Reading, Taken, on,
  separator, refused, take_axis, take_port, take_pin, take_object, take_flag, take_as, is_absolute,
  checked, command, decode_from, decode,
}

-- Half of a pin, if it is read.
abbrev Below : Option ℕ → Type 0
Below none = Unit {0}
Below (some n) = ltb n (2 ^ 64) ≡ true

parse_uint-Below : (o : Option ℕ) (s : Bytes) → parse_uint u64_max s ≡ o → Below o
parse_uint-Below none s e = tt
parse_uint-Below (some n) s e = ground (arith, parse_uint-bound u64_max n s e)

abbrev Pinned : Bytes → Option ObjectId → Type 0
Pinned path none = Unit {0}
Pinned path (some o) = is_pinned (record { path = path; object = o }) ≡ true

object_of-Pinned : (path : Bytes) (d i : Option ℕ) → Below d → Below i → Pinned path (object_of d i)
object_of-Pinned path none i p q = tt
object_of-Pinned path (some d) none p q = tt
object_of-Pinned path (some d) (some i) p q = rw (p, q) refl

parse_object-Pinned : (path token : Bytes) → Pinned path (parse_object token)
unfolding parse_object
parse_object-Pinned path token = halves (split_once 58 token)
  where
    halves :
        (o : Option (Bytes × Bytes))
        → Pinned path (elim o [
          | none ↦ none
          | some (d, i) ↦ object_of (parse_uint u64_max d) (parse_uint u64_max i)
        ])
    halves none = tt
    halves (some (d, i)) =
        object_of-Pinned path (parse_uint u64_max d) (parse_uint u64_max i)
          (parse_uint-Below _ d refl) (parse_uint-Below _ i refl)

abbrev Keeps : Taken → Type 0
Keeps (on r) = IsBuilt r.policy
Keeps separator = Unit {0}
Keeps (refused detail) = Unit {0}

take_axis-Keeps : (o : Option Axis) (r : Reading) → IsBuilt r.policy → Keeps (take_axis o r)
take_axis-Keeps none r b = tt
take_axis-Keeps (some axis) r b = b

take_flag-Keeps : (arg : Bytes) (r : Reading) → IsBuilt r.policy → Keeps (take_flag arg r)
unfolding take_flag
take_flag-Keeps arg r b =
    if_elim Keeps (str_eq arg (codes "--")) _ _ (λ _. tt)
      (λ _.
        if_elim Keeps (str_eq arg (codes "--allow-network")) _ _
          (λ _. widen-IsBuilt networking r.policy refl b)
          (λ _.
            if_elim Keeps (str_eq arg (codes "--allow-network-port")) _ _ (λ _. b)
              (λ _.
                if_elim Keeps (str_eq arg (codes "--allow-unix-sockets")) _ _
                  (λ _. widen-IsBuilt unix r.policy refl b)
                  (λ _.
                    if_elim Keeps (str_eq arg (codes "--dns-over-tcp")) _ _
                      (λ _. widen-IsBuilt dns_tcp r.policy refl b)
                      (λ _.
                        if_elim Keeps (str_eq arg (codes "--env")) _ _ (λ _. b)
                          (λ _.
                            if_elim Keeps (str_eq arg (codes "--allow-dns-name")) _ _ (λ _. b)
                              (λ _.
                                if_elim Keeps (str_eq arg (codes "--pin-sha256")) _ _ (λ _. b)
                                  (λ _. take_axis-Keeps (axis_for arg) r b))))))))

take_port-Keeps :
    (o : Option ℕ) (arg : Bytes) (r : Reading)
    → parse_uint 65535 arg ≡ o
    → IsBuilt r.policy
    → Keeps (take_port o r)
take_port-Keeps none arg r e b = tt
take_port-Keeps (some port) arg r e b =
    if_elim Keeps (port == 0) _ _ (λ _. tt)
      (λ _. widen-IsBuilt (port_of port) r.policy (parse_uint-bound 65535 port arg e) b)

take_pin-Keeps : (o : Result (List ℕ)) (r : Reading) → IsBuilt r.policy → Keeps (take_pin o r)
take_pin-Keeps (err e) r b = tt
take_pin-Keeps (ok digest) r b = if_elim Keeps (is_some r.pin) _ _ (λ _. tt) (λ _. b)

take_object-Keeps :
    (axis : Axis) (path : Bytes) (o : Option ObjectId) (r : Reading)
    → Pinned path o
    → IsBuilt r.policy
    → Keeps (take_object axis path o r)
take_object-Keeps axis path none r k b = tt
take_object-Keeps axis path (some o) r k b =
    widen-IsBuilt (granting axis (record { path = path; object = o })) r.policy k b

take_as-Keeps :
    (e : Expecting) (arg : Bytes) (r : Reading) → IsBuilt r.policy → Keeps (take_as e arg r)
unfolding take_as
take_as-Keeps a_flag arg r b = take_flag-Keeps arg r b
take_as-Keeps a_port arg r b = take_port-Keeps (parse_uint 65535 arg) arg r refl b
take_as-Keeps an_env arg r b =
    if_elim Keeps (has_byte 61 arg) _ _ (λ _. tt) (λ _. widen-IsBuilt (env_of arg) r.policy refl b)
take_as-Keeps a_dns_name arg r b =
    if_elim Keeps (not (is_resolvable_name arg)) _ _ (λ _. tt)
      (λ _. widen-IsBuilt (dns_of arg) r.policy refl b)
take_as-Keeps a_pin arg r b = take_pin-Keeps (parse arg) r b
take_as-Keeps (a_path axis) arg r b = b
take_as-Keeps (an_object axis path) arg r b =
    take_object-Keeps axis path (parse_object arg) r (parse_object-Pinned path arg) b

-- What may be run.
abbrev pub Trusted : HelperParse HelperArgs → Type 0
Trusted (bad_helper_args detail) = Unit {0}
Trusted (parsed a) =
    IsBuilt a.policy
    × (unbounded_resolution a.policy ≡ none)
    × ((is_some a.pin && not (is_absolute a.program)) ≡ false)

checked-Trusted :
    (o : Option Bytes) (a : HelperArgs)
    → IsBuilt a.policy
    → unbounded_resolution a.policy ≡ o
    → (is_some a.pin && not (is_absolute a.program)) ≡ false
    → Trusted (checked o a)
checked-Trusted none a b u p = (b, u, p)
checked-Trusted (some detail) a b u p = tt

command-Trusted : (argv : List Bytes) (r : Reading) → IsBuilt r.policy → Trusted (command argv r)
unfolding command
command-Trusted [] r b = tt
command-Trusted (program ∷ args) r b =
    if_elim Trusted (is_some r.pin && not (is_absolute program)) _ _ (λ _. tt)
      (λ p.
        checked-Trusted (unbounded_resolution r.policy)
          (record { policy = r.policy; program = program; args = args; pin = r.pin }) b refl p)

taken-Trusted :
    (t : Taken) (rest : List Bytes) (r : Reading)
    → Keeps t
    → IsBuilt r.policy
    → ((r' : Reading) → IsBuilt r'.policy → Trusted (decode_from rest r'))
    → Trusted (elim t [
      | on r' ↦ decode_from rest r'
      | separator ↦ command rest r
      | refused detail ↦ bad_helper_args detail
    ])
taken-Trusted (on r') rest r k b more = more r' k
taken-Trusted separator rest r k b more = command-Trusted rest r b
taken-Trusted (refused detail) rest r k b more = tt

decode_from-Trusted :
    (argv : List Bytes) (r : Reading) → IsBuilt r.policy → Trusted (decode_from argv r)
unfolding decode_from
decode_from-Trusted [] r b = tt
decode_from-Trusted (arg ∷ rest) r b =
    taken-Trusted (take_as r.expecting arg r) rest r (take_as-Keeps r.expecting arg r b) b
      (decode_from-Trusted rest)

-- Whoever wrote the arguments of the helper, what it takes from them is a policy that the builders could
-- have made: ports in range and none twice, names that can be carried, objects within their types. A
-- bound on names in it holds, and a pinned program is absolute.
pub decode-Trusted : (argv : List Bytes) → Trusted (decode argv)
unfolding decode
decode-Trusted argv = decode_from-Trusted argv _ default-IsBuilt
