-- ===== src/Core/Policy/Built.antt =====
-- What the builders of a policy keep.
use sandbx.Common.{
  ℕ, ◌^◌, Bool, true, false, not, ◌&&◌, ◌||◌, ◌==◌, ltb, leb, List, [], ◌∷◌, ◌++◌, ◌≡◌, refl, Bytes,
  all, all-append, any-append, contains, is_empty, if_elim, arith, str_eq, &&_true,
}
use sandbx.Core.Policy.{
  VettedPath, Axis, read, write, read_execute, NetworkPolicy, denied, any_port, ports,
  SandboxPolicy, default_policy, has_port, with_port, is_env_name, is_resolvable_name, grant,
  allow_network, allow_network_port, allow_unix_sockets, hint_dns_over_tcp, allow_env, allow_dns,
}

-- No port twice.
abbrev pub distinct_ports : List ℕ → Bool
distinct_ports [] = true
distinct_ports (p ∷ ps) = not (has_port ps p) && distinct_ports ps

-- A `u16` that is not zero.
abbrev pub is_port : ℕ → Bool
is_port p = not (p == 0) && leb p 65535

abbrev pub sound_network : NetworkPolicy → Bool
sound_network (ports ps) = not (is_empty ps) && all is_port ps && distinct_ports ps
sound_network _ = true

-- A `u64` each.
abbrev pub is_pinned : VettedPath → Bool
is_pinned v = ltb v.object.dev (2 ^ 64) && ltb v.object.ino (2 ^ 64)

abbrev pub distinct_names : List Bytes → Bool
distinct_names [] = true
distinct_names (n ∷ ns) = not (contains n ns) && distinct_names ns

abbrev pub IsBuilt : SandboxPolicy → Type 0
IsBuilt p =
    (all is_pinned p.readable ≡ true)
    × (all is_pinned p.writable ≡ true)
    × (all is_pinned p.executable ≡ true)
    × (sound_network p.network ≡ true)
    × (all is_env_name p.env ≡ true)
    × (all is_resolvable_name p.dns_names ≡ true)
    × (distinct_names p.dns_names ≡ true)

pub default-IsBuilt : IsBuilt default_policy
default-IsBuilt = (refl, refl, refl, refl, refl, refl, refl)

all-push :
    {A : Type 0} (p : A → Bool) (xs : List A) (x : A)
    → all p xs ≡ true
    → p x ≡ true
    → all p (xs ++ x ∷ []) ≡ true
all-push p xs x h k = rw (all-append, h, k)

distinct_ports-push :
    (ps : List ℕ) (p : ℕ)
    → distinct_ports ps ≡ true
    → has_port ps p ≡ false
    → distinct_ports (ps ++ p ∷ []) ≡ true
distinct_ports-push [] p d h = refl
distinct_ports-push (q ∷ qs) p d h =
    ground (arith, any-append (λ x. x == q) qs (p ∷ []), distinct_ports-push qs p)

contains-append :
    (n : Bytes) (ns : List Bytes) (m : Bytes)
    → contains n (ns ++ m ∷ []) ≡ (contains n ns || str_eq n m)
contains-append n [] m = ground arith
contains-append n (k ∷ ns) m = ground (arith, contains-append n ns m)

pub str_eq_sym : (s t : Bytes) → str_eq s t ≡ str_eq t s
str_eq_sym [] [] = refl
str_eq_sym [] (y ∷ ys) = refl
str_eq_sym (x ∷ xs) [] = refl
str_eq_sym (x ∷ xs) (y ∷ ys) = ground (arith, str_eq_sym xs ys)

distinct_names-push :
    (ns : List Bytes) (n : Bytes)
    → distinct_names ns ≡ true
    → contains n ns ≡ false
    → distinct_names (ns ++ n ∷ []) ≡ true
distinct_names-push [] n d h = refl
distinct_names-push (m ∷ ns) n d h =
    ground (arith, contains-append m ns n, str_eq_sym m n, distinct_names-push ns n)

pub push-not-empty : (ps : List ℕ) (p : ℕ) → is_empty (ps ++ p ∷ []) ≡ false
push-not-empty [] p = refl
push-not-empty (q ∷ qs) p = refl

with_port_sound :
    (p : ℕ) (n : NetworkPolicy)
    → is_port p ≡ true
    → sound_network n ≡ true
    → sound_network (with_port p n) ≡ true
unfolding with_port
with_port_sound p denied h s = ground (arith, h)
with_port_sound p any_port h s = refl
with_port_sound p (ports ps) h s =
    if_elim (λ qs. sound_network (ports qs) ≡ true) (has_port ps p) _ _ (λ _. s)
      (λ e. ground (
        arith,
        s,
        h,
        push-not-empty ps p,
        distinct_ports-push ps p,
        all-append is_port ps (p ∷ []),
        e,
      ))

-- One call of a builder.
pub data Widening : Type 0 where
  granting : Axis → VettedPath → Widening
  networking unix dns_tcp : Widening
  port_of : ℕ → Widening
  env_of dns_of : Bytes → Widening

abbrev pub widen : Widening → SandboxPolicy → SandboxPolicy
widen (granting axis v) p = grant axis v p
widen networking p = allow_network p
widen unix p = allow_unix_sockets p
widen dns_tcp p = hint_dns_over_tcp p
widen (port_of n) p = allow_network_port n p
widen (env_of n) p = allow_env n p
widen (dns_of n) p = allow_dns n p

-- The numbers that a call is given are of their types.
abbrev pub typed : Widening → Bool
typed (granting axis v) = is_pinned v
typed (port_of n) = leb n 65535
typed _ = true

abbrev pub widen_all : List Widening → SandboxPolicy → SandboxPolicy
widen_all [] p = p
widen_all (w ∷ ws) p = widen_all ws (widen w p)

pub widen-IsBuilt :
    (w : Widening) (p : SandboxPolicy) → typed w ≡ true → IsBuilt p → IsBuilt (widen w p)
unfolding grant allow_network allow_unix_sockets hint_dns_over_tcp allow_network_port allow_env
    allow_dns
widen-IsBuilt (granting read v) p t b =
    (all-push is_pinned p.readable v b.0 t, b.1, b.2, b.3, b.4, b.5, b.6)
widen-IsBuilt (granting write v) p t b =
    (b.0, all-push is_pinned p.writable v b.1 t, b.2, b.3, b.4, b.5, b.6)
widen-IsBuilt (granting read_execute v) p t b =
    (b.0, b.1, all-push is_pinned p.executable v b.2 t, b.3, b.4, b.5, b.6)
widen-IsBuilt networking p t b = (b.0, b.1, b.2, refl, b.4, b.5, b.6)
widen-IsBuilt unix p t b = b
widen-IsBuilt dns_tcp p t b = b
widen-IsBuilt (port_of n) p t b =
    if_elim IsBuilt (n == 0) _ _ (λ _. b)
      (λ e. (b.0, b.1, b.2, with_port_sound n p.network (ground (arith, e, t)) b.3, b.4, b.5, b.6))
widen-IsBuilt (env_of n) p t b =
    if_elim IsBuilt (is_env_name n) _ _
      (λ e. (b.0, b.1, b.2, b.3, all-push is_env_name p.env n b.4 e, b.5, b.6)) (λ _. b)
widen-IsBuilt (dns_of n) p t b =
    if_elim IsBuilt (is_resolvable_name n && not (contains n p.dns_names)) _ _
      (λ e.
        let (r, d) = &&_true (is_resolvable_name n) (not (contains n p.dns_names)) e in
        (
          b.0,
          b.1,
          b.2,
          b.3,
          b.4,
          all-push is_resolvable_name p.dns_names n b.5 r,
          distinct_names-push p.dns_names n b.6 (ground (arith, d)),
        ))
      (λ _. b)

-- However a policy is widened from the default one, its ports are in range and none stands twice, its
-- variables and host names are ones that can be carried, and no host name stands twice.
pub widen_all-IsBuilt :
    (ws : List Widening) (p : SandboxPolicy)
    → all typed ws ≡ true
    → IsBuilt p
    → IsBuilt (widen_all ws p)
widen_all-IsBuilt [] p t b = b
widen_all-IsBuilt (w ∷ ws) p t b =
    let (t', ts) = &&_true (typed w) (all typed ws) t in
    widen_all-IsBuilt ws (widen w p) ts (widen-IsBuilt w p t' b)
