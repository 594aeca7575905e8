-- ===== src/Grants/Resolver.antt =====
-- What the flags on the network and on names come to: where they bound names, no nameserver is left.
use sandbx.Common.{
  ℕ, false, not, ◌&&◌, ◌==◌, List, [], ◌∷◌, Option, none, some, Bytes, contains, ◌≡◌, refl, arith,
  Bool-cases, Option-cases, inl, inr, any-append, if_elim,
}
use sandbx.Core.FilePath.{FilePath}
use sandbx.Core.Policy.{
  NetworkPolicy, denied, any_port, ports, SandboxPolicy, has_port, with_port, nameserver_port,
  allow_network, allow_network_port, allow_env, allow_dns, is_env_name, is_resolvable_name,
  bounds_resolution, unbounded_network, unbounded_resolution,
}
use sandbx.Grants.{Flags, fold_policy, open_network, dns_conflict}
use sandbx.Grants.Sound.{fold_policy-keeps}

-- The flags behind the paths leave the paths alone; but for the names, so does a name.
abbrev pub SameFiles : SandboxPolicy → SandboxPolicy → Type 0
SameFiles p q =
    (q.readable ≡ p.readable) × (q.writable ≡ p.writable) × (q.executable ≡ p.executable)

abbrev pub SameResolver : SandboxPolicy → SandboxPolicy → Type 0
SameResolver p q =
    (q.unix_sockets ≡ p.unix_sockets)
    × (q.dns_over_tcp ≡ p.dns_over_tcp)
    × (q.dns_names ≡ p.dns_names)

abbrev pub Same : SandboxPolicy → SandboxPolicy → Type 0
Same p q = SameFiles p q × SameResolver p q

pub allow_env-Same :
    (p : SandboxPolicy) (n : Bytes) (q : SandboxPolicy)
    → Same p q × (q.network ≡ p.network)
    → Same p (allow_env n q) × ((allow_env n q).network ≡ p.network)
unfolding allow_env
allow_env-Same p n q e =
    if_elim (λ r. Same p r × (r.network ≡ p.network)) (is_env_name n) _ _ (λ _. e) (λ _. e)

allow_network_port-Same :
    (p : SandboxPolicy) (n : ℕ) (q : SandboxPolicy) → Same p q → Same p (allow_network_port n q)
unfolding allow_network_port
allow_network_port-Same p n q e = if_elim (Same p) (n == 0) _ _ (λ _. e) (λ _. e)

pub open_network-Same : (n : Option (List ℕ)) (p : SandboxPolicy) → Same p (open_network n p)
unfolding open_network allow_network
open_network-Same none p = ((refl, refl, refl), (refl, refl, refl))
open_network-Same (some []) p = ((refl, refl, refl), (refl, refl, refl))
open_network-Same (some (n ∷ ns)) p =
    fold_policy-keeps (Same p) allow_network_port (allow_network_port-Same p) (n ∷ ns) p
      ((refl, refl, refl), (refl, refl, refl))

with_port-bounded :
    (n : ℕ) (w : NetworkPolicy)
    → (n == nameserver_port) ≡ false
    → unbounded_network w ≡ none
    → unbounded_network (with_port n w) ≡ none
unfolding with_port
with_port-bounded n denied h e = ground (arith, h)
with_port-bounded n any_port h e = e
with_port-bounded n (ports ps) h e =
    ground (arith, h, e, any-append (λ p. p == nameserver_port) ps (n ∷ []))

ports-bounded :
    (ns : List ℕ) (p : SandboxPolicy)
    → has_port ns nameserver_port ≡ false
    → unbounded_network p.network ≡ none
    → unbounded_network (fold_policy allow_network_port ns p).network ≡ none
unfolding fold_policy allow_network_port
ports-bounded [] p h e = e
ports-bounded (n ∷ ns) p h e = ports-bounded ns (allow_network_port n p) (ground (arith, h)) (
    if_elim (λ (r : SandboxPolicy). unbounded_network r.network ≡ none) (n == 0) p
      (record p { network = with_port n p.network }) (λ _. e)
      (λ _. with_port-bounded n p.network (ground (arith, h)) e))

-- What `dns_conflict` lets through.
pub dns_conflict-none :
    (g : Flags) (f : Option FilePath) (p : SandboxPolicy)
    → dns_conflict g f ≡ none
    → unbounded_network p.network ≡ none
    → (g.dns_over_tcp ≡ false)
      × (g.unix_sockets ≡ false)
      × (unbounded_network (open_network g.network p).network ≡ none)
unfolding dns_conflict open_network
dns_conflict-none g f p e n = elim (Bool-cases g.dns_over_tcp) [
  | inl d ↦ absurd (ground (arith, d, e))
  | inr d ↦ elim (Bool-cases g.unix_sockets) [
    | inl u ↦ absurd (ground (arith, d, u, e))
    | inr u ↦ elim (Option-cases g.network) [
      | inl w ↦ absurd (ground (arith, d, u, w, e))
      | inr ([], w) ↦ absurd (ground (arith, d, u, w, e))
      | inr (m ∷ ms, w) ↦ elim (Bool-cases (has_port (m ∷ ms) nameserver_port)) [
        | inl b ↦ absurd (ground (arith, d, u, w, b, e))
        | inr b ↦ (d, u, rw w (ports-bounded (m ∷ ms) p b n))
      ]
    ]
  ]
]

pub allow_dns-keeps :
    (p : SandboxPolicy) (n : Bytes) (q : SandboxPolicy)
    → SameFiles p q
      × (q.unix_sockets ≡ false)
      × (q.dns_over_tcp ≡ false)
      × (unbounded_network q.network ≡ none)
    → SameFiles p (allow_dns n q)
      × ((allow_dns n q).unix_sockets ≡ false)
      × ((allow_dns n q).dns_over_tcp ≡ false)
      × (unbounded_network (allow_dns n q).network ≡ none)
unfolding allow_dns
allow_dns-keeps p n q e =
    if_elim
      (λ (r : SandboxPolicy).
        SameFiles p r
        × (r.unix_sockets ≡ false)
        × (r.dns_over_tcp ≡ false)
        × (unbounded_network r.network ≡ none))
      (is_resolvable_name n && not (contains n q.dns_names)) _ _ (λ _. e) (λ _. e)

pub unbounded_resolution-bounded :
    (p : SandboxPolicy)
    → p.unix_sockets ≡ false
    → p.dns_over_tcp ≡ false
    → unbounded_network p.network ≡ none
    → unbounded_resolution p ≡ none
unfolding unbounded_resolution
unbounded_resolution-bounded p u d n =
    if_elim (λ o. o ≡ none) (not (bounds_resolution p)) _ _ (λ _. refl) (λ _. rw (d, u, n) refl)

pub unbounded_resolution-nameless :
    (p : SandboxPolicy) → p.dns_names ≡ [] → unbounded_resolution p ≡ none
unfolding unbounded_resolution bounds_resolution
unbounded_resolution-nameless p e = rw e refl
