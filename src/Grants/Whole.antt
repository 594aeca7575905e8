-- ===== src/Grants/Whole.antt =====
-- The policy as a whole.
use sandbx.Common.{
  true, false, not, List, [], ◌∷◌, all, Option, none, some, Bytes, if◌then◌else◌, is_empty, ◌≡◌,
  refl, sym, ◌∙◌, arith, subst, Bool-cases, inl, inr, ◌⊎◌, if_elim,
}
use sandbx.Core.Policy.{
  VettedPath, read, write, grants, SandboxPolicy, grant, allow_unix_sockets, hint_dns_over_tcp,
  allow_env, allow_dns, unbounded_network, unbounded_resolution, all_axes,
}
use sandbx.Grants.{
  PolicyError, derived, Flags, Surroundings, Granting, fold_policy, imposes, open_network,
  dns_conflict, paths_given, granted_on_axis, grant_axes, base, rooted, widened, bounded,
  or_refused, first_imposed, policy,
}
use sandbx.Grants.Sound.{
  bind-derived, fold_policy-keeps, grant_axes-keeps, granted_on_axis-Granted,
  granted_on_axis-Unowned, base-IsBare, Granted, Unowned, reads_back,
}
use sandbx.Grants.Executables.{Admitted, granted_on_axis-Admitted, base-Admitted}
use sandbx.Grants.Resolver.{
  dns_conflict-none, allow_dns-keeps, unbounded_resolution-bounded, unbounded_resolution-nameless,
  open_network-Same, allow_env-Same, SameFiles, Same,
}

-- A policy bounds names only where no nameserver is reached; it reads what it writes, and imposes
-- no variable that a flag passes. Paths from flags reach nothing that sandbx owns, and no path that
-- is executed does but one of the system's.
pub record IsSound (s : Surroundings) (g : Flags) (p : SandboxPolicy) : Type 0 where
  pub bound_names : unbounded_resolution p ≡ none
  pub read_back : reads_back p ≡ true
  pub unimposed : all (λ n. not (imposes p n)) g.env ≡ true
  pub unowned : (paths_given g ≡ false) ⊎ Unowned s p
  pub admitted : Admitted s p

or_refused-derived :
    (s : Surroundings) (o : Option PolicyError) (p q : SandboxPolicy)
    → or_refused s o p ≡ derived q
    → (o ≡ none) × (p ≡ q)
or_refused-derived s none p q e = (refl, ground (arith, e))
or_refused-derived s (some x) p q e = absurd (ground (arith, e))

first_imposed-none :
    (s : Surroundings) (p : SandboxPolicy) (ns : List Bytes)
    → first_imposed s p ns ≡ none
    → all (λ n. not (imposes p n)) ns ≡ true
first_imposed-none s p [] e = refl
first_imposed-none s p (n ∷ ns) e = elim (Bool-cases (imposes p n)) [
  | inl i ↦ absurd (ground (arith, i, e))
  | inr i ↦ ground (arith, i, e, first_imposed-none s p ns)
]

unnamed :
    (ns : List Bytes) (p : SandboxPolicy) → is_empty ns ≡ true → fold_policy allow_dns ns p ≡ p
unfolding fold_policy
unnamed [] p e = refl
unnamed (n ∷ ns) p e = absurd (ground (arith, e))

module _ (s : Surroundings) (g : Flags) where
  allowed_env-Same :
      (p : SandboxPolicy)
      → Same p (fold_policy allow_env g.env p)
        × ((fold_policy allow_env g.env p).network ≡ p.network)
  allowed_env-Same p =
      fold_policy-keeps (λ q. Same p q × (q.network ≡ p.network)) allow_env (allow_env-Same p) g.env
        p (((refl, refl, refl), (refl, refl, refl)), refl)

  widened-Same :
      (p : SandboxPolicy) → SameFiles p (widened s g p) × ((widened s g p).dns_names ≡ p.dns_names)
  unfolding widened allow_unix_sockets hint_dns_over_tcp
  widened-Same p =
      let opened : SandboxPolicy = open_network g.network (fold_policy allow_env g.env p) in
      let ((files, (_, _, names)), _) = allowed_env-Same p in
      let (after, (_, _, kept)) = open_network-Same g.network (fold_policy allow_env g.env p) in
      let start : SameFiles p opened × (opened.dns_names ≡ p.dns_names) =
        ((after.0 ∙ files.0, after.1 ∙ files.1, after.2 ∙ files.2), kept ∙ names) in
      let I : SandboxPolicy → Type 0 = λ r. SameFiles p r × (r.dns_names ≡ p.dns_names) in
      if_elim I g.dns_over_tcp _ _
        (λ _. if_elim I g.unix_sockets (allow_unix_sockets opened) opened (λ _. start) (λ _. start))
        (λ _. if_elim I g.unix_sockets (allow_unix_sockets opened) opened (λ _. start) (λ _. start))

  widened-closed :
      (p : SandboxPolicy)
      → g.dns_over_tcp ≡ false
      → g.unix_sockets ≡ false
      → widened s g p ≡ open_network g.network (fold_policy allow_env g.env p)
  unfolding widened
  widened-closed p d u = rw (d, u) refl

  widened-bounded :
      (p : SandboxPolicy)
      → Granted s p
      → g.dns_over_tcp ≡ false
      → g.unix_sockets ≡ false
      → unbounded_network (open_network g.network (fold_policy allow_env g.env p)).network ≡ none
      → ((widened s g p).unix_sockets ≡ false)
        × ((widened s g p).dns_over_tcp ≡ false)
        × (unbounded_network (widened s g p).network ≡ none)
  widened-bounded p d h u l =
      let (_, (sockets, hint, _)) = (allowed_env-Same p).0 in
      let (_, (sockets', hint', _)) = open_network-Same g.network (fold_policy allow_env g.env p) in
      subst
        (λ (b : SandboxPolicy).
          (b.unix_sockets ≡ false)
          × (b.dns_over_tcp ≡ false)
          × (unbounded_network b.network ≡ none))
        (sym (widened-closed p h u))
        (sockets' ∙ sockets ∙ d.no_sockets, hint' ∙ hint ∙ d.no_hint, l)

  rooted_at :
      (root : VettedPath)
      → Granted s (base s)
      → Granted s (grant write root (grant read root (base s)))
  unfolding grant granted_on_axis grants
  rooted_at root b = granted_on_axis-Granted s write root (base s) b

  rooted-Granted :
      (p : SandboxPolicy)
      → rooted s g ≡ derived p
      → Granted s p × ((paths_given g ≡ false) ⊎ Unowned s p) × Admitted s p
  unfolding rooted
  rooted-Granted p e =
      let (bare, r, w) = base-IsBare s in
      elim (Bool-cases (paths_given g)) [
        | inl y ↦
            subst (λ q. Granted s q × ((paths_given g ≡ false) ⊎ Unowned s q) × Admitted s q)
              (ground (arith, y, e)) (bare, inr (rw r refl, rw w refl), base-Admitted s)
        | inr n ↦
            let (root, _, f) =
              bind-derived (s.current_root (base s).executable s.owned)
                (λ root. derived (grant write root (grant read root (base s)))) p
                (ground (arith, n, e)) in
            let same : grant write root (grant read root (base s)) ≡ p = ground (arith, f) in
            (
              subst (Granted s) same (rooted_at root bare),
              inl n,
              subst (Admitted s) same (unfold grant in base-Admitted s),
            )
      ]

  bounded-resolution :
      (t : Granting) (q : SandboxPolicy)
      → bounded s g t ≡ derived q
      → Granted s t.policy
      → (unbounded_resolution q ≡ none) × SameFiles t.policy q
  unfolding bounded fold_policy
  bounded-resolution t q e d =
      let w : SandboxPolicy = widened s g t.policy in
      let (files, names) = widened-Same t.policy in
      let (c, r) =
        or_refused-derived s (if is_empty g.dns then none else dns_conflict g t.bound_file)
          (fold_policy allow_dns g.dns w) q e in
      elim (Bool-cases (is_empty g.dns)) [
        | inl n ↦
            subst (λ x. (unbounded_resolution x ≡ none) × SameFiles t.policy x)
              (sym (unnamed g.dns w n) ∙ r)
              (unbounded_resolution-nameless w (names ∙ d.no_names), files)
        | inr n ↦
            let network = (allowed_env-Same t.policy).1 in
            let (h, u, l) =
              dns_conflict-none g t.bound_file (fold_policy allow_env g.env t.policy)
                (ground (arith, n, c)) (rw (network, d.closed) refl) in
            let (v, x, y) = widened-bounded t.policy d h u l in
            let kept =
              fold_policy-keeps
                (λ (b : SandboxPolicy).
                  SameFiles t.policy b
                  × (b.unix_sockets ≡ false)
                  × (b.dns_over_tcp ≡ false)
                  × (unbounded_network b.network ≡ none))
                allow_dns (allow_dns-keeps t.policy) g.dns w (files, v, x, y) in
            subst (λ b. (unbounded_resolution b ≡ none) × SameFiles t.policy b) r
              (unbounded_resolution-bounded _ kept.1 kept.2 kept.3, kept.0)
      ]

  -- Whatever the surroundings answer, a policy that the flags describe is sound: where it bounds
  -- which names resolve, no nameserver is left to ask; it reads every path that it writes; no
  -- variable that a flag passes is one that it imposes; where a flag names a path, no path that it
  -- grants for reading or for writing reaches one that sandbx owns; and no path that it grants for
  -- executing, which reads it as well, does, but for what the system's own paths were vetted as.
  pub policy-IsSound : (p : SandboxPolicy) → policy s g ≡ derived p → IsSound s g p
  unfolding policy
  policy-IsSound p e =
      let (p0, a, e1) = bind-derived (rooted s g) _ p e in
      let (t, b, e2) =
        bind-derived (grant_axes s g all_axes (record { policy = p0; bound_file = none })) _ p e1 in
      let (q, c, e3) = bind-derived (bounded s g t) _ p e2 in
      let (none_imposed, same) = or_refused-derived s (first_imposed s q g.env) q p e3 in
      let (start, unowned, programs) = rooted-Granted p0 a in
      let granted : Granted s t.policy =
        grant_axes-keeps s (Granted s) (λ axis v x _ d. granted_on_axis-Granted s axis v x d) g
          all_axes _ t b start in
      let (names, files) = bounded-resolution t q c granted in
      subst (IsSound s g) same (record {
        bound_names = names;
        read_back = rw (files.0, files.1) granted.read_back;
        unimposed = first_imposed-none s q g.env none_imposed;
        unowned = elim unowned [
          | inl n ↦ inl n
          | inr o ↦
              let kept : Unowned s t.policy =
                grant_axes-keeps s (Unowned s) (granted_on_axis-Unowned s) g all_axes _ t b o in
              inr (rw files.0 kept.0, rw files.1 kept.1)
        ];
        admitted =
            let kept : Admitted s t.policy =
              grant_axes-keeps s (Admitted s) (granted_on_axis-Admitted s) g all_axes _ t b
                programs in
            rw files.2 kept;
      })
