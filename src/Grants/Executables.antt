-- ===== src/Grants/Executables.antt =====
-- The programs that a policy may run: those of the system, and what the flags add.
use sandbx.Common.{
  Bool, true, false, ◌||◌, List, [], ◌∷◌, any, all, Option, none, some, ◌≡◌, refl, arith,
  all-append, if_elim,
}
use sandbx.Core.FilePath.{FilePath}
use sandbx.Core.Policy.{
  VettedPath, Axis, read, write, read_execute, grants, SandboxPolicy, default_policy, grant,
  allow_env,
}
use sandbx.Grants.{
  Surroundings, fold_policy, granted_on_axis, base, push_vetted, system_executable_paths,
  allow_system_executables,
}
use sandbx.Grants.Sound.{fold_policy-keeps, same_vetted, same_vetted_refl, is_unowned}

module _ (s : Surroundings) where
  abbrev vets : VettedPath → Option VettedPath → Bool
  vets v none = false
  vets v (some u) = same_vetted v u

  -- What a system path was vetted as.
  abbrev pub is_system : VettedPath → Bool
  is_system v = any (λ f. vets v (s.vet f)) system_executable_paths

  -- Each of the paths that are executed, and so read, is the system's or reaches nothing owned.
  abbrev pub Admitted : SandboxPolicy → Type 0
  Admitted p = all (λ v. is_unowned s v || is_system v) p.executable ≡ true

  pub granted_on_axis-Admitted :
      (axis : Axis) (v : VettedPath) (p : SandboxPolicy)
      → is_unowned s v ≡ true
      → Admitted p
      → Admitted (granted_on_axis s axis v p)
  unfolding granted_on_axis grants grant
  granted_on_axis-Admitted read v p o a = a
  granted_on_axis-Admitted write v p o a = a
  granted_on_axis-Admitted read_execute v p o a =
      rw (all-append (λ u. is_unowned s u || is_system u) p.executable (v ∷ []), a, o) refl

  abbrev PushedSystem : Option VettedPath → Type 0
  PushedSystem none = Unit {0}
  PushedSystem (some v) = is_system v ≡ true

  push_vetted-Admitted :
      (o : Option VettedPath) (p : SandboxPolicy)
      → PushedSystem o
      → Admitted p
      → Admitted (push_vetted s o p)
  unfolding grant
  push_vetted-Admitted none p y a = a
  push_vetted-Admitted (some v) p y a =
      rw (all-append (λ u. is_unowned s u || is_system u) p.executable (v ∷ []), a, y)
        (ground arith)

  abbrev AllPushed : List FilePath → Type 0
  AllPushed [] = Unit {0}
  AllPushed (f ∷ fs) = PushedSystem (s.vet f) × AllPushed fs

  pushes-Admitted :
      (fs : List FilePath) (p : SandboxPolicy)
      → AllPushed fs
      → Admitted p
      → Admitted (fold_policy (λ f q. push_vetted s (s.vet f) q) fs p)
  unfolding fold_policy
  pushes-Admitted [] p y a = a
  pushes-Admitted (f ∷ fs) p y a = pushes-Admitted fs _ y.1 (push_vetted-Admitted (s.vet f) p y.0 a)

  own :
      (o : Option VettedPath)
      → ((v : VettedPath) → o ≡ some v → is_system v ≡ true)
      → PushedSystem o
  own none h = tt
  own (some v) h = h v refl

  system-AllPushed : AllPushed system_executable_paths
  system-AllPushed = (
    own _ (λ v e. ground (arith, e, same_vetted_refl v)),
    (
      own _ (λ v e. ground (arith, e, same_vetted_refl v)),
      (
        own _ (λ v e. ground (arith, e, same_vetted_refl v)),
        (own _ (λ v e. ground (arith, e, same_vetted_refl v)), tt),
      ),
    ),
  )

  pub base-Admitted : Admitted (base s)
  base-Admitted =
      fold_policy-keeps Admitted allow_env
        (λ n p a. unfold allow_env in if_elim Admitted _ _ _ (λ _. a) (λ _. a)) _
        (allow_system_executables s default_policy)
        (pushes-Admitted system_executable_paths default_policy system-AllPushed refl)
