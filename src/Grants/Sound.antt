-- ===== src/Grants/Sound.antt =====
-- What holds of a policy that the flags describe.
use sandbx.Common.{
  Bool, true, false, not, ◌&&◌, List, [], ◌∷◌, ◌++◌, any, all, Option, none, some, Bytes, str_eq,
  str_eq_refl, is_some, ◌≡◌, refl, sym, ◌∙◌, arith, subst, Option-cases, inl, inr, any-append,
  all-append, if_elim,
}
use sandbx.Core.FilePath.{FilePath, components}
use sandbx.Core.Host.{object_eq}
use sandbx.Core.Policy.{
  VettedPath, Axis, read, write, read_execute, grants, denied, SandboxPolicy, default_policy, grant,
  allow_env, is_env_name,
}
use sandbx.Grants.{
  Derived, derived, refused, ◌>>=◌, Flags, Surroundings, Granting, fold_policy, of_axis,
  reaches_owned, granted_on_axis, granted_object, vetted_or, unowned_or, judged, absolute,
  grant_path, grant_all, grant_axes, base, push_vetted,
}

pub bind-derived :
    {A B : Type 0} (m : Derived A) (f : A → Derived B) (b : B)
    → (m >>= f) ≡ derived b
    → (a : A) × (m ≡ derived a) × (f a ≡ derived b)
bind-derived (derived a) f b e = (a, refl, e)
bind-derived (refused x) f b e = absurd (ground arith)

pub fold_policy-keeps :
    {A : Type 0} (I : SandboxPolicy → Type 0) (f : A → SandboxPolicy → SandboxPolicy)
    → ((a : A) (p : SandboxPolicy) → I p → I (f a p))
    → (xs : List A) (p : SandboxPolicy) → I p
    → I (fold_policy f xs p)
unfolding fold_policy
fold_policy-keeps I f k [] p i = i
fold_policy-keeps I f k (a ∷ xs) p i = fold_policy-keeps I f k xs (f a p) (k a p i)

abbrev pub same_vetted : VettedPath → VettedPath → Bool
same_vetted v u = str_eq v.path u.path && object_eq v.object u.object

pub same_vetted_refl : (v : VettedPath) → same_vetted v v ≡ true
same_vetted_refl v = ground (arith, str_eq_refl v.path)

-- Every path that is written can be read back.
abbrev pub reads_back : SandboxPolicy → Bool
reads_back p = all (λ v. any (same_vetted v) p.readable) p.writable

all-any-push :
    (rs ws : List VettedPath) (v : VettedPath)
    → all (λ w. any (same_vetted w) rs) ws ≡ true
    → all (λ w. any (same_vetted w) (rs ++ v ∷ [])) ws ≡ true
all-any-push rs [] v h = refl
all-any-push rs (w ∷ ws) v h =
    ground (arith, any-append (same_vetted w) rs (v ∷ []), all-any-push rs ws v, h)

module _ (s : Surroundings) where
  abbrev pub is_unowned : VettedPath → Bool
  is_unowned v = not (is_some (reaches_owned s (components v.path)))

  unowned_or-unowned :
      (p typed : FilePath) (o : Option VettedPath) (v : VettedPath)
      → unowned_or s p (reaches_owned s (judged s typed o)) (vetted_or s p o) ≡ derived v
      → is_unowned v ≡ true
  unowned_or-unowned p typed none v e =
      elim (Option-cases (reaches_owned s (judged s typed none))) [
        | inl n ↦ absurd (ground (arith, n, e))
        | inr (w, n) ↦ absurd (ground (arith, n, e))
      ]
  unowned_or-unowned p typed (some u) v e =
      elim (Option-cases (reaches_owned s (components u.path))) [
        | inl n ↦ ground (arith, n, e)
        | inr (w, n) ↦ absurd (ground (arith, n, e))
      ]

  granted_object-unowned :
      (p typed : FilePath) (v : VettedPath)
      → granted_object s p typed ≡ derived v
      → is_unowned v ≡ true
  unfolding granted_object
  granted_object-unowned p typed v e = unowned_or-unowned p typed (s.vet typed) v e

  grant_path-grants :
      (axis : Axis) (p : FilePath) (t u : Granting)
      → grant_path s axis p t ≡ derived u
      → (v : VettedPath) × (is_unowned v ≡ true) × (u.policy ≡ granted_on_axis s axis v t.policy)
  unfolding grant_path
  grant_path-grants axis p t u e =
      let (typed, _, f) = bind-derived (absolute s p) _ u e in
      let (v, g, h) = bind-derived (granted_object s p typed) _ u f in
      (v, granted_object-unowned p typed v g, ground (arith, h))

  module _ (I : SandboxPolicy → Type 0)
      (keeps : (axis : Axis) (v : VettedPath) (p : SandboxPolicy)
        → is_unowned v ≡ true
        → I p
        → I (granted_on_axis s axis v p)) where
    grant_all-keeps :
        (axis : Axis) (ps : List FilePath) (t u : Granting)
        → grant_all s axis ps t ≡ derived u
        → I t.policy
        → I u.policy
    unfolding grant_all
    grant_all-keeps axis [] t u e i = subst I (ground (arith, e)) i
    grant_all-keeps axis (p ∷ ps) t u e i =
        let (m, f, h) = bind-derived (grant_path s axis p t) _ u e in
        let (v, o, q) = grant_path-grants axis p t m f in
        grant_all-keeps axis ps m u h (subst I (sym q) (keeps axis v t.policy o i))

    pub grant_axes-keeps :
        (g : Flags) (axes : List Axis) (t u : Granting)
        → grant_axes s g axes t ≡ derived u
        → I t.policy
        → I u.policy
    unfolding grant_axes
    grant_axes-keeps g [] t u e i = subst I (ground (arith, e)) i
    grant_axes-keeps g (axis ∷ axes) t u e i =
        let (m, f, h) = bind-derived (grant_all s axis (of_axis axis g) t) _ u e in
        grant_axes-keeps g axes m u h (grant_all-keeps axis (of_axis axis g) t m f i)

  -- What the flags on the paths leave alone, and that they read back what they write.
  pub record Granted (p : SandboxPolicy) : Type 0 where
    pub closed : p.network ≡ denied
    pub no_sockets : p.unix_sockets ≡ false
    pub no_hint : p.dns_over_tcp ≡ false
    pub no_names : p.dns_names ≡ []
    pub read_back : reads_back p ≡ true

  pub granted_on_axis-Granted :
      (axis : Axis) (v : VettedPath) (p : SandboxPolicy)
      → Granted p
      → Granted (granted_on_axis s axis v p)
  unfolding granted_on_axis grants grant
  granted_on_axis-Granted read v p d = record {
    closed = d.closed;
    no_sockets = d.no_sockets;
    no_hint = d.no_hint;
    no_names = d.no_names;
    read_back = all-any-push p.readable p.writable v d.read_back;
  }
  granted_on_axis-Granted write v p d = record {
    closed = d.closed;
    no_sockets = d.no_sockets;
    no_hint = d.no_hint;
    no_names = d.no_names;
    read_back =
        all-append (λ w. any (same_vetted w) (p.readable ++ v ∷ [])) p.writable (v ∷ [])
        ∙ ground (
          arith,
          all-any-push p.readable p.writable v d.read_back,
          any-append (same_vetted v) p.readable (v ∷ []),
          same_vetted_refl v,
        );
  }
  granted_on_axis-Granted read_execute v p d = record {
    closed = d.closed;
    no_sockets = d.no_sockets;
    no_hint = d.no_hint;
    no_names = d.no_names;
    read_back = d.read_back;
  }

  abbrev pub Unowned : SandboxPolicy → Type 0
  Unowned p = (all is_unowned p.readable ≡ true) × (all is_unowned p.writable ≡ true)

  pub granted_on_axis-Unowned :
      (axis : Axis) (v : VettedPath) (p : SandboxPolicy)
      → is_unowned v ≡ true
      → Unowned p
      → Unowned (granted_on_axis s axis v p)
  unfolding granted_on_axis grants grant
  granted_on_axis-Unowned read v p o (r, w) =
      (rw (all-append is_unowned p.readable (v ∷ []), r, o) refl, w)
  granted_on_axis-Unowned write v p o (r, w) = (
    rw (all-append is_unowned p.readable (v ∷ []), r, o) refl,
    rw (all-append is_unowned p.writable (v ∷ []), w, o) refl,
  )
  granted_on_axis-Unowned read_execute v p o (r, w) = (r, w)

  abbrev pub IsBare : SandboxPolicy → Type 0
  IsBare p = Granted p × (p.readable ≡ []) × (p.writable ≡ [])

  allow_env-IsBare : (n : Bytes) (p : SandboxPolicy) → IsBare p → IsBare (allow_env n p)
  unfolding allow_env
  allow_env-IsBare n p (d, r, w) =
      if_elim IsBare (is_env_name n) _ _
        (λ _. (
          record {
            closed = d.closed;
            no_sockets = d.no_sockets;
            no_hint = d.no_hint;
            no_names = d.no_names;
            read_back = d.read_back;
          },
          r,
          w,
        ))
        (λ _. (d, r, w))

  push_vetted-IsBare :
      (o : Option VettedPath) (p : SandboxPolicy) → IsBare p → IsBare (push_vetted s o p)
  unfolding grant
  push_vetted-IsBare none p b = b
  push_vetted-IsBare (some v) p (d, r, w) = (
    record {
      closed = d.closed;
      no_sockets = d.no_sockets;
      no_hint = d.no_hint;
      no_names = d.no_names;
      read_back = d.read_back;
    },
    r,
    w,
  )

  pub base-IsBare : IsBare (base s)
  base-IsBare = fold_policy-keeps IsBare allow_env allow_env-IsBare _ _ (
      fold_policy-keeps IsBare _ (λ f p b. push_vetted-IsBare (s.vet f) p b) _ default_policy
        (
          record {
            closed = refl;
            no_sockets = refl;
            no_hint = refl;
            no_names = refl;
            read_back = refl;
          },
          refl,
          refl,
        ))
