-- ===== src/Core/Check/Concealed.antt =====
-- A refusal outside the granted areas says nothing of the host but whether a root has moved.
use sandbx.Common.{
  any, all, ◌||◌, &&_true, sym, ◌∙◌, Bool, true, false, not, ◌&&◌, List, [], ◌∷◌, Option, none,
  some, ◌≡◌, refl, arith, ap, inl, inr, Bytes, Option-cases, Bool-cases,
}
use sandbx.Core.FilePath.{
  parent_dir, component_eq, path_eq, ancestors, FilePath, parent, file_name, join_name,
}
use sandbx.Core.FilePath.Prefix.{ancestors_self, path_eq-eq}
use sandbx.Core.Guard.Covered.{covers, contains-inside}
use sandbx.Core.Host.{Errno, ok, err, Host}
use sandbx.Core.Guard.{
  path_not_allowed, Access, read, write, refused, Verdict, Root, FsGuard, Rooted, Permitted, deny,
  contains, moved_root,
}
use sandbx.Core.Check.{
  is_inside, below, first_resolving, nearest_area, plainly_reached, reaches_plainly, permit,
  permit_read, permit_write, permit_new, permit_named, conceal_unless_granted, tells,
}
use sandbx.Core.Check.Granted.{Io-cases, Containment-cases}

-- No root that holds the object it was vetted on covers a resolved path.
abbrev pub uncovered : Host → List Root → FilePath → Bool
uncovered h roots resolved = not (any (covers h resolved none) roots)

abbrev pub beyond : Host → List Root → FilePath → Bool
beyond h roots p = elim (h.canonicalize p) [
  | ok resolved ↦ uncovered h roots resolved
  | err e ↦ true
]

abbrev pub unresolved : Host → FilePath → Bool
unresolved h p = elim (h.canonicalize p) [ ok resolved ↦ false | err e ↦ true ]

-- Neither the path nor a directory above it resolves into such a root; or it does not resolve, and
-- it steps up or is a symbolic link.
abbrev pub hidden_path : Host → List Root → FilePath → Bool
hidden_path h roots p =
    all (beyond h roots) (ancestors p)
    || (unresolved h p && (any (component_eq parent_dir) p.parts || h.is_symlink p))

-- The name that a write would create is in no such root.
abbrev pub hidden_named : Host → FsGuard → Option FilePath → Option Bytes → Bool
hidden_named h g (some dir) (some name) = elim (h.canonicalize dir) [
  | ok d ↦ uncovered h g.writable (join_name d name)
  | err e ↦ true
]
hidden_named h g _ _ = true

abbrev pub hidden_read : Host → FsGuard → FilePath → Bool
hidden_read h g p = hidden_path h g.readable p

abbrev pub hidden_write : Host → FsGuard → FilePath → Bool
hidden_write h g p = hidden_path h g.writable p && hidden_named h g (parent p) (file_name p)

abbrev pub hidden : Access → Host → FsGuard → FilePath → Bool
hidden read h g p = hidden_read h g p
hidden write h g p = hidden_write h g p

module _ (h : Host) (roots : List Root) where
  pub any-covers :
      (r : FilePath) (b : Option Rooted) (rs : List Root)
      → any (covers h r b) rs ≡ true
      → any (covers h r none) rs ≡ true
  any-covers r b [] e = cc e
  any-covers r b (s ∷ rs) e = ground (arith, any-covers r b rs)

  uncovered-out :
      (r : FilePath) → uncovered h roots r ≡ true → is_inside (contains h r roots) ≡ false
  uncovered-out r u = elim (Containment-cases (contains h r roots)) [
    | inl (b, i) ↦ ground (arith, any-covers r b roots (contains-inside h r roots b i))
    | inr (m, o) ↦ ground arith
  ]

  first_resolving-out :
      (ps : List FilePath)
      → all (beyond h roots) ps ≡ true
      → is_inside (first_resolving h roots ps).granted_area ≡ false
  first_resolving-out [] e = refl
  first_resolving-out (p ∷ ps) e = elim (Io-cases (h.canonicalize p)) [
    | inl (r, c) ↦ ground (arith, uncovered-out r)
    | inr (o, c) ↦ ground (arith, first_resolving-out ps)
  ]

module _ (h : Host) (roots : List Root) (p : FilePath) where
  below_self :
      (ancestor : FilePath) (ps : List FilePath)
      → path_eq p ancestor ≡ false
      → h.is_symlink p ≡ true
      → all (λ step. not (h.is_symlink step)) (below ancestor (p ∷ ps)) ≡ false
  below_self ancestor ps n l = rw n (rw l refl)

  first_resolving-resolves :
      (ps : List FilePath) (a : FilePath)
      → (first_resolving h roots ps).ancestor ≡ some a
      → (r : FilePath) × (h.canonicalize a ≡ ok r)
  first_resolving-resolves [] a e = cc e
  first_resolving-resolves (q ∷ ps) a e = elim (Io-cases (h.canonicalize q)) [
    | inl (r, c) ↦ (r, ground arith)
    | inr (o, c) ↦ first_resolving-resolves ps a (ground arith)
  ]

  unlike_ancestor :
      (o : Errno) (a : FilePath) (ps : List FilePath)
      → h.canonicalize p ≡ err o
      → (first_resolving h roots ps).ancestor ≡ some a
      → path_eq p a ≡ false
  unlike_ancestor o a ps c e = elim (Bool-cases (path_eq p a)) [
    | inl same ↦
        let (r, found) = first_resolving-resolves ps a e in
        absurd (ground (arith, path_eq-eq p a same, found))
    | inr other ↦ other
  ]

  link_reached :
      (o : Errno) (ps : List FilePath)
      → h.canonicalize p ≡ err o
      → ancestors p ≡ p ∷ ps
      → (any (component_eq parent_dir) p.parts || h.is_symlink p) ≡ true
      → plainly_reached h p (first_resolving h roots ps).ancestor ≡ false
  unfolding reaches_plainly
  link_reached o ps c s e = elim (Option-cases (first_resolving h roots ps).ancestor) [
    | inl n ↦ rw n refl
    | inr (a, n) ↦ elim (Bool-cases (any (component_eq parent_dir) p.parts)) [
      | inl up ↦ rw n (rw up refl)
      | inr flat ↦
          rw n (rw s (rw flat (below_self a ps (unlike_ancestor o a ps c n) (ground arith))))
    ]
  ]

  -- Nothing is told of a hidden path.
  tells-hidden :
      (o : Errno)
      → h.canonicalize p ≡ err o
      → hidden_path h roots p ≡ true
      → tells h p roots ≡ false
  unfolding tells nearest_area
  tells-hidden o c e =
      let (ps, s) = ancestors_self p in
      elim (Bool-cases (all (beyond h roots) (ancestors p))) [
        | inl b ↦
            let rest : all (beyond h roots) ps ≡ true =
              (&&_true _ _ (sym (ap (all (beyond h roots)) s) ∙ b)).1 in
            rw s (rw (first_resolving-out h roots ps rest) refl)
        | inr b ↦ rw s (rw (link_reached o ps c s (ground arith)) (ground arith))
      ]

  resolved-out :
      (r : FilePath)
      → h.canonicalize p ≡ ok r
      → hidden_path h roots p ≡ true
      → is_inside (contains h r roots) ≡ false
  resolved-out r c e =
      let (ps, s) = ancestors_self p in
      let first : beyond h roots p ≡ true =
        (&&_true _ _ (sym (ap (all (beyond h roots)) s) ∙ ground arith)).0 in
      uncovered-out h roots r (ground arith)

module _ (h : Host) (g : FsGuard) (p : FilePath) where
  permit-hidden :
      (resolved : FilePath) (roots : List Root) (a : Access)
      → is_inside (contains h resolved roots) ≡ false
      → permit h g resolved roots p a ≡ deny g (moved_root h p roots) p a
  unfolding permit deny
  permit-hidden resolved roots a e = elim (Option-cases (moved_root h p roots)) [
    | inl n ↦ elim (Containment-cases (contains h resolved roots)) [
      | inl (b, i) ↦ ground arith
      | inr (m, o) ↦ ground arith
    ]
    | inr (m, n) ↦ ground arith
  ]

  conceal-hidden :
      (failed : FilePath) (o : Errno) (roots : List Root) (a : Access)
      → tells h p roots ≡ false
      → conceal_unless_granted h g {A = Permitted} p failed o roots a
        ≡ deny g (moved_root h p roots) p a
  unfolding conceal_unless_granted
  conceal-hidden failed o roots a e = elim (Option-cases (moved_root h p roots)) [
    | inl n ↦ ground arith
    | inr (m, n) ↦ ground arith
  ]

  pub permit_read-hidden :
      hidden_read h g p ≡ true → permit_read h g p ≡ deny g (moved_root h p g.readable) p read
  unfolding permit_read
  permit_read-hidden e = elim (Io-cases (h.canonicalize p)) [
    | inl (r, c) ↦
        ground (arith, permit-hidden r g.readable read (resolved-out h g.readable p r c e))
    | inr (o, c) ↦
        ground (arith, conceal-hidden p o g.readable read (tells-hidden h g.readable p o c e))
  ]

  permit_named-hidden :
      (dir : Option FilePath) (name : Option Bytes)
      → moved_root h p g.writable ≡ none
      → tells h p g.writable ≡ false
      → hidden_named h g dir name ≡ true
      → (permit_named h g p dir name).0 ≡ refused (path_not_allowed p write)
  unfolding permit_named deny
  permit_named-hidden none none n t e = refl
  permit_named-hidden none (some name) n t e = refl
  permit_named-hidden (some dir) none n t e = refl
  permit_named-hidden (some dir) (some name) n t e = elim (Io-cases (h.canonicalize dir)) [
    | inl (d, c) ↦ ground (
      arith,
      permit-hidden (join_name d name) g.writable write
          (uncovered-out h g.writable (join_name d name) (ground arith)),
    )
    | inr (o, c) ↦ ground (arith, conceal-hidden dir o g.writable write)
  ]

  permit_new-hidden :
      tells h p g.writable ≡ false
      → hidden_named h g (parent p) (file_name p) ≡ true
      → (permit_new h g p).0 ≡ (deny {A = Permitted} g (moved_root h p g.writable) p write).0
  unfolding permit_new deny
  permit_new-hidden t e = elim (Option-cases (moved_root h p g.writable)) [
    | inl n ↦ elim (Bool-cases (h.is_symlink p)) [
      | inl l ↦ ground arith
      | inr l ↦ ground (arith, permit_named-hidden (parent p) (file_name p) n t e)
    ]
    | inr (m, n) ↦ ground arith
  ]

  pub permit_write-hidden :
      hidden_write h g p ≡ true
      → (permit_write h g p).0 ≡ (deny {A = Permitted} g (moved_root h p g.writable) p write).0
  unfolding permit_write
  permit_write-hidden e =
      let (out, named) =
        &&_true (hidden_path h g.writable p) (hidden_named h g (parent p) (file_name p)) e in
      elim (Io-cases (h.canonicalize p)) [
        | inl (r, c) ↦ ground (
          arith,
          ap (λ (v : Verdict Permitted). v.0)
              (permit-hidden r g.writable write (resolved-out h g.writable p r c out)),
        )
        | inr (o, c) ↦ ground (arith, permit_new-hidden (tells-hidden h g.writable p o c out) named)
      ]
