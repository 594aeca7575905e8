-- ===== src/Core/Access/Reached.antt =====
-- A file that is opened is the one the check confirmed, whatever happened in between.
use sandbx.Common.{
  ℕ, Bool, true, false, not, ◌&&◌, List, [], ◌∷◌, Option, none, some, any, all, ◌≡◌, refl, sym,
  arith, ap, inl, inr, Option-cases, Bool-cases, ◌∙◌, all-append, retain-all, &&_true, retain,
}
use sandbx.Core.FilePath.{
  Component, normal, cur_dir, component_eq, FilePath, strip_prefix, starts_with, join,
}
use sandbx.Core.FilePath.Prefix.{
  strip_prefix-append, path_eq-eq, is_normal, stays_below, normal-stays, normal-named,
}
use sandbx.Core.Host.{Io, ok, err, Host, OpenMode, reading, writing}
use sandbx.Core.Guard.{Access, granted, Root, FsGuard, Rooted, Permitted, root_path, moved_root}
use sandbx.Core.Guard.Covered.{covers, lender}
use sandbx.Core.Check.{permit_read, permit_write}
use sandbx.Core.Check.Granted.{
  Permits, Written, existing, created, permit_read-Permits, permit_write-Permits, Result-cases,
}
use sandbx.Core.Access.{
  or_here, remainder, beneath, open_permitted, settle, open_read, open_write, open_for, roots_for,
  mode_for,
}

abbrev named : Component → Bool
named c = not (component_eq c cur_dir)

or_here-named :
    (a : Bool) (cs : List Component)
    → a ≡ false
    → all is_normal cs ≡ true
    → let rest : FilePath = record { absolute = a; parts = cs } in
      (retain named (or_here rest).parts ≡ cs) × (stays_below (or_here rest) ≡ true)
or_here-named a [] f n = rw f (refl, refl)
or_here-named a (c ∷ cs) f n =
    rw f (retain-all named (c ∷ cs) (normal-named (c ∷ cs) n), normal-stays (c ∷ cs) n)

-- What is resolved beneath the root of a path with plain names alone makes the path again, and does
-- not climb.
pub join-remainder :
    (b : Rooted) (p : FilePath)
    → all is_normal p.parts ≡ true
    → starts_with p b.granted_path ≡ true
    → (join b.granted_path (remainder b p) ≡ p) × (stays_below (remainder b p) ≡ true)
unfolding remainder starts_with join
join-remainder b p n s = elim (Option-cases (strip_prefix p b.granted_path)) [
  | inl e ↦ ground arith
  | inr (rest, e) ↦
      let (same, parts, relative) = strip_prefix-append p b.granted_path rest e in
      let below : (all is_normal b.granted_path.parts && all is_normal rest.parts) ≡ true =
        sym (all-append is_normal b.granted_path.parts rest.parts) ∙ ap (all is_normal) parts ∙ n in
      let (kept, stays) = or_here-named rest.absolute rest.parts relative (&&_true _ _ below).1 in
      rw e (ground arith, stays)
]

-- A root that covers a path and gives a descriptor is a prefix of the path.
covers-starts :
    (h : Host) (p : FilePath) (b : Rooted) (rs : List Root)
    → any (covers h p (some b)) rs ≡ true
    → starts_with p b.granted_path ≡ true
covers-starts h p b [] e = cc e
covers-starts h p b (r ∷ rs) e = elim (Bool-cases (covers h p (some b) r)) [
  | inl c ↦ elim (Option-cases r.dir) [
    | inl n ↦ ground arith
    | inr (d, n) ↦ ground (arith, path_eq-eq (root_path r) b.granted_path)
  ]
  | inr c ↦ ground (arith, covers-starts h p b rs)
]

-- The host gives a canonical path: absolute, of plain names.
abbrev pub Canonicalizes : Host → Type 0
Canonicalizes h =
    (p r : FilePath)
    → h.canonicalize p ≡ ok r
    → (r.absolute ≡ true) × (all is_normal r.parts ≡ true)

-- How a descriptor came about: beneath the root's, by the rest of the path, which makes the path
-- again and does not climb; or by the path itself, following no link at its end.
abbrev pub Opened : Host → FilePath → OpenMode → ℕ → Option Rooted → Type 0
Opened h resolved mode fd none = h.open_nofollow resolved mode ≡ ok fd
Opened h resolved mode fd (some b) =
    (h.openat2 b.dir (remainder b resolved) mode ≡ ok fd)
    × (join b.granted_path (remainder b resolved) ≡ resolved)
    × (stays_below (remainder b resolved) ≡ true)

-- A root covers the path and held its object at the check, and the file is opened beneath the first
-- such root that has a descriptor, if one has.
pub record Reached (h h' : Host) (roots : List Root) (Resolves : FilePath → Type 0) (p : FilePath)
    (mode : OpenMode) (fd : ℕ) : Type 0 where
  pub x : Permitted
  pub resolves : Resolves x.resolved
  pub covered : any (covers h x.resolved x.root) roots ≡ true
  pub rooted : x.root ≡ lender h x.resolved roots
  pub unmoved : moved_root h p roots ≡ none
  pub opened : Opened h' x.resolved mode fd x.root

module _ (h h' : Host) (g : FsGuard) (p : FilePath) (fd : ℕ) where
  open_permitted-Opened :
      (x : Permitted) (roots : List Root) (mode : OpenMode)
      → all is_normal x.resolved.parts ≡ true
      → any (covers h x.resolved x.root) roots ≡ true
      → open_permitted h' x mode ≡ ok fd
      → Opened h' x.resolved mode fd x.root
  unfolding open_permitted beneath
  open_permitted-Opened x roots mode n c e = opens x.root c e
    where
      opens :
          (root : Option Rooted)
          → any (covers h x.resolved root) roots ≡ true
          → open_permitted h' (record { resolved = x.resolved; root = root }) mode ≡ ok fd
          → Opened h' x.resolved mode fd root
      opens none c e = e
      opens (some b) c e =
          let (joins, stays) =
            join-remainder b x.resolved n (covers-starts h x.resolved b roots c) in
          (e, joins, stays)

  settle-granted : (o : Io ℕ) (a : Access) → (settle g o a p).0 ≡ granted fd → o ≡ ok fd
  unfolding settle
  settle-granted (ok d) a e = cc e
  settle-granted (err o) a e = cc e

  permitted-Reached :
      (x : Permitted) (roots : List Root) (Resolves : FilePath → Type 0) (mode : OpenMode)
      (a : Access)
      → Permits h roots p x
      → Resolves x.resolved
      → all is_normal x.resolved.parts ≡ true
      → (settle g (open_permitted h' x mode) a p).0 ≡ granted fd
      → Reached h h' roots Resolves p mode fd
  permitted-Reached x roots Resolves mode a permits resolves n e = record {
    x = x;
    resolves = resolves;
    covered = permits.covered;
    rooted = permits.rooted;
    unmoved = permits.unmoved;
    opened =
        open_permitted-Opened x roots mode n permits.covered
          (settle-granted (open_permitted h' x mode) a e);
  }

  open_read-Reached :
      Canonicalizes h
      → (open_read h h' g p).0 ≡ granted fd
      → Reached h h' g.readable (λ r. h.canonicalize p ≡ ok r) p reading fd
  unfolding open_read
  open_read-Reached canonical e = elim (Result-cases (permit_read h g p).0) [
    | inl (x, a) ↦
        let (permits, resolves) = permit_read-Permits h g p a in
        permitted-Reached x g.readable (λ r. h.canonicalize p ≡ ok r) reading Access.read permits
          resolves (canonical p x.resolved resolves).1 (ground arith)
    | inr (o, a) ↦ absurd (ground arith)
  ]

  Written-normal :
      (resolved : FilePath)
      → Canonicalizes h
      → Written h p resolved
      → all is_normal resolved.parts ≡ true
  Written-normal resolved canonical (existing c) = (canonical p resolved c).1
  Written-normal resolved canonical (created dir d name l q n c r) =
      rw r (all-append is_normal d.parts (normal name ∷ []) ∙ ground (arith, canonical dir d c))

  open_write-Reached :
      Canonicalizes h
      → (open_write h h' g p).0 ≡ granted fd
      → Reached h h' g.writable (Written h p) p writing fd
  unfolding open_write
  open_write-Reached canonical e = elim (Result-cases (permit_write h g p).0) [
    | inl (x, a) ↦
        let (permits, resolves) = permit_write-Permits h g p a in
        permitted-Reached x g.writable (Written h p) writing Access.write permits resolves
          (Written-normal x.resolved canonical resolves) (ground arith)
    | inr (o, a) ↦ absurd (ground arith)
  ]

  -- What a path resolved to at the check: for writing it may also be a name in a directory.
  abbrev pub Resolved : Access → FilePath → Type 0
  Resolved Access.read resolved = h.canonicalize p ≡ ok resolved
  Resolved Access.write resolved = Written h p resolved

  -- A file that is opened, for reading or for writing, was resolved at the check into a root granted
  -- for that access, which covers it and held the object it was vetted on, and no root that the
  -- request spells had moved. It is opened beneath the descriptor of the first such root that has
  -- one, by the rest of the resolved path, which holds no step up; only where no such root has a
  -- descriptor is it opened by the path itself, without following a link at its end. This takes the
  -- check's host to give canonical paths, and nothing of the host that the open meets.
  pub open_for-Reached :
      (a : Access)
      → Canonicalizes h
      → (open_for a h h' g p).0 ≡ granted fd
      → Reached h h' (roots_for a g) (Resolved a) p (mode_for a) fd
  open_for-Reached Access.read canonical e = open_read-Reached canonical e
  open_for-Reached Access.write canonical e = open_write-Reached canonical e
