-- ===== src/Core/Check/Granted.antt =====
-- What a permission means: the path resolves into a root that covers it and holds its object.
use sandbx.Common.{
  Bool, true, false, List, Option, none, some, any, ◌≡◌, ◌≢◌, refl, arith, inl, inr, ◌⊎◌, Bytes,
  Option-cases, Bool-cases,
}
use sandbx.Core.FilePath.{FilePath, parent, file_name, join_name}
use sandbx.Core.Host.{Errno, Io, ok, err, Host}
use sandbx.Core.Guard.{
  SandboxError, Access, read, write, Result, granted, refused, Root, FsGuard, Rooted, Replacement,
  Containment, inside, out_of, Permitted, deny, contains, moved_root,
}
use sandbx.Core.Guard.Covered.{covers, contains-inside, lender, contains-lender}
use sandbx.Core.Check.{
  permit, permit_read, permit_write, permit_new, permit_named, conceal_unless_granted, told_reason,
}

pub Io-cases : {A : Type 0} (o : Io A) → ((a : A) × (o ≡ ok a)) ⊎ ((e : Errno) × (o ≡ err e))
Io-cases (ok a) = inl (a, refl)
Io-cases (err e) = inr (e, refl)

pub Containment-cases :
    (c : Containment)
    → ((b : Option Rooted) × (c ≡ inside b)) ⊎ ((m : Option Replacement) × (c ≡ out_of m))
Containment-cases (inside b) = inl (b, refl)
Containment-cases (out_of m) = inr (m, refl)

abbrev pub is_granted : {A : Type 0} → Result A → Bool
is_granted (granted a) = true
is_granted (refused e) = false

pub Result-cases :
    {A : Type 0} (r : Result A)
    → ((a : A) × (r ≡ granted a)) ⊎ ((e : SandboxError) × (r ≡ refused e))
Result-cases (granted a) = inl (a, refl)
Result-cases (refused e) = inr (e, refl)

-- A permission names what the path resolved to, and no root that the path spells has moved.
pub record Permits (h : Host) (roots : List Root) (p : FilePath) (x : Permitted) : Type 0 where
  pub covered : any (covers h x.resolved x.root) roots ≡ true
  pub rooted : x.root ≡ lender h x.resolved roots
  pub unmoved : moved_root h p roots ≡ none

module _ (h : Host) (g : FsGuard) (p : FilePath) {x : Permitted} where
  permit-Permits :
      (resolved : FilePath) (roots : List Root) (a : Access)
      → (permit h g resolved roots p a).0 ≡ granted x
      → Permits h roots p x × (x.resolved ≡ resolved)
  unfolding permit deny
  permit-Permits resolved roots a e = elim (Option-cases (moved_root h p roots)) [
    | inl n ↦ elim (Containment-cases (contains h resolved roots)) [
      | inl (b, i) ↦
          ground (arith, contains-inside h resolved roots b i, contains-lender h resolved roots b i)
      | inr (m, o) ↦ ground arith
    ]
    | inr (m, n) ↦ ground arith
  ]

  conceal-refused :
      (failed : FilePath) (o : Errno) (roots : List Root) (a : Access)
      → (conceal_unless_granted h g {A = Permitted} p failed o roots a).0 ≢ granted x
  unfolding conceal_unless_granted told_reason deny
  conceal-refused failed o roots a e = elim (Option-cases (moved_root h p roots)) [
    | inl n ↦ ground arith
    | inr (m, n) ↦ ground arith
  ]

  pub permit_read-Permits :
      (permit_read h g p).0 ≡ granted x
      → Permits h g.readable p x × (h.canonicalize p ≡ ok x.resolved)
  unfolding permit_read
  permit_read-Permits e = elim (Io-cases (h.canonicalize p)) [
    | inl (r, c) ↦ ground (arith, permit-Permits r g.readable read)
    | inr (o, c) ↦ ground (arith, conceal-refused p o g.readable read)
  ]

-- A path to write resolves itself, or its directory does and the name is put behind that.
pub data Written (h : Host) (p resolved : FilePath) : Type 0 where
  existing : h.canonicalize p ≡ ok resolved → Written h p resolved
  created :
      (dir d : FilePath) (name : Bytes)
      → h.is_symlink p ≡ false
      → parent p ≡ some dir
      → file_name p ≡ some name
      → h.canonicalize dir ≡ ok d
      → resolved ≡ join_name d name
      → Written h p resolved

module _ (h : Host) (g : FsGuard) (p : FilePath) {x : Permitted} where
  permit_named-Permits :
      (dir : Option FilePath) (name : Option Bytes)
      → h.is_symlink p ≡ false
      → parent p ≡ dir
      → file_name p ≡ name
      → (permit_named h g p dir name).0 ≡ granted x
      → Permits h g.writable p x × Written h p x.resolved
  unfolding permit_named
  permit_named-Permits none none l q n e = cc e
  permit_named-Permits none (some name) l q n e = cc e
  permit_named-Permits (some dir) none l q n e = cc e
  permit_named-Permits (some dir) (some name) l q n e = elim (Io-cases (h.canonicalize dir)) [
    | inl (d, c) ↦
        let permitted : Permits h g.writable p x × (x.resolved ≡ join_name d name) =
          permit-Permits h g p (join_name d name) g.writable write (ground arith) in
        (permitted.0, created dir d name l q n c permitted.1)
    | inr (o, c) ↦ absurd (conceal-refused h g p {x = x} dir o g.writable write (ground arith))
  ]

  permit_new-Permits :
      (permit_new h g p).0 ≡ granted x → Permits h g.writable p x × Written h p x.resolved
  unfolding permit_new deny
  permit_new-Permits e = elim (Option-cases (moved_root h p g.writable)) [
    | inl n ↦ elim (Bool-cases (h.is_symlink p)) [
      | inl l ↦ ground arith
      | inr l ↦ permit_named-Permits (parent p) (file_name p) l refl refl (ground arith)
    ]
    | inr (m, n) ↦ ground arith
  ]

  pub permit_write-Permits :
      (permit_write h g p).0 ≡ granted x → Permits h g.writable p x × Written h p x.resolved
  unfolding permit_write
  permit_write-Permits e = elim (Io-cases (h.canonicalize p)) [
    | inl (r, c) ↦
        let permitted : Permits h g.writable p x × (x.resolved ≡ r) =
          permit-Permits h g p r g.writable write (ground arith) in
        (permitted.0, existing (rw permitted.1 c))
    | inr (o, c) ↦ permit_new-Permits (ground arith)
  ]
