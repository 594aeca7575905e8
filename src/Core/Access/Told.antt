-- ===== src/Core/Access/Told.antt =====
-- Each access leaves one record, which agrees with what the caller is told.
use sandbx.Common.{
  ℕ, List, [], ◌∷◌, Option, none, some, ◌≡◌, refl, inl, inr, Option-cases, Bool-cases, Bytes,
  if_elim,
}
use sandbx.Core.FilePath.{FilePath, parent, file_name, join_name}
use sandbx.Core.Host.{Errno, Io, ok, err, Host, reading, writing, names_nothing}
use sandbx.Core.Guard.{
  Access, read, write, not_found, AuditEvent, allowed, absent, denied, record_allowed,
  record_absent, record_denied, operation, session_field, Result, granted, refused, Verdict, Root,
  FsGuard, Permitted, Replacement, deny, moved_root, contains,
}
use sandbx.Core.Check.{
  permit, permit_read, permit_write, permit_new, permit_named, conceal_unless_granted, told_reason,
  tells,
}
use sandbx.Core.Check.Granted.{Io-cases, Containment-cases}
use sandbx.Core.Access.{◌>>=◌, classify, recorded, settle, open_permitted, open_read, open_write}

-- What a record says became of an access, and what a result does.
pub data Fate : Type 0 where
  happened nothing_there forbidden : Fate

abbrev pub fate_of : {A : Type 0} → Result A → Fate
fate_of (granted a) = happened
fate_of (refused (not_found p e)) = nothing_there
fate_of (refused e) = forbidden

-- The record of an access by a guard to a path.
abbrev pub Tells : FsGuard → Access → FilePath → Fate → AuditEvent → Type 0
Tells g a p happened e = e ≡ allowed (operation a) (session_field g.session) p
Tells g a p nothing_there e = e ≡ absent (operation a) (session_field g.session) p
Tells g a p forbidden e =
    (reason : Bytes) × (e ≡ denied (operation a) (session_field g.session) p reason)

abbrev pub ToldOnce :
    {A : Type 0} → FsGuard → Access → FilePath → Result A → List AuditEvent → Type 0
ToldOnce g a p r es = (e : AuditEvent) × (es ≡ e ∷ []) × Tells g a p (fate_of r) e

-- A permission is not yet told of; a refusal is.
abbrev Pending : FsGuard → Access → FilePath → Result Permitted → List AuditEvent → Type 0
Pending g a p (granted x) es = es ≡ []
Pending g a p (refused e) es = ToldOnce {A = Permitted} g a p (refused e) es

abbrev PendingVerdict : FsGuard → Access → FilePath → Verdict Permitted → Type 0
PendingVerdict g a p v = Pending g a p v.0 v.1

module _ (g : FsGuard) (p : FilePath) where
  deny-Pending : (m : Option Replacement) (a : Access) → PendingVerdict g a p (deny g m p a)
  unfolding deny record_denied
  deny-Pending none a = (_, refl, (_, refl))
  deny-Pending (some m) a = (_, refl, (_, refl))

  settle-ToldOnce : (o : Io ℕ) (a : Access) → ToldOnce g a p (settle g o a p).0 (settle g o a p).1
  unfolding settle recorded classify record_allowed record_absent record_denied
  settle-ToldOnce (ok fd) a = (_, refl, refl)
  settle-ToldOnce (err o) a = elim (Bool-cases (names_nothing o)) [
    | inl n ↦ rw n (_, refl, refl)
    | inr n ↦ rw n (_, refl, (_, refl))
  ]

  module _ (h : Host) where
    told_reason-Pending :
        (failed : FilePath) (o : Errno) (a : Access)
        → PendingVerdict g a p (told_reason h g p failed o a)
    unfolding told_reason record_absent record_denied
    told_reason-Pending failed o a = elim (Bool-cases (names_nothing o)) [
      | inl n ↦ rw n (_, refl, refl)
      | inr n ↦ rw n (_, refl, (_, refl))
    ]

    conceal-Pending :
        (failed : FilePath) (o : Errno) (roots : List Root) (a : Access)
        → PendingVerdict g a p (conceal_unless_granted h g p failed o roots a)
    unfolding conceal_unless_granted
    conceal-Pending failed o roots a = elim (Option-cases (moved_root h p roots)) [
      | inl n ↦
          rw (n, conceal_unless_granted)
            (if_elim (PendingVerdict g a p) (tells h p roots) _ _
              (λ _. told_reason-Pending failed o a) (λ _. deny-Pending none a))
      | inr (m, n) ↦ rw (n, conceal_unless_granted) (deny-Pending (some m) a)
    ]

    permit-Pending :
        (resolved : FilePath) (roots : List Root) (a : Access)
        → PendingVerdict g a p (permit h g resolved roots p a)
    unfolding permit
    permit-Pending resolved roots a = elim (Option-cases (moved_root h p roots)) [
      | inl n ↦ elim (Containment-cases (contains h resolved roots)) [
        | inl (b, i) ↦ rw (n, permit) (rw i refl)
        | inr (m, i) ↦ rw (n, permit) (rw i (deny-Pending none a))
      ]
      | inr (m, n) ↦ rw (n, permit) (deny-Pending (some m) a)
    ]

    permit_read-Pending : PendingVerdict g read p (permit_read h g p)
    unfolding permit_read
    permit_read-Pending = elim (Io-cases (h.canonicalize p)) [
      | inl (r, c) ↦ rw (c, permit_read) (permit-Pending r g.readable read)
      | inr (o, c) ↦ rw (c, permit_read) (conceal-Pending p o g.readable read)
    ]

    permit_named-Pending :
        (dir : Option FilePath) (name : Option Bytes)
        → PendingVerdict g write p (permit_named h g p dir name)
    unfolding permit_named record_denied
    permit_named-Pending none none = (_, refl, (_, refl))
    permit_named-Pending none (some name) = (_, refl, (_, refl))
    permit_named-Pending (some dir) none = (_, refl, (_, refl))
    permit_named-Pending (some dir) (some name) = elim (Io-cases (h.canonicalize dir)) [
      | inl (d, c) ↦ rw (c, permit_named) (permit-Pending (join_name d name) g.writable write)
      | inr (o, c) ↦ rw (c, permit_named) (conceal-Pending dir o g.writable write)
    ]

    permit_new-Pending : PendingVerdict g write p (permit_new h g p)
    unfolding permit_new record_denied
    permit_new-Pending = elim (Option-cases (moved_root h p g.writable)) [
      | inl n ↦
          rw (n, permit_new)
            (if_elim (PendingVerdict g write p) (h.is_symlink p) _ _ (λ _. (_, refl, (_, refl)))
              (λ _. permit_named-Pending (parent p) (file_name p)))
      | inr (m, n) ↦ rw (n, permit_new) (deny-Pending (some m) write)
    ]

    permit_write-Pending : PendingVerdict g write p (permit_write h g p)
    unfolding permit_write
    permit_write-Pending = elim (Io-cases (h.canonicalize p)) [
      | inl (r, c) ↦ rw (c, permit_write) (permit-Pending r g.writable write)
      | inr (o, c) ↦ rw (c, permit_write) permit_new-Pending
    ]

  then_settle-ToldOnce :
      (r : Result Permitted) (es : List AuditEvent) (o : Permitted → Io ℕ) (a : Access)
      → Pending g a p r es
      → let v = (r, es) >>= (λ x. settle g (o x) a p) in ToldOnce g a p v.0 v.1
  then_settle-ToldOnce (granted x) es o a q = rw q (settle-ToldOnce (o x) a)
  then_settle-ToldOnce (refused e) es o a q = q

-- Opening a file, for reading or for writing, leaves exactly one record, of that access by that
-- session to the path as it was requested: an allowed one if there is a file to return, an absent
-- one if the caller is told that the name denotes nothing, and a denied one at every other error.
pub open-ToldOnce :
    (h h' : Host) (g : FsGuard) (p : FilePath)
    → ToldOnce g read p (open_read h h' g p).0 (open_read h h' g p).1
      × ToldOnce g write p (open_write h h' g p).0 (open_write h h' g p).1
unfolding open_read open_write
open-ToldOnce h h' g p = (
  then_settle-ToldOnce g p (permit_read h g p).0 (permit_read h g p).1
      (λ x. open_permitted h' x reading) read (permit_read-Pending g p h),
  then_settle-ToldOnce g p (permit_write h g p).0 (permit_write h g p).1
      (λ x. open_permitted h' x writing) write (permit_write-Pending g p h),
)
