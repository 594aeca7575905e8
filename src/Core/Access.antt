-- ===== src/Core/Access.antt =====
-- crates/sandbx-core/src/fs_guard.rs, the accesses: a permitted file is opened beneath the root's
-- descriptor, or by its path, and what became of it is recorded. The host of the check and that of
-- the access are two, since anything may happen between them.
pub mod Reached
pub mod Told
pub mod Concealed
pub mod Rooting
mod Tests
use sandbx.Common.{
  ℕ, Bool, true, false, not, ◌&&◌, ◌||◌, List, [], ◌∷◌, ◌++◌, map, Option, none, some, Bytes, codes,
  str_eq, retain, or_else, is_empty, if◌then◌else◌,
}
use sandbx.Core.FilePath.{Component, cur_dir, FilePath, strip_prefix}
use sandbx.Core.Host.{
  Errno, enotdir, eloop, exdev, Io, ok, err, OpenMode, reading, listing, writing, EntryKind,
  directory, Dirent, Host, names_nothing,
}
use sandbx.Core.Guard.{
  Access, read, write, SandboxError, not_found, unresolvable, AuditEvent, Result, granted, refused,
  Verdict, Root, FsGuard, Rooted, Permitted, unresolvable_reason, record_allowed, record_absent,
  record_denied,
}
use sandbx.Core.Check.{permit_read, permit_write}

infixl 5 ◌>>=◌
abbrev pub ◌>>=◌ : {A B : Type 0} → Verdict A → (A → Verdict B) → Verdict B
m >>= f = elim m.0 [ granted a ↦ ((f a).0, m.1 ++ (f a).1) | refused e ↦ (refused e, m.1) ]

abbrev pub incomplete_reason : Bytes
incomplete_reason = codes "access did not complete"

abbrev pub escaped_reason : Bytes
escaped_reason = codes "resolution left the granted root since the check"

unfoldable pub listed_nothing : Errno → Bool
unfolding names_nothing
listed_nothing enotdir = false
listed_nothing e = names_nothing e

unfoldable pub reason : Errno → Bytes
reason exdev = escaped_reason
reason eloop = unresolvable_reason
reason _ = incomplete_reason

unfoldable pub classify : Errno → FilePath → SandboxError
classify e p = if names_nothing e then not_found p e else unresolvable p e

abbrev pub here : FilePath
here = record { absolute = false; parts = cur_dir ∷ [] }

abbrev pub is_nowhere : FilePath → Bool
is_nowhere p = not p.absolute && is_empty p.parts

abbrev pub or_here : FilePath → FilePath
or_here rest = if is_nowhere rest then here else rest

abbrev unwrap_or : FilePath → Option FilePath → FilePath
unwrap_or p none = p
unwrap_or p (some q) = q

-- What of a path is resolved beneath a root: what follows it, or `.`.
unfoldable pub remainder : Rooted → FilePath → FilePath
remainder root resolved = or_here (unwrap_or resolved (strip_prefix resolved root.granted_path))

abbrev pub classified : {A : Type 0} → Io A → FilePath → Result A
classified (ok a) p = granted a
classified (err e) p = refused (classify e p)

unfoldable pub recorded :
    {A : Type 0} → FsGuard → Io A → Access → FilePath → (Errno → Bool) → AuditEvent
recorded g (ok v) a p nothing = record_allowed g a p
recorded g (err e) a p nothing =
    if nothing e then record_absent g a p else record_denied g a p (reason e)

pub record Listed : Type 0 where
  pub name : Bytes
  pub is_dir : Bool

abbrev pub is_directory_kind : Option EntryKind → Bool
is_directory_kind (some directory) = true
is_directory_kind _ = false

abbrev listed : Dirent → Listed
listed d = record { name = d.name; is_dir = is_directory_kind d.kind }

abbrev collect : List (Io Dirent) → Io (List Listed)
collect [] = ok []
collect (err e ∷ ds) = err e
collect (ok d ∷ ds) = elim (collect ds) [ ok ls ↦ ok (listed d ∷ ls) | err e ↦ err e ]

unfoldable pub listing_by_path : Io (List (Io Dirent)) → Io (List Listed)
listing_by_path (ok ds) = collect ds
listing_by_path (err e) = err e

abbrev is_dot : Dirent → Bool
is_dot d = str_eq d.name (codes ".") || str_eq d.name (codes "..")

module _ (h : Host) where
  -- The entries that a descriptor gives, less `.` and `..`, their unknown types looked up.
  unfoldable pub entries_at : ℕ → Io (List Dirent)
  entries_at fd = elim (h.dirents fd) [
    | ok ds ↦ ok (
        map {A = Dirent} (λ d. record d { kind = or_else d.kind (h.stat_kind fd d.name) })
          (retain (λ d. not (is_dot d)) ds))
    | err e ↦ err e
  ]

  unfoldable pub listing_at : Io ℕ → Io (List Listed)
  listing_at (err e) = err e
  listing_at (ok fd) = elim (entries_at fd) [ ok ds ↦ ok (map listed ds) | err e ↦ err e ]

  unfoldable pub beneath : Rooted → FilePath → OpenMode → Io ℕ
  beneath root resolved mode = h.openat2 root.dir (remainder root resolved) mode

  unfoldable pub open_permitted : Permitted → OpenMode → Io ℕ
  open_permitted x mode = elim x.root [
    | some root ↦ beneath root x.resolved mode
    | none ↦ h.open_nofollow x.resolved mode
  ]

  unfoldable pub list_permitted : Permitted → Io (List Listed)
  list_permitted x = elim x.root [
    | some root ↦ listing_at (beneath root x.resolved listing)
    | none ↦ listing_by_path (h.read_dir x.resolved)
  ]

unfoldable pub settle : FsGuard → Io ℕ → Access → FilePath → Verdict ℕ
settle g opened a p = (classified opened p, recorded g opened a p names_nothing ∷ [])

module _ (h h' : Host) (g : FsGuard) where
  unfoldable pub open_read : FilePath → Verdict ℕ
  open_read p = permit_read h g p >>= λ x. settle g (open_permitted h' x reading) read p

  unfoldable pub open_write : FilePath → Verdict ℕ
  open_write p = permit_write h g p >>= λ x. settle g (open_permitted h' x writing) write p

  -- The outer result is the policy's, the inner one the host's.
  unfoldable pub read_dir : FilePath → Verdict (Io (List Listed))
  read_dir p = permit_read h g p >>= λ x.
      let found = list_permitted h' x in
      (granted found, recorded g found read p listed_nothing ∷ [])

-- Opening a file for an access, and the roots and the mode of it.
abbrev pub open_for : Access → Host → Host → FsGuard → FilePath → Verdict ℕ
open_for read h h' g p = open_read h h' g p
open_for write h h' g p = open_write h h' g p

abbrev pub roots_for : Access → FsGuard → List Root
roots_for read g = g.readable
roots_for write g = g.writable

abbrev pub mode_for : Access → OpenMode
mode_for read = reading
mode_for write = writing
