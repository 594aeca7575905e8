-- ===== src/Core/Check.antt =====
-- crates/sandbx-core/src/fs_guard.rs, the verdicts: a path that resolves is permitted or refused, and
-- one that does not is named only inside a granted area.
pub mod Granted
pub mod Concealed
use sandbx.Common.{
  Bool, true, false, not, ◌&&◌, ◌||◌, List, [], ◌∷◌, Option, none, some, Bytes, codes, any, all,
  if◌then◌else◌,
}
use sandbx.Core.FilePath.{
  Component, parent_dir, FilePath, component_eq, path_eq, parent, file_name, ancestors, join_name,
}
use sandbx.Core.Host.{Errno, Io, ok, err, Host, names_nothing}
use sandbx.Core.Guard.{
  Access, read, write, SandboxError, path_not_allowed, not_found, unresolvable, AuditEvent, Result,
  granted, refused, Verdict, Root, FsGuard, Rooted, Replacement, Containment, inside, out_of,
  Permitted, Area, unresolvable_reason, record_absent, record_denied, deny, contains, moved_root,
}

abbrev pub below : FilePath → List FilePath → List FilePath
below ancestor [] = []
below ancestor (p ∷ ps) = if path_eq p ancestor then [] else p ∷ below ancestor ps

abbrev pub tail_of : List FilePath → List FilePath
tail_of [] = []
tail_of (p ∷ ps) = ps

abbrev pub is_inside : Containment → Bool
is_inside (inside r) = true
is_inside (out_of m) = false

abbrev pub symlink_leaf_reason : Bytes
symlink_leaf_reason = codes "symlink leaf may resolve outside the writable root"

abbrev pub names_no_file_reason : Bytes
names_no_file_reason = codes "path names no file to write"

abbrev resolved_of : Result Permitted → Result FilePath
resolved_of (granted x) = granted x.resolved
resolved_of (refused e) = refused e

module _ (h : Host) where
  unfoldable pub reaches_plainly : FilePath → FilePath → Bool
  reaches_plainly p ancestor =
      not (any (component_eq parent_dir) p.parts)
      && all (λ step. not (h.is_symlink step)) (below ancestor (ancestors p))

  -- The first of the paths that resolves.
  abbrev pub first_resolving : List Root → List FilePath → Area
  first_resolving roots [] = record { ancestor = none; granted_area = out_of none }
  first_resolving roots (p ∷ ps) = elim (h.canonicalize p) [
    | ok existing ↦ record { ancestor = some p; granted_area = contains h existing roots }
    | err e ↦ first_resolving roots ps
  ]

  unfoldable pub nearest_area : FilePath → List Root → Area
  nearest_area p roots = first_resolving roots (tail_of (ancestors p))

  abbrev pub plainly_reached : FilePath → Option FilePath → Bool
  plainly_reached p none = false
  plainly_reached p (some ancestor) = reaches_plainly p ancestor

  unfoldable pub tells : FilePath → List Root → Bool
  tells p roots =
      is_inside (nearest_area p roots).granted_area
      && plainly_reached p (nearest_area p roots).ancestor

  module _ (g : FsGuard) where
    -- `conceal_unless_granted`: the reason, which only a granted area is told.
    unfoldable pub told_reason : {A : Type 0} → FilePath → FilePath → Errno → Access → Verdict A
    told_reason p failed e a =
        if names_nothing e
        then (refused (not_found failed e), record_absent g a p ∷ [])
        else (refused (unresolvable failed e), record_denied g a p unresolvable_reason ∷ [])

    unfoldable pub conceal_unless_granted :
        {A : Type 0} → FilePath → FilePath → Errno → List Root → Access → Verdict A
    conceal_unless_granted p failed e roots a = elim (moved_root h p roots) [
      | some moved ↦ deny g (some moved) p a
      | none ↦ if tells p roots then told_reason p failed e a else deny g none p a
    ]

    unfoldable pub permit : FilePath → List Root → FilePath → Access → Verdict Permitted
    permit resolved roots p a = elim (moved_root h p roots) [
      | some moved ↦ deny g (some moved) p a
      | none ↦ elim (contains h resolved roots) [
        | inside root ↦ (granted (record { resolved = resolved; root = root }), [])
        | out_of moved ↦ deny g none p a
      ]
    ]

    unfoldable pub permit_read : FilePath → Verdict Permitted
    permit_read p = elim (h.canonicalize p) [
      | ok resolved ↦ permit resolved g.readable p read
      | err e ↦ conceal_unless_granted p p e g.readable read
    ]

    abbrev refuse : FilePath → Bytes → Verdict Permitted
    refuse p reason = (refused (path_not_allowed p write), record_denied g write p reason ∷ [])

    -- The parent resolves, and the name is put behind it.
    unfoldable pub permit_named : FilePath → Option FilePath → Option Bytes → Verdict Permitted
    permit_named p (some dir) (some name) = elim (h.canonicalize dir) [
      | ok resolved ↦ permit (join_name resolved name) g.writable p write
      | err e ↦ conceal_unless_granted p dir e g.writable write
    ]
    permit_named p _ _ = refuse p names_no_file_reason

    -- What `permit_write` does with a path that does not resolve.
    unfoldable pub permit_new : FilePath → Verdict Permitted
    permit_new p = elim (moved_root h p g.writable) [
      | some moved ↦ deny g (some moved) p write
      | none ↦
          if h.is_symlink p
          then refuse p symlink_leaf_reason
          else permit_named p (parent p) (file_name p)
    ]

    unfoldable pub permit_write : FilePath → Verdict Permitted
    permit_write p = elim (h.canonicalize p) [
      | ok existing ↦ permit existing g.writable p write
      | err e ↦ permit_new p
    ]

    unfoldable pub check_read : FilePath → Verdict FilePath
    check_read p = (resolved_of (permit_read p).0, (permit_read p).1)

    unfoldable pub check_write : FilePath → Verdict FilePath
    check_write p = (resolved_of (permit_write p).0, (permit_write p).1)
