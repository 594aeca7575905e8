-- ===== src/Core/Guard.antt =====
-- crates/sandbx-core/src/fs_guard.rs, the check: whether the roots of a policy cover a path, and what a
-- refusal says and records. A check asks one host; the access behind it may meet another.
pub mod Covered
use sandbx.Common.{
  ℕ, Bool, true, false, not, ◌&&◌, ◌||◌, List, [], ◌∷◌, ◌++◌, Option, none, some, Bytes, codes, any,
  all, retain, or_else, if◌then◌else◌,
}
use sandbx.Core.Policy.{ObjectId, VettedPath}
use sandbx.Core.FilePath.{
  Component, cur_dir, parent_dir, FilePath, components, component_eq, path_eq, starts_with, parent,
  file_name, ancestors, join, join_name, parts_but_last,
}
use sandbx.Core.Host.{
  Errno, Io, Host, Confirmation, confirmed, unmeasurable, replaced, confirm, names_nothing,
}

pub data Access : Type 0 where
  read write : Access

unfoldable pub operation : Access → Bytes
operation read = codes "read"
operation write = codes "write"

unfoldable pub outside : Access → Bytes
outside read = codes "outside every readable root"
outside write = codes "outside every writable root"

-- The variants of `SandboxError` that the guard gives.
pub data SandboxError : Type 0 where
  path_not_allowed : FilePath → Access → SandboxError
  root_replaced : FilePath → ObjectId → ObjectId → SandboxError
  not_found unresolvable : FilePath → Errno → SandboxError

-- The records of an access: its operation, the session, the path as it was requested, the reason.
pub data AuditEvent : Type 0 where
  allowed absent : Bytes → Bytes → FilePath → AuditEvent
  denied : Bytes → Bytes → FilePath → Bytes → AuditEvent
  degraded : Bytes → Bytes → FilePath → AuditEvent

abbrev pub session_absent : Bytes
session_absent = codes "-"

-- A result, and what was recorded on the way to it.
pub data Result (A : Type 0) : Type 0 where
  granted : A → Result A
  refused : SandboxError → Result A

abbrev pub Verdict : Type 0 → Type 0
Verdict A = Result A × List AuditEvent

pub record Root : Type 0 where
  pub vetted : VettedPath
  pub dir : Option ℕ

pub record FsGuard : Type 0 where
  pub readable : List Root
  pub writable : List Root
  pub session : Option Bytes

pub record Rooted : Type 0 where
  pub dir : ℕ
  pub granted_path : FilePath

pub record Replacement : Type 0 where
  pub granted_path : FilePath
  pub vetted : ObjectId
  pub opened : ObjectId

pub data Containment : Type 0 where
  inside : Option Rooted → Containment
  out_of : Option Replacement → Containment

pub record Permitted : Type 0 where
  pub resolved : FilePath
  pub root : Option Rooted

pub record Area : Type 0 where
  pub ancestor : Option FilePath
  pub granted_area : Containment

abbrev pub unresolvable_reason : Bytes
unresolvable_reason = codes "path does not resolve"

abbrev pub root_replaced_reason : Bytes
root_replaced_reason = codes "granted root is not the object it was vetted on"

abbrev pub root_path : Root → FilePath
root_path r = components r.vetted.path

abbrev pub covering : FilePath → List Root → List Root
covering p = retain (λ r. starts_with p (root_path r))

abbrev pub session_field : Option Bytes → Bytes
session_field none = session_absent
session_field (some s) = s

unfoldable pub record_allowed : FsGuard → Access → FilePath → AuditEvent
record_allowed g a p = allowed (operation a) (session_field g.session) p

unfoldable pub record_absent : FsGuard → Access → FilePath → AuditEvent
record_absent g a p = absent (operation a) (session_field g.session) p

unfoldable pub record_denied : FsGuard → Access → FilePath → Bytes → AuditEvent
record_denied g a p reason = denied (operation a) (session_field g.session) p reason

unfoldable pub deny : {A : Type 0} → FsGuard → Option Replacement → FilePath → Access → Verdict A
deny g none p a = (refused (path_not_allowed p a), record_denied g a p (outside a) ∷ [])
deny g (some m) p a = (
  refused (root_replaced m.granted_path m.vetted m.opened),
  record_denied g a p root_replaced_reason ∷ [],
)

abbrev collapse : List Component → List Component → List Component
collapse form [] = form
collapse form (parent_dir ∷ cs) = collapse (parts_but_last form) cs
collapse form (cur_dir ∷ cs) = collapse form cs
collapse form (c ∷ cs) = collapse (form ++ c ∷ []) cs

abbrev made_absolute : Option FilePath → FilePath → Option FilePath
made_absolute none p = none
made_absolute (some cwd) p = some (join cwd p)

abbrev collapsed_form : Option FilePath → Option FilePath
collapsed_form none = none
collapsed_form (some p) = some (record p { parts = collapse [] p.parts })

abbrev pub unlike : FilePath → Option FilePath → Option FilePath
unlike p none = none
unlike p (some form) = if path_eq form p then none else some form

abbrev pub moved_of : Containment → Option Replacement
moved_of (inside r) = none
moved_of (out_of m) = m

module _ (h : Host) where
  unfoldable pub collapsed : FilePath → Option FilePath
  collapsed p = collapsed_form (if p.absolute then some p else made_absolute h.current_dir p)

  -- The loop of `contains`, over the roots whose path covers the one that is asked about.
  unfoldable pub contains_from : Option Replacement → Bool → List Root → Containment
  contains_from moved seen [] = if seen then inside none else out_of moved
  contains_from moved seen (r ∷ rs) = elim (confirm h r.vetted) [
    | confirmed ↦ elim r.dir [
      | some d ↦ inside (some (record { dir = d; granted_path = root_path r }))
      | none ↦ contains_from moved true rs
    ]
    | replaced opened ↦
        contains_from
          (or_else moved (
            some
              (record { granted_path = root_path r; vetted = r.vetted.object; opened = opened })))
          seen rs
    | unmeasurable ↦ contains_from moved seen rs
  ]

  unfoldable pub contains : FilePath → List Root → Containment
  contains p roots = contains_from none false (covering p roots)

  abbrev pub moved_form : Option FilePath → List Root → Option Replacement
  moved_form none roots = none
  moved_form (some form) roots = moved_of (contains form roots)

  unfoldable pub moved_root : FilePath → List Root → Option Replacement
  moved_root p roots =
      or_else (moved_of (contains p roots)) (moved_form (unlike p (collapsed p)) roots)
