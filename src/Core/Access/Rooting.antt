-- ===== src/Core/Access/Rooting.antt =====
-- crates/sandbx-core/src/fs_guard.rs, the construction of a guard: a descriptor for each granted
-- directory that still is the one it was vetted on.
pub mod Pinned
use sandbx.Common.{
  ℕ, Bool, true, false, ◌&&◌, List, [], ◌∷◌, ◌++◌, Option, none, some, Bytes, codes, any,
  if◌then◌else◌,
}
use sandbx.Core.Policy.{
  ObjectId, VettedPath, Axis, Grants, grants, GrantedPath, SandboxPolicy, granted_paths,
}
use sandbx.Core.FilePath.{FilePath, components, path_eq}
use sandbx.Core.Host.{Errno, enosys, einval, e2big, eopnotsupp, Io, ok, err, Host, object_eq}
use sandbx.Core.Guard.{AuditEvent, degraded, session_absent, session_field, Root, FsGuard}

pub data Rooting : Type 0 where
  beneath_dir : ℕ → Rooting
  by_path unpinned : Rooting

-- The kernel has `openat2` unless it said otherwise.
pub data Openat2 : Type 0 where
  present missing : Openat2

unfoldable pub openat2_support_from : Io ℕ → Openat2
openat2_support_from (err enosys) = missing
openat2_support_from (err einval) = missing
openat2_support_from (err e2big) = missing
openat2_support_from (err eopnotsupp) = missing
openat2_support_from _ = present

module _ (h : Host) where
  -- The object is the vetted one: a directory is opened again, following no link.
  abbrev pinned : VettedPath → Option Bool → Rooting
  pinned v (some true) = elim (h.open_strictly v.path) [
    | some dir ↦ beneath_dir dir
    | none ↦ unpinned
  ]
  pinned v _ = by_path

  abbrev measured : VettedPath → ℕ → Option ObjectId → Rooting
  measured v fd none = by_path
  measured v fd (some object) =
      if object_eq object v.object then pinned v (h.is_directory fd) else unpinned

  unfoldable pub open_root : VettedPath → Rooting
  open_root v = elim (h.open_path v.path) [
    | none ↦ by_path
    | some fd ↦ measured v fd (h.object_of fd)
  ]

  abbrev pub rooting : Openat2 → VettedPath → Rooting
  rooting missing v = by_path
  rooting present v = open_root v

abbrev pub dir_of : Rooting → Option ℕ
dir_of (beneath_dir d) = some d
dir_of _ = none

-- The state of the loop: the guard so far, the paths told of, and the records.
pub record Building : Type 0 where
  pub readable : List Root
  pub writable : List Root
  pub told : List FilePath
  pub events : List AuditEvent

abbrev pub tell : Option Bytes → VettedPath → Rooting → Building → Building
tell session v unpinned b = if any (path_eq (components v.path)) b.told then b else record b {
  told = b.told ++ components v.path ∷ [];
  events =
      b.events ++ degraded (codes "rooted_access") (session_field session) (components v.path) ∷ [];
}
tell session v _ b = b

abbrev pub push_if : Bool → Root → List Root → List Root
push_if true r rs = rs ++ r ∷ []
push_if false r rs = rs

abbrev pub add : Grants → Root → Building → Building
add axis r b = record b {
  readable = push_if axis.reads r b.readable;
  writable = push_if axis.writes r b.writable;
}

module _ (h : Host) (kernel : Openat2) (session : Option Bytes) where
  unfoldable pub build : List GrantedPath → Building → Building
  unfolding grants
  build [] b = b
  build (p ∷ ps) b =
      let r = rooting h kernel p.vetted in
      build ps (
        add (grants p.axis) (record { vetted = p.vetted; dir = dir_of r })
          (tell session p.vetted r b))

  unfoldable pub with_rooting : SandboxPolicy → FsGuard × List AuditEvent
  unfolding build granted_paths
  with_rooting policy =
      let b =
        build (granted_paths policy)
          (record { readable = []; writable = []; told = []; events = [] }) in
      (record { readable = b.readable; writable = b.writable; session = session }, b.events)
