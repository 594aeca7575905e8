-- ===== src/Core/Walk.antt =====
-- crates/sandbx-core/src/fs_guard.rs, the walk: every regular file beneath a root, up to a cap. One host
-- answers the walk, and another the check before it.
mod Tests
pub mod Bounded
pub mod Ends
pub mod Whole
use sandbx.Common.{
  ℕ, zero, suc, ◌+◌, Bool, true, false, ◌&&◌, ◌||◌, ◌==◌, leb, ltb, List, [], ◌∷◌, ◌++◌, Option,
  none, some, Bytes, if◌then◌else◌, length,
}
use sandbx.Core.FilePath.{Component, cur_dir, parent_dir, normal, FilePath, join_name, component_eq}
use sandbx.Core.Host.{
  Errno, exdev, Io, ok, err, listing, EntryKind, symlink, directory, file, other_kind, Dirent, Host,
}
use sandbx.Core.Guard.{
  Access, read, outside, AuditEvent, granted, refused, Verdict, FsGuard, Replacement, Containment,
  inside, out_of, Rooted, Permitted, root_replaced_reason, record_allowed, record_denied, contains,
  moved_root,
}
use sandbx.Core.Check.{permit_read}
use sandbx.Core.Access.{◌>>=◌, classify, escaped_reason, entries_at, beneath}

pub record ReadableWalk : Type 0 where
  pub files : List FilePath
  pub truncated : Bool

-- The state of a walk, over directories to be listed of a type `P`.
pub record Walk (P : Type 0) : Type 0 where
  pub files : List FilePath
  pub stack : List P
  pub truncated : Bool
  pub events : List AuditEvent

-- A directory that the walk by descriptor has yet to list.
pub record Pending : Type 0 where
  pub parent : ℕ
  pub name : Option Bytes
  pub at : FilePath

abbrev outside_reason : Option Replacement → Bytes
outside_reason none = outside read
outside_reason (some m) = root_replaced_reason

module _ (h : Host) (g : FsGuard) where
  -- The link's own spelling answers first.
  abbrev pub placement : FilePath → FilePath → Containment
  placement link resolved = elim (moved_root h link g.readable) [
    | some moved ↦ out_of (some moved)
    | none ↦ contains h resolved g.readable
  ]

  unfoldable pub walked_link : FilePath → Option FilePath × List AuditEvent
  walked_link link = elim (h.canonicalize link) [
    | err e ↦ (none, [])
    | ok resolved ↦ elim (placement link resolved) [
      | out_of moved ↦ (none, record_denied g read link (outside_reason moved) ∷ [])
      | inside root ↦ (if h.is_file resolved then some resolved else none, [])
    ]
  ]

  module _ (max_files : ℕ) {P : Type 0} where
    -- The cap is looked at where a file enters the result.
    unfoldable pub keep : FilePath → Walk P → Walk P
    keep f w =
        if length w.files == max_files
        then record w { truncated = true }
        else record w { files = w.files ++ f ∷ [] }

    unfoldable pub keep_link : Option FilePath × List AuditEvent → Walk P → Walk P
    unfolding keep
    keep_link (none, events) w = record w { events = w.events ++ events }
    keep_link (some f, events) w = keep f (record w { events = w.events ++ events })

    unfoldable pub visit_entry : FilePath → P → Option EntryKind → Walk P → Walk P
    unfolding keep keep_link
    visit_entry path child (some symlink) w = keep_link (walked_link path) w
    visit_entry path child (some directory) w = record w { stack = child ∷ w.stack }
    visit_entry path child (some file) w = keep path w
    visit_entry path child _ w = w

    unfoldable pub visit : FilePath → (Bytes → P) → List Dirent → Walk P → Walk P
    unfolding visit_entry
    visit at child [] w = w
    visit at child (d ∷ ds) w =
        visit at child ds
          (if w.truncated then w else visit_entry (join_name at d.name) (child d.name) d.kind w)

    -- The loop over the stack: what a directory holds, and what a child is pushed as.
    module _ (at : P → FilePath) (entries : P → Option ((Bytes → P) × List Dirent)) where
      abbrev pub listed_into : P → Option ((Bytes → P) × List Dirent) → Walk P → Walk P
      listed_into p none w = w
      listed_into p (some (child, ds)) w = visit (at p) child ds w

      unfoldable pub walk_stack : ℕ → Walk P → Option (Walk P)
      unfolding visit
      walk_stack zero w = none
      walk_stack (suc fuel) w = elim w.truncated [
        | true ↦ some w
        | false ↦ elim w.stack [
          | [] ↦ some w
          | p ∷ ps ↦ walk_stack fuel (listed_into p (entries p) (record w { stack = ps }))
        ]
      ]

-- The order of paths: by their components, `.` before `..` before a name.
abbrev pub bytes_leb : Bytes → Bytes → Bool
bytes_leb [] t = true
bytes_leb (c ∷ cs) [] = false
bytes_leb (c ∷ cs) (d ∷ ds) = let rest = bytes_leb cs ds in ltb c d || (c == d && rest)

abbrev pub rank : Component → ℕ
rank cur_dir = 0
rank parent_dir = 1
rank (normal s) = 2

abbrev pub name_of : Component → Bytes
name_of (normal s) = s
name_of _ = []

abbrev pub component_leb : Component → Component → Bool
component_leb c d = ltb (rank c) (rank d) || (rank c == rank d && bytes_leb (name_of c) (name_of d))

abbrev pub parts_leb : List Component → List Component → Bool
parts_leb [] ds = true
parts_leb (c ∷ cs) [] = false
parts_leb (c ∷ cs) (d ∷ ds) =
    let rest = parts_leb cs ds in component_leb c d && (if component_eq c d then rest else true)

abbrev pub insert_path : FilePath → List FilePath → List FilePath
insert_path p [] = p ∷ []
insert_path p (q ∷ qs) =
    let rest = insert_path p qs in if parts_leb p.parts q.parts then p ∷ q ∷ qs else q ∷ rest

-- `files.sort()`, of paths that are absolute.
unfoldable pub sort : List FilePath → List FilePath
sort [] = []
sort (p ∷ ps) = insert_path p (sort ps)

abbrev pub flatten : List (Io Dirent) → List Dirent
flatten [] = []
flatten (ok d ∷ ds) = d ∷ flatten ds
flatten (err e ∷ ds) = flatten ds

abbrev pub single : Bytes → FilePath
single name = record { absolute = false; parts = normal name ∷ [] }

module _ (h : Host) where
  -- By path: a directory that cannot be read is skipped.
  unfoldable pub entries_by_path : FilePath → Option ((Bytes → FilePath) × List Dirent)
  entries_by_path dir = elim (h.read_dir dir) [
    | ok ds ↦ some (λ name. join_name dir name, flatten ds)
    | err e ↦ none
  ]

  -- By descriptor: the walk root is open already, a child is opened beneath its parent.
  abbrev pub opened : Pending → Io ℕ
  opened p = elim p.name [ none ↦ ok p.parent | some n ↦ h.openat2 p.parent (single n) listing ]

  abbrev pub children : Pending → ℕ → Bytes → Pending
  children p fd name = record { parent = fd; name = some name; at = join_name p.at name }

  abbrev pub entries_of : Pending → ℕ → Io (List Dirent) → Option ((Bytes → Pending) × List Dirent)
  entries_of p fd (ok ds) = some (children p fd, ds)
  entries_of p fd (err e) = none

  unfoldable pub entries_beneath : Pending → Option ((Bytes → Pending) × List Dirent)
  entries_beneath p = elim (opened p) [ err e ↦ none | ok fd ↦ entries_of p fd (entries_at h fd) ]

abbrev pub started : {P : Type 0} → P → Walk P
started p = record { files = []; stack = p ∷ []; truncated = false; events = [] }

abbrev pub at_of : Pending → FilePath
at_of p = p.at

-- What a walk returns, with its own records before it.
abbrev pub walked : {P : Type 0} → Walk P → ReadableWalk × List AuditEvent
walked w = (record { files = sort w.files; truncated = w.truncated }, w.events)

module _ (h h' : Host) (g : FsGuard) (fuel max_files : ℕ) where
  unfoldable pub walk_by_path : FilePath → Option (ReadableWalk × List AuditEvent)
  unfolding walk_stack
  walk_by_path root =
      elim (walk_stack h' g max_files (λ p. p) (entries_by_path h') fuel (started root)) [
        | none ↦ none
        | some w ↦ some (walked w)
      ]

  unfoldable pub walk_beneath : ℕ → FilePath → Option (ReadableWalk × List AuditEvent)
  unfolding walk_stack
  walk_beneath top at =
      elim (walk_stack h' g max_files at_of (entries_beneath h') fuel
        (started (record { parent = top; name = none; at = at }))) [
          | none ↦ none
          | some w ↦ some (walked w)
        ]

  abbrev pub finished :
      FilePath → Option (ReadableWalk × List AuditEvent) → Verdict (Option ReadableWalk)
  finished root none = (granted none, [])
  finished root (some (w, events)) = (granted (some w), events ++ record_allowed g read root ∷ [])

  abbrev pub nothing_walked : Option (ReadableWalk × List AuditEvent)
  nothing_walked = some (record { files = []; truncated = false }, [])

  -- Only an escape refuses: of any other failure the walk is empty.
  abbrev pub walk_top : FilePath → FilePath → Io ℕ → Verdict (Option ReadableWalk)
  walk_top root resolved (ok top) = finished root (walk_beneath top resolved)
  walk_top root resolved (err exdev) =
      (refused (classify exdev root), record_denied g read root escaped_reason ∷ [])
  walk_top root resolved (err e) = finished root nothing_walked

  unfoldable pub walk_readable : FilePath → Verdict (Option ReadableWalk)
  unfolding walk_by_path walk_beneath
  walk_readable root = permit_read h g root >>= λ x. elim x.root [
    | some rooted ↦ walk_top root x.resolved (beneath h' rooted x.resolved listing)
    | none ↦ finished root (walk_by_path x.resolved)
  ]
