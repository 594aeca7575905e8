-- ===== src/Core/Host.antt =====
-- What the file guard asks the operating system, at one moment. What the answers are is up to the
-- host, which changes between two moments; an error is an errno.
use sandbx.Common.{Bool, true, false, ◌&&◌, ℕ, ◌==◌, List, Option, none, some, Bytes, if◌then◌else◌}
use sandbx.Core.Policy.{ObjectId, VettedPath}
use sandbx.Core.FilePath.{FilePath}

pub data Errno : Type 0 where
  enoent enotdir enametoolong eloop exdev enosys einval e2big eopnotsupp : Errno
  other_errno : ℕ → Errno

pub data Io (A : Type 0) : Type 0 where
  ok : A → Io A
  err : Errno → Io A

-- What an access opens a file for: `O_RDONLY`, with `O_DIRECTORY`, or `O_WRONLY | O_CREAT | O_TRUNC`.
pub data OpenMode : Type 0 where
  reading listing writing : OpenMode

pub data EntryKind : Type 0 where
  symlink directory file other_kind : EntryKind

pub record Dirent : Type 0 where
  pub name : Bytes
  pub kind : Option EntryKind

-- A descriptor is a number.
pub record Host : Type 0 where
  pub canonicalize : FilePath → Io FilePath
  pub is_symlink : FilePath → Bool
  pub is_file : FilePath → Bool
  pub current_dir : Option FilePath
  -- `open` with `O_PATH`, and with `O_PATH | O_DIRECTORY | O_NOFOLLOW`.
  pub open_path : Bytes → Option ℕ
  pub open_strictly : Bytes → Option ℕ
  pub object_of : ℕ → Option ObjectId
  pub is_directory : ℕ → Option Bool
  -- `openat2` beneath a descriptor, and `open` with `O_NOFOLLOW`.
  pub openat2 : ℕ → FilePath → OpenMode → Io ℕ
  pub open_nofollow : FilePath → OpenMode → Io ℕ
  -- `fs::read_dir` with each entry's type, and the entries that a descriptor gives.
  pub read_dir : FilePath → Io (List (Io Dirent))
  pub dirents : ℕ → Io (List Dirent)
  pub stat_kind : ℕ → Bytes → Option EntryKind

pub data Confirmation : Type 0 where
  confirmed unmeasurable : Confirmation
  replaced : ObjectId → Confirmation

abbrev pub object_eq : ObjectId → ObjectId → Bool
object_eq a b = a.dev == b.dev && a.ino == b.ino

-- `VettedPath::confirm`: its match on the object that was opened.
abbrev compared : ObjectId → Option ObjectId → Confirmation
compared vetted none = unmeasurable
compared vetted (some opened) = if object_eq opened vetted then confirmed else replaced opened

unfoldable pub confirm : Host → VettedPath → Confirmation
confirm h v = elim (h.open_path v.path) [
  | none ↦ unmeasurable
  | some opened ↦ compared v.object (h.object_of opened)
]

-- A name that denotes no file.
unfoldable pub names_nothing : Errno → Bool
names_nothing enoent = true
names_nothing enotdir = true
names_nothing enametoolong = true
names_nothing _ = false
