-- ===== src/Core/Access/Tests.antt =====
-- The file guard on a host with one granted directory, and a file outside it that may be there.
use sandbx.Common.{
  Bool, true, false, ◌&&◌, [], ◌∷◌, none, some, codes, str_eq, if◌then◌else◌, ◌≡◌, refl, arith, inl,
  inr, Bool-cases, ◌==◌,
}
use sandbx.Core.Policy.{
  ObjectId, VettedPath, read, write, SandboxPolicy, default_policy, grants, granted_from, paths,
  granted_paths, grant,
}
use sandbx.Core.FilePath.{
  normal, FilePath, components, path_eq, starts_with, strip_prefix, strip_parts, ancestors,
}
use sandbx.Core.Host.{enoent, reading, Io, ok, err, Host, confirm}
use sandbx.Core.Guard.{
  Access, FsGuard, granted, refused, path_not_allowed, moved_root, collapsed, contains,
  contains_from, deny,
}
use sandbx.Core.Check.{permit, permit_read}
use sandbx.Core.Access.{beneath, open_permitted, settle, open_read, open_write}
use sandbx.Core.Access.Reached.{Canonicalizes, Reached, Resolved, open_for-Reached}
use sandbx.Core.Check.Concealed.{hidden}
use sandbx.Core.Access.Concealed.{RefusedAlike, open_for-concealed}
use sandbx.Core.Access.Told.{ToldOnce, open-ToldOnce}
use sandbx.Core.Access.Rooting.{present, with_rooting, build, open_root}

abbrev object : ObjectId
object = record { dev = 1; ino = 7 }

abbrev work : VettedPath
work = record { path = codes "/work"; object = object }

abbrev note : FilePath
note = record { absolute = true; parts = normal (codes "work") ∷ normal (codes "note") ∷ [] }

abbrev secret : FilePath
secret = record { absolute = true; parts = normal (codes "etc") ∷ normal (codes "key") ∷ [] }

abbrev resolve : Bool → FilePath → Io FilePath
resolve there p =
    if path_eq p note then ok note else if there && path_eq p secret then ok secret else err enoent

-- The granted directory opens as descriptor 3, a file beneath it as 5.
abbrev host : Bool → Host
host there = record {
  canonicalize = resolve there;
  is_symlink = λ p. false;
  is_file = λ p. path_eq p note;
  current_dir = none;
  open_path = λ s. if str_eq s (codes "/work") then some 3 else none;
  open_strictly = λ s. if str_eq s (codes "/work") then some 3 else none;
  object_of = λ fd. if fd == 3 then some object else none;
  is_directory = λ fd. some (fd == 3);
  openat2 = λ fd p mode. if fd == 3 then ok 5 else err enoent;
  open_nofollow = λ p mode. err enoent;
  read_dir = λ p. err enoent;
  dirents = λ fd. ok [];
  stat_kind = λ fd s. none;
}

abbrev guard : FsGuard
guard = record {
  readable = record { vetted = work; dir = some 3 } ∷ [];
  writable = record { vetted = work; dir = some 3 } ∷ [];
  session = some (codes "s1");
}

reads_note : (open_read (host true) (host true) guard note).0 ≡ granted 5
unfolding open_read permit_read permit moved_root collapsed contains contains_from starts_with
    strip_prefix strip_parts components confirm settle open_permitted beneath path_eq
reads_note = refl

refuses_secret :
    (open_read (host true) (host true) guard secret).0
    ≡ refused (path_not_allowed secret Access.read)
unfolding open_read permit_read permit moved_root collapsed contains contains_from starts_with
    strip_prefix strip_parts components confirm path_eq deny
refuses_secret = refl

policy_guard :
    (with_rooting
      (host true)
      present
      (some (codes "s1"))
      (grant write work (grant read work default_policy))).0
    ≡ guard
unfolding with_rooting build granted_paths granted_from paths grants grant open_root
policy_guard = refl

host-Canonicalizes : Canonicalizes (host true)
host-Canonicalizes p r e = elim (Bool-cases (path_eq p note)) [
  | inl n ↦ ground arith
  | inr n ↦ elim (Bool-cases (path_eq p secret)) [ inl s ↦ ground arith | inr s ↦ ground arith ]
]

open_for-Reached_example :
    Reached
      (host true)
      (host true)
      guard.readable
      (Resolved (host true) (host true) guard note 5 Access.read)
      note
      reading
      5
open_for-Reached_example =
    open_for-Reached (host true) (host true) guard note 5 Access.read host-Canonicalizes reads_note

hidden_there : hidden Access.read (host true) guard secret ≡ true
unfolding ancestors starts_with strip_prefix strip_parts components confirm path_eq
hidden_there = refl

hidden_absent : hidden Access.read (host false) guard secret ≡ true
unfolding ancestors starts_with strip_prefix strip_parts components confirm path_eq
hidden_absent = refl

same_work : confirm (host true) work ≡ confirm (host false) work
unfolding confirm
same_work = refl

open_for-concealed_example :
    RefusedAlike (host true) (host true) (host false) (host false) guard secret Access.read
open_for-concealed_example =
    open_for-concealed (host true) (host true) (host false) (host false) guard secret Access.read
      (same_work, tt) refl hidden_there hidden_absent

open-ToldOnce_example :
    ToldOnce guard Access.read note
      (open_read (host true) (host true) guard note).0
      (open_read (host true) (host true) guard note).1
    × ToldOnce guard Access.write note
        (open_write (host true) (host true) guard note).0
        (open_write (host true) (host true) guard note).1
open-ToldOnce_example = open-ToldOnce (host true) (host true) guard note

abbrev policy : SandboxPolicy
policy = record default_policy { readable = work ∷ []; writable = work ∷ [] }
