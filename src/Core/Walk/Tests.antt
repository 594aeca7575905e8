-- ===== src/Core/Walk/Tests.antt =====
-- A walk of a granted directory with a file, and a directory in it that holds a link out of it.
use sandbx.Common.{
  ℕ, true, false, [], ◌∷◌, none, some, codes, str_eq, if◌then◌else◌, ◌≡◌, refl, arith, inl, inr,
  List, Bool-cases, ◌==◌, subst, Bytes, ◌≤◌, ◌<◌, suc, Option,
}
use sandbx.Core.Policy.{ObjectId, VettedPath}
use sandbx.Core.FilePath.{
  normal, FilePath, components, path_eq, starts_with, strip_prefix, strip_parts,
}
use sandbx.Core.Host.{enoent, ok, err, Host, confirm, Dirent, file, directory, symlink}
use sandbx.Core.Guard.{FsGuard, granted, Permitted, moved_root, collapsed, contains, contains_from}
use sandbx.Core.Check.{permit, permit_read}
use sandbx.Core.Access.{beneath, remainder, entries_at}
use sandbx.Core.Check.Granted.{Io-cases}
use sandbx.Core.Walk.{
  Pending, walk_readable, walk_beneath, walk_stack, visit, visit_entry, keep, keep_link,
  walked_link, sort, entries_beneath, entries_by_path, opened,
}
use sandbx.Core.Walk.Ends.{pushed}
use sandbx.Core.Walk.Whole.{Finite, Answered, walk_readable-Answered}

abbrev object : ObjectId
object = record { dev = 1; ino = 7 }

abbrev work : VettedPath
work = record { path = codes "/work"; object = object }

abbrev directory_path : FilePath
directory_path = record { absolute = true; parts = normal (codes "work") ∷ [] }

abbrev note : FilePath
note = record { absolute = true; parts = normal (codes "work") ∷ normal (codes "note") ∷ [] }

abbrev entries : ℕ → List Dirent
entries fd =
    if fd == 5
    then record { name = codes "sub"; kind = some directory }
      ∷ record { name = codes "note"; kind = some file }
      ∷ []
    else record { name = codes "link"; kind = some symlink } ∷ []

abbrev host : Host
host = record {
  canonicalize = λ p.
      if path_eq p directory_path
      then ok directory_path
      else ok (record { absolute = true; parts = normal (codes "key") ∷ [] });
  is_symlink = λ p. false;
  is_file = λ p. true;
  current_dir = none;
  open_path = λ s. if str_eq s (codes "/work") then some 3 else none;
  open_strictly = λ s. none;
  object_of = λ fd. if fd == 3 then some object else none;
  is_directory = λ fd. some true;
  openat2 = λ fd p mode. if fd == 5 then ok 6 else ok 5;
  open_nofollow = λ p mode. err enoent;
  read_dir = λ p. err enoent;
  dirents = λ fd. ok (entries fd);
  stat_kind = λ fd s. none;
}

abbrev guard : FsGuard
guard = record {
  readable = record { vetted = work; dir = some 3 } ∷ [];
  writable = [];
  session = none;
}

abbrev permitted : Permitted
permitted = record {
  resolved = directory_path;
  root = some (record { dir = 3; granted_path = directory_path });
}

abbrev weight : Pending → ℕ
weight p = elim (opened host p) [ ok fd ↦ if fd == 5 then 1 else 0 | err e ↦ 0 ]

-- What is pushed weighs no more than the directory.
abbrev IsLight : (p : Pending) → Option ((Bytes → Pending) × List Dirent) → Type 0
IsLight p none = Unit {0}
IsLight p (some (child, ds)) = pushed weight child ds ≤ weight p

entries_beneath-IsLight : (p : Pending) → IsLight p (entries_beneath host p)
unfolding entries_beneath entries_at
entries_beneath-IsLight p = elim (Io-cases (opened host p)) [
  | inl (fd, o) ↦ elim (Bool-cases (fd == 5)) [
    | inl e ↦
        let heavy : weight p ≡ 1 = rw (weight, o, e) refl in
        let light : (q : FilePath)
            → weight (record { parent = fd; name = some (codes "sub"); at = q }) ≡ 0 =
          λ q. rw (weight, e) refl in
        rw (entries_beneath, o, e, heavy, light) (omega arith)
    | inr e ↦ rw (entries_beneath, o, e) (omega arith)
  ]
  | inr (c, o) ↦ rw (entries_beneath, o) tt
]

no_entries_by_path : (p : FilePath) → entries_by_path host p ≡ none
unfolding entries_by_path
no_entries_by_path p = refl

abbrev finite : Finite host
finite = record {
  path_weight = λ p. 0;
  path_finite = λ p child ds e. absurd (ground (arith, e, no_entries_by_path p));
  fd_weight = weight;
  fd_finite = λ p child ds e. subst (IsLight p) e (entries_beneath-IsLight p);
}

walks :
    (walk_readable host host guard 9 1 directory_path).0
    ≡ granted (some (record { files = note ∷ []; truncated = false }))
unfolding walk_readable permit_read path_eq permit moved_root contains contains_from starts_with
    strip_prefix components strip_parts confirm collapsed beneath entries_beneath entries_at
    walked_link sort remainder keep keep_link visit visit_entry walk_beneath walk_stack
walks = refl

permits : (permit_read host guard directory_path).0 ≡ granted permitted
unfolding permit_read permit moved_root collapsed contains contains_from starts_with strip_prefix
    strip_parts components confirm path_eq
permits = refl

fd_light : (top : ℕ) → suc (weight (record { parent = top; name = none; at = directory_path })) < 9
fd_light top = elim (Bool-cases (top == 5)) [
  | inl e ↦ rw (weight, e) (omega arith)
  | inr e ↦ rw (weight, e) (omega arith)
]

walk_readable-Answered_example :
    Answered host guard 1 finite 9 directory_path directory_path
      (walk_readable host host guard 9 1 directory_path).0
walk_readable-Answered_example =
    walk_readable-Answered host guard 1 finite 9 host directory_path permitted permits
      (omega arith, fd_light)
