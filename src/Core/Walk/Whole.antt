-- ===== src/Core/Walk/Whole.antt =====
-- The walk as a whole: it is permitted, it ends, and what it returns is bounded.
use sandbx.Common.{
  ℕ, suc, ◌≤◌, ◌<◌, Bool, true, false, ◌&&◌, List, [], ◌∷◌, Option, none, some, Bytes, length, all,
  ◌≡◌, refl, ap, ◌∙◌, arith, subst, Option-cases, Bool-cases, inl, inr, ◌⊎◌,
}
use sandbx.Core.FilePath.{FilePath, join_name}
use sandbx.Core.FilePath.Prefix.{starts_with_refl}
use sandbx.Core.Host.{exdev, Io, ok, err, listing, Dirent, Host}
use sandbx.Core.Guard.{AuditEvent, Result, granted, refused, FsGuard, Permitted}
use sandbx.Core.Check.{permit_read}
use sandbx.Core.Check.Granted.{Io-cases}
use sandbx.Core.Access.{classify, entries_at, beneath}
use sandbx.Core.Walk.{
  ReadableWalk, Walk, Pending, started, at_of, walked, entries_by_path, entries_beneath, entries_of,
  opened, sort, insert_path, walk_by_path, walk_beneath, walk_readable, walk_top, finished,
}
use sandbx.Core.Walk.Bounded.{in_reach, IsBounded}
use sandbx.Core.Walk.Ends.{pushed, walk_stack-IsBounded}

insert_path-length :
    (p : FilePath) (qs : List FilePath) → length (insert_path p qs) ≡ suc (length qs)
insert_path-length p [] = refl
insert_path-length p (q ∷ qs) = ground (arith, insert_path-length p qs)

sort-length : (ps : List FilePath) → length (sort ps) ≡ length ps
unfolding sort
sort-length [] = refl
sort-length (p ∷ ps) = insert_path-length p (sort ps) ∙ ap suc (sort-length ps)

insert_path-all :
    (f : FilePath → Bool) (p : FilePath) (qs : List FilePath)
    → all f (insert_path p qs) ≡ (f p && all f qs)
insert_path-all f p [] = refl
insert_path-all f p (q ∷ qs) = ground (arith, insert_path-all f p qs)

sort-all : (f : FilePath → Bool) (ps : List FilePath) → all f (sort ps) ≡ all f ps
unfolding sort
sort-all f [] = refl
sort-all f (p ∷ ps) = insert_path-all f p (sort ps) ∙ ap (λ b. f p && b) (sort-all f ps)

-- The trees that a host shows are finite: what a directory's entries push weighs no more than it.
pub record Finite (h : Host) : Type 0 where
  pub path_weight : FilePath → ℕ
  pub path_finite :
      (p : FilePath) (child : Bytes → FilePath) (ds : List Dirent)
      → entries_by_path h p ≡ some (child, ds)
      → pushed path_weight child ds ≤ path_weight p
  pub fd_weight : Pending → ℕ
  pub fd_finite :
      (p : Pending) (child : Bytes → Pending) (ds : List Dirent)
      → entries_beneath h p ≡ some (child, ds)
      → pushed fd_weight child ds ≤ fd_weight p

-- At most the cap of files, each beneath the root or in a grant; a walk that was cut has all of the cap.
pub record Walked (h : Host) (g : FsGuard) (max_files : ℕ) (root : FilePath) (w : ReadableWalk)
    : Type 0 where
  pub capped : length w.files ≤ max_files
  pub full : (w.truncated ≡ false) ⊎ (length w.files ≡ max_files)
  pub reached : all (in_reach h g max_files root) w.files ≡ true

-- A child is the name put behind its directory.
abbrev NamesBehind : {P : Type 0} → (P → FilePath) → P → Option ((Bytes → P) × List Dirent) → Type 0
NamesBehind at p none = Unit {0}
NamesBehind at p (some (child, ds)) = (name : Bytes) → at (child name) ≡ join_name (at p) name

entries_by_path-NamesBehind :
    (h : Host) (p : FilePath) → NamesBehind (λ q. q) p (entries_by_path h p)
unfolding entries_by_path
entries_by_path-NamesBehind h p = elim (Io-cases (h.read_dir p)) [
  | inl (ds, e) ↦ rw (NamesBehind, entries_by_path, e) (λ name. refl)
  | inr (o, e) ↦ rw (NamesBehind, entries_by_path, e) tt
]

entries_of-NamesBehind :
    (h : Host) (p : Pending) (fd : ℕ) (o : Io (List Dirent))
    → NamesBehind at_of p (entries_of h p fd o)
entries_of-NamesBehind h p fd (ok ds) = λ name. refl
entries_of-NamesBehind h p fd (err e) = tt

entries_beneath-NamesBehind : (h : Host) (p : Pending) → NamesBehind at_of p (entries_beneath h p)
unfolding entries_beneath
entries_beneath-NamesBehind h p = elim (Io-cases (opened h p)) [
  | inl (fd, e) ↦ rw (entries_beneath, e) (entries_of-NamesBehind h p fd (entries_at h fd))
  | inr (o, e) ↦ rw (entries_beneath, e) tt
]

module _ (h : Host) (g : FsGuard) (max_files : ℕ) (root : FilePath) where
  walked-Walked :
      {P : Type 0} (at : P → FilePath) (w : Walk P)
      → IsBounded h g max_files root at w
      → Walked h g max_files root (walked w).0
  walked-Walked at w b = record {
    capped = rw (sort-length w.files) b.capped;
    full = elim (Bool-cases w.truncated) [
      | inl t ↦ inr (sort-length w.files ∙ b.full t)
      | inr t ↦ inl t
    ];
    reached = sort-all (in_reach h g max_files root) w.files ∙ b.reached;
  }

  start-IsBounded :
      {P : Type 0} (at : P → FilePath) (p : P)
      → at p ≡ root
      → IsBounded h g max_files root at (started p)
  start-IsBounded at p e = record {
    capped = omega arith;
    full = λ t. absurd (ground (arith, t));
    reached = refl;
    stacked = rw e (rw (starts_with_refl root) refl);
  }

module _ (h' : Host) (g : FsGuard) (max_files : ℕ) (f : Finite h') (fuel : ℕ) where
  walk_by_path-Walked :
      (h : Host) (root : FilePath)
      → suc (f.path_weight root) < fuel
      → (w : ReadableWalk × List AuditEvent) × (walk_by_path h h' g fuel max_files root ≡ some w)
        × Walked h' g max_files root w.0
  unfolding walk_by_path
  walk_by_path-Walked h root l =
      let (end, walks, bounded) =
        walk_stack-IsBounded h' g max_files root (λ p. p) f.path_weight (entries_by_path h')
          f.path_finite
          (λ p child ds e. subst (NamesBehind (λ q. q) p) e (entries_by_path-NamesBehind h' p)) fuel
          (started root) (start-IsBounded h' g max_files root (λ p. p) root refl)
          (omega (arith, l)) in
      (
        walked end,
        rw (walk_by_path, walks) refl,
        walked-Walked h' g max_files root (λ p. p) end bounded,
      )

  walk_beneath-Walked :
      (h : Host) (top : ℕ) (root : FilePath)
      → suc (f.fd_weight (record { parent = top; name = none; at = root })) < fuel
      → (w : ReadableWalk × List AuditEvent) × (walk_beneath h h' g fuel max_files top root
          ≡ some w)
        × Walked h' g max_files root w.0
  unfolding walk_beneath
  walk_beneath-Walked h top root l =
      let start : Pending = record { parent = top; name = none; at = root } in
      let (end, walks, bounded) =
        walk_stack-IsBounded h' g max_files root at_of f.fd_weight (entries_beneath h') f.fd_finite
          (λ p child ds e. subst (NamesBehind at_of p) e (entries_beneath-NamesBehind h' p)) fuel
          (started start) (start-IsBounded h' g max_files root at_of start refl)
          (omega (arith, l)) in
      (
        walked end,
        rw (walk_beneath, walks) refl,
        walked-Walked h' g max_files root at_of end bounded,
      )

  -- What a walk answers: the files, or the refusal of an escape.
  abbrev pub Answered : FilePath → FilePath → Result (Option ReadableWalk) → Type 0
  Answered root resolved r =
      ((w : ReadableWalk) × (r ≡ granted (some w)) × Walked h' g max_files resolved w)
      ⊎ (r ≡ refused (classify exdev root))

  -- Fuel above what is beneath a directory, by its path and by each descriptor that it may have.
  abbrev pub Fuelled : FilePath → Type 0
  Fuelled p =
      (suc (f.path_weight p) < fuel)
      × ((top : ℕ) → suc (f.fd_weight (record { parent = top; name = none; at = p })) < fuel)

  nothing-Walked :
      (resolved : FilePath)
      → Walked h' g max_files resolved (record { files = []; truncated = false })
  nothing-Walked resolved = record { capped = omega arith; full = inl refl; reached = refl }

  module _ (h : Host) (root resolved : FilePath) where
    finished-Answered :
        (o : Option (ReadableWalk × List AuditEvent))
        → ((w : ReadableWalk × List AuditEvent) × (o ≡ some w) × Walked h' g max_files resolved w.0)
        → Answered root resolved (finished h h' g fuel max_files root o).0
    finished-Answered o (w, e, b) = inl (w.0, rw e refl, b)

    walk_top-Answered :
        Fuelled resolved
        → (top : Io ℕ) → Answered root resolved (walk_top h h' g fuel max_files root resolved top).0
    walk_top-Answered l (ok top) =
        finished-Answered (walk_beneath h h' g fuel max_files top resolved)
          (walk_beneath-Walked h top resolved (l.1 top))
    walk_top-Answered l (err exdev) = inr refl
    walk_top-Answered l (err e) =
        inl (record { files = []; truncated = false }, refl, nothing-Walked resolved)

  -- On a host whose trees are finite, with fuel above the weight of the root's tree: a walk whose
  -- root is permitted returns at most `max_files` files, each beneath the root or covered by a
  -- readable root that holds its object, and exactly `max_files` where it was truncated; or it is
  -- refused as a substitution of the root. It never runs out of fuel.
  pub walk_readable-Answered :
      (h : Host) (root : FilePath) (x : Permitted)
      → (permit_read h g root).0 ≡ granted x
      → Fuelled x.resolved
      → Answered root x.resolved (walk_readable h h' g fuel max_files root).0
  unfolding walk_readable
  walk_readable-Answered h root x e l = rw e (elim (Option-cases x.root) [
    | inl n ↦ rw n (
        finished-Answered h root x.resolved (walk_by_path h h' g fuel max_files x.resolved)
          (walk_by_path-Walked h x.resolved l.0))
    | inr (r, n) ↦ rw n (walk_top-Answered h root x.resolved l (beneath h' r x.resolved listing))
  ])
