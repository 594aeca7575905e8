-- ===== src/Core/Walk/Bounded.antt =====
-- What a walk has found so far: within its cap, only files beneath its root or in a grant.
use sandbx.Common.{
  ℕ, ◌+◌, ◌≤◌, Bool, true, ◌||◌, ◌==◌, List, [], ◌∷◌, ◌++◌, Option, none, some, Bytes, length, any,
  all, ◌≡◌, refl, ◌∙◌, arith, Bool-cases, Option-cases, inl, inr, length-append, all-append,
  if_elim,
}
use sandbx.Core.FilePath.{FilePath, join_name, starts_with}
use sandbx.Core.FilePath.Prefix.{starts_with-join_name}
use sandbx.Core.Host.{EntryKind, symlink, directory, file, other_kind, Dirent, Host}
use sandbx.Core.Guard.{AuditEvent, FsGuard, moved_root, contains}
use sandbx.Core.Guard.Covered.{covers, contains-inside}
use sandbx.Core.Check.Granted.{Io-cases, Containment-cases}
use sandbx.Core.Check.Concealed.{any-covers}
use sandbx.Core.Walk.{Walk, walked_link, keep, keep_link, visit_entry, visit}

module _ (h : Host) (g : FsGuard) (max_files : ℕ) (root : FilePath) where
  -- A file is beneath the root, or a readable root that holds its object covers it.
  abbrev pub in_reach : FilePath → Bool
  in_reach f = starts_with f root || any (covers h f none) g.readable

  walked_link-in_reach : (link f : FilePath) → (walked_link h g link).0 ≡ some f → in_reach f ≡ true
  unfolding walked_link
  walked_link-in_reach link f e = elim (Io-cases (h.canonicalize link)) [
    | inr (o, c) ↦ absurd (ground arith)
    | inl (r, c) ↦ elim (Option-cases (moved_root h link g.readable)) [
      | inr (m, n) ↦ absurd (ground arith)
      | inl n ↦ elim (Containment-cases (contains h r g.readable)) [
        | inr (m, o) ↦ absurd (ground arith)
        | inl (b, i) ↦
            ground
              (arith, any-covers h g.readable r b g.readable (contains-inside h r g.readable b i))
      ]
    ]
  ]

  module _ {P : Type 0} (at : P → FilePath) where
    pub record IsBounded (w : Walk P) : Type 0 where
      pub capped : length w.files ≤ max_files
      pub full : w.truncated ≡ true → length w.files ≡ max_files
      pub reached : all in_reach w.files ≡ true
      pub stacked : all (λ p. starts_with (at p) root) w.stack ≡ true

    keep-IsBounded :
        (f : FilePath) (w : Walk P)
        → in_reach f ≡ true
        → IsBounded w
        → IsBounded (keep h g max_files f w)
    unfolding keep
    keep-IsBounded f w i b = elim (Bool-cases (length w.files == max_files)) [
      | inl e ↦ rw e (record {
        capped = b.capped;
        full = λ t. ground (arith, e);
        reached = b.reached;
        stacked = b.stacked;
      })
      | inr e ↦
          let grown : length (w.files ++ f ∷ []) ≡ length w.files + 1 =
            length-append w.files (f ∷ []) in
          rw e (record {
            capped = ground (arith, e, grown, b.capped);
            full = λ t. absurd (ground (arith, e, b.full t));
            reached = all-append in_reach w.files (f ∷ []) ∙ ground (arith, b.reached, i);
            stacked = b.stacked;
          })
    ]

    events-IsBounded :
        (w : Walk P) (es : List AuditEvent) → IsBounded w → IsBounded (record w { events = es })
    events-IsBounded w es b = record {
      capped = b.capped;
      full = b.full;
      reached = b.reached;
      stacked = b.stacked;
    }

    keep_link-IsBounded :
        (link : FilePath) (w : Walk P)
        → IsBounded w
        → IsBounded (keep_link h g max_files (walked_link h g link) w)
    keep_link-IsBounded link w b =
        found (walked_link h g link).0 (walked_link h g link).1 (walked_link-in_reach link)
      where
        found :
            (o : Option FilePath) (es : List AuditEvent)
            → ((f : FilePath) → o ≡ some f → in_reach f ≡ true)
            → IsBounded (keep_link h g max_files (o, es) w)
        found none es r = unfold keep_link in events-IsBounded w (w.events ++ es) b
        found (some f) es r =
            unfold keep_link in
            keep-IsBounded f (record w { events = w.events ++ es }) (r f refl)
              (events-IsBounded w (w.events ++ es) b)

    visit_entry-IsBounded :
        (path : FilePath) (child : P) (kind : Option EntryKind) (w : Walk P)
        → starts_with path root ≡ true
        → starts_with (at child) root ≡ true
        → IsBounded w
        → IsBounded (visit_entry h g max_files path child kind w)
    unfolding visit_entry
    visit_entry-IsBounded path child none w s c b = b
    visit_entry-IsBounded path child (some symlink) w s c b = keep_link-IsBounded path w b
    visit_entry-IsBounded path child (some directory) w s c b = record {
      capped = b.capped;
      full = b.full;
      reached = b.reached;
      stacked = ground (arith, c, b.stacked);
    }
    visit_entry-IsBounded path child (some file) w s c b =
        keep-IsBounded path w (ground (arith, s)) b
    visit_entry-IsBounded path child (some other_kind) w s c b = b

    pub visit-IsBounded :
        (dir : FilePath) (child : Bytes → P) (ds : List Dirent) (w : Walk P)
        → starts_with dir root ≡ true
        → ((name : Bytes) → at (child name) ≡ join_name dir name)
        → IsBounded w
        → IsBounded (visit h g max_files dir child ds w)
    unfolding visit
    visit-IsBounded dir child [] w s c b = b
    visit-IsBounded dir child (d ∷ ds) w s c b =
        let path : starts_with (join_name dir d.name) root ≡ true =
          starts_with-join_name dir root d.name s in
        visit-IsBounded dir child ds _ s c (
          if_elim IsBounded w.truncated w
            (visit_entry h g max_files (join_name dir d.name) (child d.name) d.kind w) (λ _. b)
            (λ _.
              visit_entry-IsBounded (join_name dir d.name) (child d.name) d.kind w path
                (rw (c d.name) path) b))
