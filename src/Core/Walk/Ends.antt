-- ===== src/Core/Walk/Ends.antt =====
-- A walk of a finite tree ends.
use sandbx.Common.{
  ℕ, zero, suc, ◌+◌, ◌≤◌, ◌<◌, true, false, List, [], ◌∷◌, ◌++◌, Option, none, some, Bytes,
  if◌then◌else◌, all, ◌≡◌, refl, ◌∙◌, arith, Bool-cases, inl, inr, if_elim, ◌⊎◌, &&_true,
}
use sandbx.Core.FilePath.{FilePath, join_name, starts_with}
use sandbx.Core.Host.{EntryKind, symlink, directory, file, other_kind, Dirent, Host}
use sandbx.Core.Guard.{AuditEvent, FsGuard}
use sandbx.Core.Access.{is_directory_kind}
use sandbx.Core.Walk.Bounded.{IsBounded, visit-IsBounded}
use sandbx.Core.Walk.{
  Walk, walked_link, keep, keep_link, visit_entry, visit, listed_into, walk_stack,
}

-- The weight of what a directory's entries push, and of a stack.
abbrev pub pushed : {P : Type 0} → (P → ℕ) → (Bytes → P) → List Dirent → ℕ
pushed weight child [] = 0
pushed weight child (d ∷ ds) =
    (if is_directory_kind d.kind then suc (weight (child d.name)) else 0) + pushed weight child ds

abbrev pub stack_weight : {P : Type 0} → (P → ℕ) → List P → ℕ
stack_weight weight [] = 0
stack_weight weight (p ∷ ps) = suc (weight p) + stack_weight weight ps

List-cases : {P : Type 0} (ps : List P) → (ps ≡ []) ⊎ ((p : P) × (qs : List P) × (ps ≡ p ∷ qs))
List-cases [] = inl refl
List-cases (p ∷ qs) = inr (p, qs, refl)

module _ (h : Host) (g : FsGuard) (max_files : ℕ) (root : FilePath) {P : Type 0} (at : P → FilePath)
    (weight : P → ℕ) where
  keep_stack : (f : FilePath) (w : Walk P) → (keep h g max_files f w).stack ≡ w.stack
  unfolding keep
  keep_stack f w = ground arith

  keep_link_stack :
      (o : Option FilePath) (es : List AuditEvent) (w : Walk P)
      → (keep_link h g max_files (o, es) w).stack ≡ w.stack
  unfolding keep_link
  keep_link_stack none es w = refl
  keep_link_stack (some f) es w = keep_stack f (record w { events = w.events ++ es })

  visit_entry-weight :
      (path : FilePath) (child : P) (kind : Option EntryKind) (w : Walk P)
      → stack_weight weight (visit_entry h g max_files path child kind w).stack
        ≤ (if is_directory_kind kind then suc (weight child) else 0) + stack_weight weight w.stack
  unfolding visit_entry
  visit_entry-weight path child none w = omega arith
  visit_entry-weight path child (some symlink) w =
      rw (keep_link_stack (walked_link h g path).0 (walked_link h g path).1 w) (omega arith)
  visit_entry-weight path child (some directory) w = omega arith
  visit_entry-weight path child (some file) w = rw (keep_stack path w) (omega arith)
  visit_entry-weight path child (some other_kind) w = omega arith

  visit-weight :
      (dir : FilePath) (child : Bytes → P) (ds : List Dirent) (w : Walk P)
      → stack_weight weight (visit h g max_files dir child ds w).stack
        ≤ pushed weight child ds + stack_weight weight w.stack
  unfolding visit
  visit-weight dir child [] w = omega arith
  visit-weight dir child (d ∷ ds) w =
      let entry = visit_entry h g max_files (join_name dir d.name) (child d.name) d.kind w in
      let step : stack_weight weight (if w.truncated then w else entry).stack
          ≤ (if is_directory_kind d.kind then suc (weight (child d.name)) else 0)
            + stack_weight weight w.stack =
        if_elim
          (λ (v : Walk P).
            stack_weight weight v.stack
            ≤ (if is_directory_kind d.kind then suc (weight (child d.name)) else 0)
              + stack_weight weight w.stack)
          w.truncated w entry (λ _. omega arith)
          (λ _. visit_entry-weight (join_name dir d.name) (child d.name) d.kind w) in
      omega (arith, step, visit-weight dir child ds (if w.truncated then w else entry))

  module _ (entries : P → Option ((Bytes → P) × List Dirent))
      (finite : (p : P) (child : Bytes → P) (ds : List Dirent)
        → entries p ≡ some (child, ds)
        → pushed weight child ds ≤ weight p)
      (named : (p : P) (child : Bytes → P) (ds : List Dirent)
        → entries p ≡ some (child, ds)
        → (name : Bytes) → at (child name) ≡ join_name (at p) name) where
    walk_stack-full :
        (fuel : ℕ) (w : Walk P)
        → w.truncated ≡ true
        → walk_stack h g max_files at entries (suc fuel) w ≡ some w
    unfolding walk_stack
    walk_stack-full fuel w t = ground arith

    walk_stack-done :
        (fuel : ℕ) (w : Walk P)
        → w.truncated ≡ false
        → w.stack ≡ []
        → walk_stack h g max_files at entries (suc fuel) w ≡ some w
    unfolding walk_stack
    walk_stack-done fuel w t e = ground arith

    walk_stack-step :
        (fuel : ℕ) (w : Walk P) (p : P) (ps : List P)
        → w.truncated ≡ false
        → w.stack ≡ p ∷ ps
        → walk_stack h g max_files at entries (suc fuel) w
          ≡ walk_stack h g max_files at entries fuel
              (listed_into h g max_files at entries p (entries p) (record w { stack = ps }))
    unfolding walk_stack
    walk_stack-step fuel w p ps t e = ground arith

    listed_into-IsBounded :
        (p : P) (o : Option ((Bytes → P) × List Dirent)) (w : Walk P)
        → entries p ≡ o
        → starts_with (at p) root ≡ true
        → IsBounded h g max_files root at w
        → IsBounded h g max_files root at (listed_into h g max_files at entries p o w)
    listed_into-IsBounded p none w e s b = b
    listed_into-IsBounded p (some (child, ds)) w e s b =
        visit-IsBounded h g max_files root at (at p) child ds w s (named p child ds e) b

    listed_into-weight :
        (p : P) (o : Option ((Bytes → P) × List Dirent)) (w : Walk P)
        → entries p ≡ o
        → stack_weight weight (listed_into h g max_files at entries p o w).stack
          ≤ weight p + stack_weight weight w.stack
    listed_into-weight p none w e = omega arith
    listed_into-weight p (some (child, ds)) w e =
        omega (arith, visit-weight (at p) child ds w, finite p child ds e)

    pub walk_stack-IsBounded :
        (fuel : ℕ) (w : Walk P)
        → IsBounded h g max_files root at w
        → stack_weight weight w.stack < fuel
        → (e : Walk P) × (walk_stack h g max_files at entries fuel w ≡ some e)
          × IsBounded h g max_files root at e
    walk_stack-IsBounded zero w b l = absurd (omega arith)
    walk_stack-IsBounded (suc fuel) w b l = elim (Bool-cases w.truncated) [
      | inl t ↦ (w, walk_stack-full fuel w t, b)
      | inr t ↦ elim (List-cases w.stack) [
        | inl e ↦ (w, walk_stack-done fuel w t e, b)
        | inr (p, ps, e) ↦
            let stacked : all (λ q. starts_with (at q) root) (p ∷ ps) ≡ true = rw e at b.stacked in
            let rest : Walk P = record w { stack = ps } in
            let popped : IsBounded h g max_files root at rest = record {
              capped = b.capped;
              full = b.full;
              reached = b.reached;
              stacked = (&&_true _ _ stacked).1;
            } in
            let heavy : stack_weight weight (p ∷ ps) < suc fuel = rw e at l in
            let (end, walks, bounded) =
              walk_stack-IsBounded fuel (listed_into h g max_files at entries p (entries p) rest)
                (listed_into-IsBounded p (entries p) rest refl (&&_true _ _ stacked).0 popped)
                (omega (arith, heavy, listed_into-weight p (entries p) rest refl)) in
            (end, walk_stack-step fuel w p ps t e ∙ walks, bounded)
      ]
    ]
