-- ===== src/Core/Guard/Covered.antt =====
-- What the scan of the roots finds: an inside answer names a root that covers the path and holds the
-- object it was vetted on, and nothing else of the host is asked.
use sandbx.Common.{
  ℕ, Bool, true, false, ◌&&◌, ◌||◌, List, [], ◌∷◌, Option, none, some, any, ◌==◌, ◌≡◌, refl, arith,
  ap, or_else, if_elim, inl, inr, ◌⊎◌, if◌then◌else◌, Bool-cases, Option-cases,
}
use sandbx.Core.Policy.{ObjectId}
use sandbx.Core.FilePath.{FilePath, starts_with, path_eq}
use sandbx.Core.FilePath.Prefix.{path_eq_refl}
use sandbx.Core.Host.{Host, Confirmation, confirmed, unmeasurable, replaced, confirm}
use sandbx.Core.Guard.{
  Root, Rooted, Replacement, inside, root_path, covering, contains_from, contains, moved_root,
  moved_form, unlike, collapsed, moved_of,
}

-- A root is the one whose descriptor an access resolves beneath, if there is one.
abbrev pub gives : Option Rooted → Root → Bool
gives none r = true
gives (some b) r = elim r.dir [
  | none ↦ false
  | some d ↦ (d == b.dir) && path_eq (root_path r) b.granted_path
]

abbrev pub is_confirmed : Confirmation → Bool
is_confirmed confirmed = true
is_confirmed _ = false

Confirmation-cases :
    (c : Confirmation)
    → (c ≡ confirmed) ⊎ ((c ≡ unmeasurable) ⊎ ((o : ObjectId) × (c ≡ replaced o)))
Confirmation-cases confirmed = inl refl
Confirmation-cases unmeasurable = inr (inl refl)
Confirmation-cases (replaced o) = inr (inr (o, refl))

-- A root that has been replaced.
abbrev swapped : Root → ObjectId → Replacement
swapped r o = record { granted_path = root_path r; vetted = r.vetted.object; opened = o }

module _ (h : Host) where
  abbrev pub covers : FilePath → Option Rooted → Root → Bool
  covers p b r = starts_with p (root_path r) && (is_confirmed (confirm h r.vetted) && gives b r)

  abbrev holds : Option Rooted → Root → Bool
  holds b r = is_confirmed (confirm h r.vetted) && gives b r

  abbrev is_none : Option Rooted → Bool
  is_none none = true
  is_none (some b) = false

  none_gives : (b : Option Rooted) (r : Root) → is_none b ≡ true → gives b r ≡ true
  none_gives none r e = refl
  none_gives (some b) r e = cc e

  contains_from-inside :
      (m : Option Replacement) (seen : Bool) (rs : List Root) (b : Option Rooted)
      → contains_from h m seen rs ≡ inside b
      → ((seen && is_none b) || any (holds b) rs) ≡ true
  unfolding contains_from
  contains_from-inside m true [] none e = refl
  contains_from-inside m true [] (some b) e = cc e
  contains_from-inside m false [] b e = cc e
  contains_from-inside m seen (r ∷ rs) b e = elim (Confirmation-cases (confirm h r.vetted)) [
    | inl c ↦
        ground (arith, path_eq_refl (root_path r), none_gives b r, contains_from-inside m true rs b)
    | inr (inl c) ↦ ground (arith, contains_from-inside m seen rs b)
    | inr (inr (o, c)) ↦
        ground (arith, contains_from-inside (or_else m (some (swapped r o))) seen rs b)
  ]

  -- An answer of inside names a root that covers the path and still holds its object, and gives the
  -- descriptor of that root or none.
  any-covering :
      (p : FilePath) (b : Option Rooted) (rs : List Root)
      → any (holds b) (covering p rs) ≡ true
      → any (covers p b) rs ≡ true
  any-covering p b [] e = cc e
  any-covering p b (r ∷ rs) e = ground (arith, any-covering p b rs)

  pub contains-inside :
      (p : FilePath) (rs : List Root) (b : Option Rooted)
      → contains h p rs ≡ inside b
      → any (covers p b) rs ≡ true
  unfolding contains
  contains-inside p rs b e =
      any-covering p b rs (contains_from-inside none false (covering p rs) b e)

-- The descriptor of a root, where it has one.
abbrev pub lent : Root → Option ℕ → Option Rooted
lent r none = none
lent r (some d) = some (record { dir = d; granted_path = root_path r })

module _ (h : Host) where
  -- The descriptor of the first of the roots that covers the path, holds its object and has one.
  abbrev pub lender : FilePath → List Root → Option Rooted
  lender p [] = none
  lender p (r ∷ rs) =
      let rest = lender p rs in
      if starts_with p (root_path r) && is_confirmed (confirm h r.vetted)
      then or_else (lent r r.dir) rest
      else rest

  contains_from-lender :
      (p : FilePath) (m : Option Replacement) (seen : Bool) (rs : List Root) (b : Option Rooted)
      → contains_from h m seen (covering p rs) ≡ inside b
      → b ≡ lender p rs
  unfolding contains_from
  contains_from-lender p m true [] b e = ground (arith, e)
  contains_from-lender p m false [] b e = cc e
  contains_from-lender p m seen (r ∷ rs) b e = elim (Bool-cases (starts_with p (root_path r))) [
    | inr f ↦ ground (arith, f, e, contains_from-lender p m seen rs b)
    | inl t ↦ elim (Confirmation-cases (confirm h r.vetted)) [
      | inl c ↦ elim (Option-cases r.dir) [
        | inl n ↦ ground (arith, t, c, n, e, contains_from-lender p m true rs b)
        | inr (d, n) ↦ ground (arith, t, c, n, e)
      ]
      | inr (inl c) ↦ ground (arith, t, c, e, contains_from-lender p m seen rs b)
      | inr (inr (o, c)) ↦
          ground (arith, t, c, e, contains_from-lender p (or_else m (some (swapped r o))) seen rs b)
    ]
  ]

  pub contains-lender :
      (p : FilePath) (rs : List Root) (b : Option Rooted)
      → contains h p rs ≡ inside b
      → b ≡ lender p rs
  unfolding contains
  contains-lender p rs b e = contains_from-lender p none false rs b e

-- Two hosts that find the same at each of the roots.
abbrev pub SameRoots : Host → Host → List Root → Type 0
SameRoots h h' [] = Unit {0}
SameRoots h h' (r ∷ rs) = (confirm h r.vetted ≡ confirm h' r.vetted) × SameRoots h h' rs

module _ (h h' : Host) where
  SameRoots-covering :
      (p : FilePath) (rs : List Root) → SameRoots h h' rs → SameRoots h h' (covering p rs)
  SameRoots-covering p [] s = tt
  SameRoots-covering p (r ∷ rs) s =
      if_elim (SameRoots h h') (starts_with p (root_path r)) _ _
        (λ _. (s.0, SameRoots-covering p rs s.1)) (λ _. SameRoots-covering p rs s.1)

  contains_from-same :
      (m : Option Replacement) (seen : Bool) (rs : List Root)
      → SameRoots h h' rs
      → contains_from h m seen rs ≡ contains_from h' m seen rs
  unfolding contains_from
  contains_from-same m seen [] s = refl
  contains_from-same m seen (r ∷ rs) s = elim (Confirmation-cases (confirm h' r.vetted)) [
    | inl c ↦ ground (arith, contains_from-same m true rs s.1)
    | inr (inl c) ↦ ground (arith, contains_from-same m seen rs s.1)
    | inr (inr (o, c)) ↦
        ground (arith, contains_from-same (or_else m (some (swapped r o))) seen rs s.1)
  ]

  pub contains-same :
      (p : FilePath) (rs : List Root) → SameRoots h h' rs → contains h p rs ≡ contains h' p rs
  unfolding contains
  contains-same p rs s = contains_from-same none false (covering p rs) (SameRoots-covering p rs s)

  collapsed-same : (p : FilePath) → h.current_dir ≡ h'.current_dir → collapsed h p ≡ collapsed h' p
  unfolding collapsed
  collapsed-same p e = rw e refl

  moved_form-same :
      (o : Option FilePath) (rs : List Root)
      → SameRoots h h' rs
      → moved_form h o rs ≡ moved_form h' o rs
  moved_form-same none rs s = refl
  moved_form-same (some form) rs s = ap moved_of (contains-same form rs s)

  pub moved_root-same :
      (p : FilePath) (rs : List Root)
      → SameRoots h h' rs
      → h.current_dir ≡ h'.current_dir
      → moved_root h p rs ≡ moved_root h' p rs
  unfolding moved_root
  moved_root-same p rs s e =
      rw (collapsed-same p e)
        (rw (contains-same p rs s) (rw (moved_form-same (unlike p (collapsed h' p)) rs s) refl))
