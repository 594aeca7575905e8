-- ===== src/Transcript/Marks.antt =====
-- Which rows of the screen carry the mark that says sandbx wrote them.
use sandbx.Common.{
  ℕ, zero, suc, Bool, true, false, not, ◌||◌, ◌==◌, List, [], ◌∷◌, ◌++◌, any, all, all-append,
  retain, retain-append, ◌≡◌, refl, ap, ◌∙◌, Bytes, if_elim, arith, &&_true, Bool-cases, inl, inr,
  ==_iff,
}
use sandbx.Text.{is_control, invisible, line_separator}
use sandbx.Transcript.{
  Kind, prompt, answer, reasoning, note, Entry, gutter_mark, forgeable, cell, printable_text,
  spell_breaks, gutter, split_rows, with_gutters, entry_rows, more_rows, rows,
}

-- What text may draw within a row.
abbrev pub draws : ℕ → Bool
draws c = not (is_control c || invisible c || forgeable c)

abbrev pub within_text : ℕ → Bool
within_text c = c == 10 || draws c

cell-within : (c : ℕ) → all within_text (cell c) ≡ true
unfolding cell is_control invisible forgeable
cell-within c =
    let Within : Bytes → Type 0 = λ t. all within_text t ≡ true in
    if_elim Within (c == 10) _ _ (λ _. refl)
      (λ _.
        if_elim Within (line_separator c) _ _ (λ _. refl)
          (λ _.
            if_elim Within (c == 9) _ _ (λ _. refl)
              (λ _.
                if_elim Within (is_control c || invisible c || forgeable c) _ _ (λ _. refl)
                  (λ h. kept h))))
  where
    kept : (is_control c || invisible c || forgeable c) ≡ false → all within_text (c ∷ []) ≡ true
    kept h = rw h (ground arith)

pub printable-within : (t : Bytes) → all within_text (printable_text t) ≡ true
unfolding printable_text
printable-within [] = refl
printable-within (c ∷ cs) = rw (all-append, cell-within c, printable-within cs)

spelled_break : (t : Bytes) → all draws t ≡ true → all draws (92 ∷ 110 ∷ t) ≡ true
unfolding is_control invisible forgeable
spelled_break t h = h

pub spell_breaks-draws : (t : Bytes) → all within_text t ≡ true → all draws (spell_breaks t) ≡ true
unfolding spell_breaks
spell_breaks-draws [] h = refl
spell_breaks-draws (c ∷ cs) h =
    let (k, ks) = &&_true (within_text c) (all within_text cs) h in
    let rest = spell_breaks-draws cs ks in
    if_elim (λ s. all draws s ≡ true) (c == 10) _ _ (λ _. spelled_break (spell_breaks cs) rest)
      (λ e. ground (arith, e, k, rest))

-- A row with the mark in it.
abbrev pub is_marked : Bytes → Bool
is_marked row = any (λ c. c == gutter_mark) row

mark_not_drawn : (draws gutter_mark ≡ false) × (draws 10 ≡ false)
unfolding is_control invisible forgeable
mark_not_drawn = (refl, refl)

other_than : (c m : ℕ) → draws m ≡ false → draws c ≡ true → (c == m) ≡ false
other_than c m n h = elim (Bool-cases (c == m)) [
  | inl e ↦ cc (ap draws ((==_iff c m).0 e), n, h)
  | inr e ↦ e
]

draws-unmarked : (t : Bytes) → all draws t ≡ true → is_marked t ≡ false
draws-unmarked [] h = refl
draws-unmarked (c ∷ cs) h =
    let (k, ks) = &&_true (draws c) (all draws cs) h in
    rw (other_than c gutter_mark mark_not_drawn.0 k, draws-unmarked cs ks)

-- Every row of a text is drawn, and a text without breaks is one row.
split_rows-draws :
    (t : Bytes)
    → all within_text t ≡ true
    → (all draws (split_rows t).0 ≡ true) × (all (all draws) (split_rows t).1 ≡ true)
split_rows-draws [] h = (refl, refl)
split_rows-draws (c ∷ cs) h =
    let (k, ks) = &&_true (within_text c) (all within_text cs) h in
    let (first, others) = split_rows-draws cs ks in
    elim (Bool-cases (c == 10)) [
      | inl e ↦ rw e (refl, rw (first, others) refl)
      | inr e ↦ rw e (rw (first, drawn c e k) refl, others)
    ]
  where
    drawn : (d : ℕ) → (d == 10) ≡ false → within_text d ≡ true → draws d ≡ true
    drawn d e k = ground (arith, e, k)

split_rows-one : (t : Bytes) → all draws t ≡ true → split_rows t ≡ (t, [])
split_rows-one [] h = refl
split_rows-one (c ∷ cs) h =
    let (k, ks) = &&_true (draws c) (all draws cs) h in
    let rest = split_rows-one cs ks in
    rw (other_than c 10 mark_not_drawn.1 k) (ap (λ (q : Bytes × List Bytes). (c ∷ q.0, q.1)) rest)

unfoldable pub is_note : Kind → Bool
is_note note = true
is_note _ = false

-- What an entry shows with the mark.
abbrev pub note_rows : Kind → Bytes → List Bytes
note_rows note t = (gutter_mark ∷ 32 ∷ t) ∷ []
note_rows _ t = []

abbrev pub sound_as : Kind → Bytes → Bool
sound_as note t = all draws t
sound_as _ t = all within_text t

abbrev pub is_sound : Entry → Bool
is_sound e = sound_as e.kind e.content

abbrev pub marks : List Entry → List Bytes
marks [] = []
marks (e ∷ es) = note_rows e.kind e.content ++ marks es

gutter-unmarked :
    (k : Kind) (n : ℕ) (row : Bytes)
    → is_note k ≡ false
    → is_marked (gutter k n ++ row) ≡ is_marked row
unfolding gutter is_note
gutter-unmarked note n row h = cc h
gutter-unmarked prompt zero row h = refl
gutter-unmarked prompt (suc n) row h = refl
gutter-unmarked answer n row h = refl
gutter-unmarked reasoning n row h = refl

with_gutters-unmarked :
    (k : Kind) (n : ℕ) (others : List Bytes)
    → is_note k ≡ false
    → all (all draws) others ≡ true
    → retain is_marked (with_gutters k n others) ≡ []
with_gutters-unmarked k n [] h a = refl
with_gutters-unmarked k n (row ∷ others) h a =
    let (d, ds) = &&_true (all draws row) (all (all draws) others) a in
    let unmarked : is_marked (gutter k n ++ row) ≡ false =
      gutter-unmarked k n row h ∙ draws-unmarked row d in
    rw unmarked (with_gutters-unmarked k (suc n) others h ds)

told_rows :
    (k : Kind) (t : Bytes)
    → is_note k ≡ false
    → all within_text t ≡ true
    → retain is_marked (with_gutters k 0 ((split_rows t).0 ∷ (split_rows t).1)) ≡ []
told_rows k t h a =
    let (first, others) = split_rows-draws t a in
    with_gutters-unmarked k 0 ((split_rows t).0 ∷ (split_rows t).1) h (rw (first, others) refl)

entry_rows-marks :
    (k : Kind) (t : Bytes)
    → sound_as k t ≡ true
    → retain is_marked (entry_rows (record { kind = k; content = t })) ≡ note_rows k t
unfolding is_note gutter
entry_rows-marks note t a = rw (split_rows-one t a) refl
entry_rows-marks prompt t a = told_rows prompt t refl a
entry_rows-marks answer t a = told_rows answer t refl a
entry_rows-marks reasoning t a = told_rows reasoning t refl a

more_rows-marks :
    (es : List Entry) → all is_sound es ≡ true → retain is_marked (more_rows es) ≡ marks es
unfolding more_rows
more_rows-marks [] a = refl
more_rows-marks (e ∷ es) a =
    let (s, ss) = &&_true (is_sound e) (all is_sound es) a in
    retain-append is_marked (entry_rows e) (more_rows es)
    ∙ rw (entry_rows-marks e.kind e.content s, more_rows-marks es ss) refl

pub rows-marks : (es : List Entry) → all is_sound es ≡ true → retain is_marked (rows es) ≡ marks es
unfolding rows
rows-marks [] a = refl
rows-marks (e ∷ es) a =
    let (s, ss) = &&_true (is_sound e) (all is_sound es) a in
    retain-append is_marked (entry_rows e) (more_rows es)
    ∙ rw (entry_rows-marks e.kind e.content s, more_rows-marks es ss) refl
