-- ===== src/Cli/Spelling/Plain.antt =====
-- Spelled text, and what a terminal would obey.
use sandbx.Common.{
  codes, length, ◌≤◌, ◌+◌, ◌*◌, length-append, zero, suc, ℕ, true, false, List, [], ◌∷◌, ◌++◌, ◌≡◌,
  refl, Bytes, ◌==◌, ◌||◌, if◌then◌else◌, all, all-append, if_elim, arith,
}
use sandbx.Text.{is_control, invisible, line_separator, is_plain}
use sandbx.Cli.Spelling.{
  replacement, escape_unicode, spell, spelled, replaced, stripped, subject_cap, head_of, printable,
  contains_text, causes_line, error_line,
}

replacement-plain : is_plain replacement ≡ true
unfolding is_control invisible line_separator
replacement-plain = refl

escape_unicode-plain : (c : ℕ) → all is_plain (escape_unicode c) ≡ true
unfolding is_control invisible line_separator
escape_unicode-plain c =
    if_elim (λ t. all is_plain (92 ∷ t) ≡ true) (c == 8232) _ _ (λ _. refl) (λ _. refl)

kept-plain :
    (c : ℕ)
    → line_separator c ≡ false
    → (is_control c || invisible c) ≡ false
    → all is_plain (c ∷ []) ≡ true
kept-plain c l h = ground (arith, l, h)

pub spell-plain : (c : ℕ) → all is_plain (spell c) ≡ true
unfolding spell is_control invisible line_separator
spell-plain c =
    let Plain : Bytes → Type 0 = λ t. all is_plain t ≡ true in
    if_elim Plain (c == 10) _ _ (λ _. refl)
      (λ _.
        if_elim Plain (c == 9) _ _ (λ _. refl)
          (λ _.
            if_elim Plain (c == 92) _ _ (λ _. refl)
              (λ _.
                if_elim Plain (line_separator c) _ _ (λ _. escape_unicode-plain c)
                  (λ l.
                    if_elim Plain (is_control c || invisible c) _ _ (λ _. refl)
                      (λ h. kept-plain c l h)))))

pub spelled-plain : (t : Bytes) → all is_plain (spelled t) ≡ true
unfolding spelled
spelled-plain [] = refl
spelled-plain (c ∷ cs) = rw (all-append, spell-plain c, spelled-plain cs)

pub replaced-plain : (c : ℕ) → is_plain (replaced c) ≡ true
unfolding replaced
replaced-plain c =
    if_elim (λ d. is_plain d ≡ true) (is_control c || invisible c || line_separator c) _ _
      (λ _. replacement-plain) (λ h. rw h refl)

pub stripped-plain : (t : Bytes) → all is_plain (stripped t) ≡ true
stripped-plain [] = refl
stripped-plain (c ∷ cs) = rw (replaced-plain c, stripped-plain cs)

pub stripped_keeps : (t : Bytes) → all is_plain t ≡ true → stripped t ≡ t
unfolding replaced
stripped_keeps [] h = refl
stripped_keeps (c ∷ cs) h = ground (arith, stripped_keeps cs)

pub append-plain :
    (s t : Bytes) → all is_plain s ≡ true → all is_plain t ≡ true → all is_plain (s ++ t) ≡ true
append-plain s t p q = rw (all-append, p, q)

pub printable-plain : (t : Bytes) → all is_plain (printable t) ≡ true
unfolding printable is_control invisible line_separator
printable-plain t =
    let h = (head_of subject_cap t).0 in
    if_elim (λ s. all is_plain s ≡ true) (head_of subject_cap t).1 _ _
      (λ _. append-plain (spelled h) _ (spelled-plain h) refl) (λ _. spelled-plain h)

spell-length : (c : ℕ) → length (spell c) ≤ 8
unfolding spell
spell-length c =
    let Short : Bytes → Type 0 = λ t. length t ≤ 8 in
    if_elim Short (c == 10) _ _ (λ _. omega arith)
      (λ _.
        if_elim Short (c == 9) _ _ (λ _. omega arith)
          (λ _.
            if_elim Short (c == 92) _ _ (λ _. omega arith)
              (λ _.
                if_elim Short (line_separator c) _ _
                  (λ _.
                    if_elim (λ (t : Bytes). suc (length t) ≤ 8) (c == 8232) (codes "u{2028}")
                      (codes "u{2029}") (λ _. omega arith) (λ _. omega arith))
                  (λ _.
                    if_elim Short (is_control c || invisible c) _ _ (λ _. omega arith)
                      (λ _. omega arith)))))

head-length : (n : ℕ) (t : Bytes) → length (spelled (head_of n t).0) ≤ 8 * n
unfolding spelled
head-length zero t = omega arith
head-length (suc n) [] = omega arith
head-length (suc n) (c ∷ cs) =
    omega
      (arith, length-append (spell c) (spelled (head_of n cs).0), spell-length c, head-length n cs)

-- However long the field is that a model chose, what is shown of it is short.
pub printable-short : (t : Bytes) → length (printable t) ≤ 8 * 512 + 1
unfolding printable
printable-short t =
    let h = (head_of subject_cap t).0 in
    if_elim (λ (s : Bytes). length s ≤ 8 * 512 + 1) (head_of subject_cap t).1
      (spelled h ++ 8230 ∷ []) (spelled h)
      (λ _. omega (arith, length-append (spelled h) (8230 ∷ []), head-length 512 t))
      (λ _. omega (arith, head-length 512 t))

causes_line-plain :
    (parent : Bytes) (causes : List Bytes) → all is_plain (causes_line parent causes) ≡ true
unfolding causes_line is_control invisible line_separator
causes_line-plain parent [] = refl
causes_line-plain parent (text ∷ causes) =
    append-plain (if contains_text parent text then [] else codes ": " ++ spelled text) _
      (if_elim (λ s. all is_plain s ≡ true) (contains_text parent text) _ _ (λ _. refl)
        (λ _. append-plain (codes ": ") (spelled text) refl (spelled-plain text)))
      (causes_line-plain text causes)

-- Whatever an error and its causes say, the report of it is one line that rewrites nothing: it holds no
-- control character, nothing invisible and no separator of lines.
error_line-plain :
    (error : Bytes) (causes : List Bytes) → all is_plain (error_line error causes) ≡ true
unfolding error_line
error_line-plain error causes =
    append-plain (spelled error) _ (spelled-plain error) (causes_line-plain error causes)
