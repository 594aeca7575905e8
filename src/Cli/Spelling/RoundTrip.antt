-- ===== src/Cli/Spelling/RoundTrip.antt =====
-- Reading back what was spelled.
use sandbx.Common.{
  ℕ, true, false, [], ◌∷◌, ◌++◌, ◌≡◌, refl, sym, ap, ◌∙◌, Bytes, ◌==◌, ◌||◌, if◌then◌else◌, map,
  if_elim, arith, Bool-cases, inl, inr, ==_iff,
}
use sandbx.Text.{is_control, invisible, line_separator}
use sandbx.Cli.Spelling.{replacement, escape_unicode, spell, spelled}

-- Where a reader of the line stands: in the text, behind a backslash, or in the name of a separator.
pub data Mode : Type 0 where
  plain escaped separator : Mode

abbrev read : Mode → ℕ → Mode × Bytes
read plain c = if c == 92 then (escaped, []) else (plain, c ∷ [])
read escaped c =
    if c == 110
    then (plain, 10 ∷ [])
    else if c == 116
    then (plain, 9 ∷ [])
    else if c == 92
    then (plain, 92 ∷ [])
    else (separator, [])
read separator c =
    if c == 125
    then (plain, [])
    else if c == 56
    then (separator, 8232 ∷ [])
    else if c == 57
    then (separator, 8233 ∷ [])
    else (separator, [])

abbrev read_all : Mode → Bytes → Bytes
read_all m [] = []
read_all m (c ∷ cs) = (read m c).1 ++ read_all (read m c).0 cs

abbrev pub unspelled : Bytes → Bytes
unspelled t = read_all plain t

-- What the line shows of a character: all but one that would rewrite it.
abbrev pub shown : ℕ → ℕ
shown c = if c == 10 || c == 9 then c else if is_control c || invisible c then replacement else c

eq_of : (c d : ℕ) → (c == d) ≡ true → c ≡ d
eq_of c d = (==_iff c d).0

read_separator :
    (c : ℕ) (rest : Bytes)
    → line_separator c ≡ true
    → read_all plain (escape_unicode c ++ rest) ≡ c ∷ read_all plain rest
unfolding line_separator
read_separator c rest e = elim (Bool-cases (c == 8232)) [
  | inl q ↦ rw q (rw (eq_of c 8232 q) refl)
  | inr q ↦ rw q (rw (eq_of c 8233 (ground (arith, q, e))) refl)
]

line_separator-shown : (c : ℕ) → line_separator c ≡ true → shown c ≡ c
unfolding line_separator is_control invisible
line_separator-shown c e = elim (Bool-cases (c == 8232)) [
  | inl q ↦ rw (eq_of c 8232 q) refl
  | inr q ↦ rw (eq_of c 8233 (ground (arith, q, e))) refl
]

backslash-shown : shown 92 ≡ 92
unfolding is_control invisible
backslash-shown = refl

shown_rest :
    (c : ℕ)
    → (c == 10) ≡ false
    → (c == 9) ≡ false
    → shown c ≡ (if is_control c || invisible c then replacement else c)
shown_rest c p q = rw (p, q) refl

read_kept :
    (c : ℕ) (rest : Bytes) → (c == 92) ≡ false → read_all plain (c ∷ rest) ≡ c ∷ read_all plain rest
read_kept c rest e = rw e refl

read_spell :
    (c : ℕ) (rest : Bytes) → read_all plain (spell c ++ rest) ≡ shown c ∷ read_all plain rest
unfolding spell
read_spell c rest =
    let Read : Bytes → Type 0 = λ t. read_all plain (t ++ rest) ≡ shown c ∷ read_all plain rest in
    if_elim Read (c == 10) _ _ (λ e. rw (eq_of c 10 e) refl)
      (λ n.
        if_elim Read (c == 9) _ _ (λ e. rw (eq_of c 9 e) refl)
          (λ t.
            if_elim Read (c == 92) _ _ (λ e. rw (eq_of c 92 e) (rw backslash-shown refl))
              (λ b.
                if_elim Read (line_separator c) _ _
                  (λ e.
                    read_separator c rest e
                    ∙ ap (λ d. d ∷ read_all plain rest) (sym (line_separator-shown c e)))
                  (λ _.
                    if_elim Read (is_control c || invisible c) _ _
                      (λ e. ap (λ d. d ∷ read_all plain rest) (sym (shown_rest c n t ∙ rw e refl)))
                      (λ e.
                        read_kept c rest b
                        ∙ ap (λ d. d ∷ read_all plain rest)
                            (sym (shown_rest c n t ∙ rw e refl)))))))

-- A line of spelled text can be read in one way only: reading the spellings of breaks, tabs, backslashes
-- and separators back gives each character that was spelled, or U+FFFD for one that would rewrite
-- the line.
pub unspelled-spelled : (t : Bytes) → unspelled (spelled t) ≡ map shown t
unfolding spelled
unspelled-spelled [] = refl
unspelled-spelled (c ∷ cs) = read_spell c (spelled cs) ∙ ap (◌∷◌ (shown c)) (unspelled-spelled cs)
