-- ===== src/Sse/Lines.antt =====
-- A line of a byte string: where it is found, and what it does to the frames.
use sandbx.Common.{
  ℕ, zero, suc, ◌+◌, ◌≤◌, Bool, true, false, not, leb, leb→le, ◌==◌, List, [], ◌∷◌, ◌++◌, Option,
  none, some, Bytes, length, all, drop, split_once, ◌≡◌, refl, sym, ap, ◌∙◌, arith, Bool-cases,
  Option-cases, inl, inr, &&_true,
}
use mathlib.Core.List.{append-nil, append_assoc}
use sandbx.Sse.{newline, trim_cr, but_last, take, next_line}
use sandbx.Sse.Frames.{after_line, frames, grown, fits}

abbrev pub plain : Bytes → Bool
plain s = all (λ c. not (c == newline)) s

pub split_once-none : (s : Bytes) → split_once newline s ≡ none → plain s ≡ true
split_once-none [] e = refl
split_once-none (c ∷ cs) e = elim (Option-cases (split_once newline cs)) [
  | inl n ↦ ground (arith, split_once-none cs)
  | inr ((l, r), n) ↦ ground arith
]

pub split_once-some :
    (s l r : Bytes) → split_once newline s ≡ some (l, r) → (plain l ≡ true) × (s ≡ l ++ newline ∷ r)
split_once-some [] l r e = cc e
split_once-some (c ∷ cs) l r e = elim (Bool-cases (c == newline)) [
  | inl n ↦ ground arith
  | inr n ↦ elim (Option-cases (split_once newline cs)) [
    | inl m ↦ ground arith
    | inr ((a, b), m) ↦ ground (arith, split_once-some cs a b m)
  ]
]

abbrev pub behind : Bytes → Option (Bytes × Bytes) → Option (Bytes × Bytes)
behind s none = none
behind s (some (l, r)) = some (s ++ l, r)

behind-cons :
    (c : ℕ) (s : Bytes) (o : Option (Bytes × Bytes))
    → behind (c ∷ s) o ≡ behind (c ∷ []) (behind s o)
behind-cons c s none = refl
behind-cons c s (some (l, r)) = refl

behind-nil : (o : Option (Bytes × Bytes)) → behind [] o ≡ o
behind-nil none = refl
behind-nil (some (l, r)) = refl

pub split_once-behind :
    (s t : Bytes) → plain s ≡ true → split_once newline (s ++ t) ≡ behind s (split_once newline t)
split_once-behind [] t p = sym (behind-nil (split_once newline t))
split_once-behind (c ∷ cs) t p = elim (Option-cases (split_once newline t)) [
  | inl n ↦ ground (arith, split_once-behind cs t)
  | inr ((l, r), n) ↦ ground (arith, split_once-behind cs t)
]

take-drop : (n : ℕ) (s : Bytes) → take n s ++ drop n s ≡ s
take-drop zero s = refl
take-drop (suc n) [] = refl
take-drop (suc n) (c ∷ cs) = ap (◌∷◌ c) (take-drop n cs)

-- To look behind what was scanned is to look at the whole buffer.
pub next_line-split_once :
    (n : ℕ) (s : Bytes) → plain (take n s) ≡ true → next_line n s ≡ split_once newline s
unfolding next_line
next_line-split_once n s p = elim (Option-cases (split_once newline (drop n s))) [
  | inl e ↦ ground (arith, split_once-behind (take n s) (drop n s), take-drop n s)
  | inr ((l, r), e) ↦ ground (arith, split_once-behind (take n s) (drop n s), take-drop n s)
]

but_last-length : (s : Bytes) → length (but_last s) ≤ length s
but_last-length [] = omega arith
but_last-length (c ∷ []) = omega arith
but_last-length (c ∷ d ∷ cs) = omega (arith, but_last-length (d ∷ cs))

pub trim_cr-length : (s : Bytes) → length (trim_cr s) ≤ length s
unfolding trim_cr
trim_cr-length s = ground (arith, but_last-length s)

plain_cons :
    (c : ℕ) (cs : Bytes) → plain (c ∷ cs) ≡ true → ((c == newline) ≡ false) × (plain cs ≡ true)
plain_cons c cs p = ground arith

module _ (is_utf8 : Bytes → Bool) (broke : Bool) where
  frames-other :
      (lines : List Bytes) (start : Bytes) (c : ℕ) (cs : Bytes)
      → (c == newline) ≡ false
      → frames is_utf8 broke lines start (c ∷ cs) ≡ frames is_utf8 broke lines (start ++ c ∷ []) cs
  unfolding frames
  frames-other lines start c cs n = rw n refl

  -- A line goes with the start that came before it.
  pub frames-line :
      (lines : List Bytes) (start l rest : Bytes)
      → plain l ≡ true
      → frames is_utf8 broke lines start (l ++ newline ∷ rest)
        ≡ after_line is_utf8 broke lines
            (trim_cr (start ++ l))
            (frames is_utf8 broke [] [] rest)
            (frames is_utf8 broke (lines ++ trim_cr (start ++ l) ∷ []) [] rest)
  unfolding frames
  frames-line lines start [] rest p = rw (append-nil start) refl
  frames-line lines start (c ∷ cs) rest p =
      let (n, q) = plain_cons c cs p in
      frames-other lines start c (cs ++ newline ∷ rest) n
      ∙ rw (← append_assoc start (c ∷ []) cs) (frames-line lines (start ++ c ∷ []) cs rest q)

  pub frames-tail :
      (lines : List Bytes) (start l : Bytes)
      → plain l ≡ true
      → frames is_utf8 broke lines start l ≡ frames is_utf8 broke lines (start ++ l) []
  frames-tail lines start [] p = rw (append-nil start) refl
  frames-tail lines start (c ∷ cs) p =
      let (n, q) = plain_cons c cs p in
      frames-other lines start c cs n
      ∙ rw (← append_assoc start (c ∷ []) cs) (frames-tail lines (start ++ c ∷ []) cs q)

module _ (cap : ℕ) where
  fits-other :
      (size : ℕ) (start : Bytes) (c : ℕ) (cs : Bytes)
      → (c == newline) ≡ false
      → fits cap size start (c ∷ cs) ≡ true
      → fits cap size (start ++ c ∷ []) cs ≡ true
  unfolding fits
  fits-other size start c cs n f =
      (&&_true (leb (size + length start) cap) (fits cap size (start ++ c ∷ []) cs) (rw n at f)).1

  pub fits-start :
      (size : ℕ) (start cs : Bytes) → fits cap size start cs ≡ true → size + length start ≤ cap
  unfolding fits
  fits-start size start [] f = leb→le _ _ f
  fits-start size start (c ∷ cs) f = leb→le _ _ (&&_true (leb (size + length start) cap) _ f).0

  pub fits-line :
      (size : ℕ) (start l rest : Bytes)
      → plain l ≡ true
      → fits cap size start (l ++ newline ∷ rest) ≡ true
      → (size + length (start ++ l) ≤ cap)
        × (fits cap (grown size (trim_cr (start ++ l))) [] rest ≡ true)
  unfolding fits
  fits-line size start [] rest p f = rw (append-nil start) (
    fits-start size start (newline ∷ rest) f,
    (&&_true (leb (size + length start) cap) (fits cap (grown size (trim_cr start)) [] rest) f).1,
  )
  fits-line size start (c ∷ cs) rest p f =
      let (n, q) = plain_cons c cs p in
      rw (← append_assoc start (c ∷ []) cs) (
        fits-line size (start ++ c ∷ []) cs rest q
          (fits-other size start c (cs ++ newline ∷ rest) n f))

  pub fits-tail :
      (size : ℕ) (start l rest : Bytes)
      → plain l ≡ true
      → fits cap size start (l ++ rest) ≡ true
      → size + length (start ++ l) ≤ cap
  fits-tail size start [] rest p f = rw (append-nil start) (fits-start size start rest f)
  fits-tail size start (c ∷ cs) rest p f =
      let (n, q) = plain_cons c cs p in
      rw (← append_assoc start (c ∷ []) cs)
        (fits-tail size (start ++ c ∷ []) cs rest q (fits-other size start c (cs ++ rest) n f))
