-- ===== src/Core/Decimal.antt =====
-- How a number is printed in decimal, and read by the `FromStr` of an unsigned integer: digits behind a
-- plus that may be left out, no more than the type holds.
use sandbx.Common.{
  ℕ, zero, suc, ◌+◌, ◌*◌, ◌-◌, ◌/◌, ◌%◌, ◌^◌, ◌<◌, Bool, true, false, ◌&&◌, [], ◌∷◌, ◌++◌, ◌≡◌,
  refl, sym, ap, ◌∙◌, Option, none, some, Bytes, codes, ◌==◌, leb, if◌then◌else◌, is_empty,
  oldest_first, arith, Bool-cases, inl, inr, ==_iff, if_elim, all, oldest_first-all, subst,
}

-- The digits, the last first.
unfoldable pub places_of : ℕ → ℕ → Bytes
places_of zero value = []
places_of (suc n) value =
    let rest = places_of n (value / 10) in if value == 0 then [] else (value % 10 + 48) ∷ rest

-- Of a number below 10 ^ 20, as every `u64` is.
unfoldable pub decimal : ℕ → Bytes
decimal value = if value == 0 then codes "0" else oldest_first (places_of 20 value)

abbrev step : Option ℕ → ℕ → Option ℕ
step none c = none
step (some acc) c = if leb 48 c && leb c 57 then some (acc * 10 + (c - 48)) else none

abbrev read_digits : Option ℕ → Bytes → Option ℕ
read_digits acc [] = acc
read_digits acc (c ∷ cs) = read_digits (step acc c) cs

abbrev bounded : ℕ → Option ℕ → Option ℕ
bounded limit none = none
bounded limit (some value) = if leb value limit then some value else none

abbrev without_plus : Bytes → Bytes
without_plus [] = []
without_plus (c ∷ cs) = if c == 43 then cs else c ∷ cs

-- `str::parse`, into a type whose largest number is `limit`.
unfoldable pub parse_uint : ℕ → Bytes → Option ℕ
parse_uint limit s =
    let digits = without_plus s in
    if is_empty digits then none else bounded limit (read_digits (some 0) digits)

read_digits-append :
    (acc : Option ℕ) (xs : Bytes) (c : ℕ)
    → read_digits acc (xs ++ c ∷ []) ≡ step (read_digits acc xs) c
read_digits-append acc [] c = refl
read_digits-append acc (x ∷ xs) c = read_digits-append (step acc x) xs c

step-digit : (acc d : ℕ) → d < 10 → step (some acc) (d + 48) ≡ some (acc * 10 + d)
step-digit acc d l = ground arith

abbrev cap : ℕ → ℕ
cap zero = 1
cap (suc n) = 10 * cap n

read_digits-places_of :
    (n value : ℕ)
    → value < cap n
    → read_digits (some 0) (oldest_first (places_of n value)) ≡ some value
unfolding places_of
read_digits-places_of zero value l = ap some (omega (arith, l))
read_digits-places_of (suc n) value l = elim (Bool-cases (value == 0)) [
  | inl z ↦ rw z (ap some (sym ((==_iff value 0).0 z)))
  | inr z ↦
      let low : value / 10 < cap n = omega (arith, l) in
      rw z (
        read_digits-append (some 0) (oldest_first (places_of n (value / 10))) (value % 10 + 48)
        ∙ ap (λ o. step o (value % 10 + 48)) (read_digits-places_of n (value / 10) low)
        ∙ step-digit (value / 10) (value % 10) (omega arith)
        ∙ ap some (omega arith))
]

abbrev pub is_digit : ℕ → Bool
is_digit c = leb 48 c && leb c 57

places_of-all : (n value : ℕ) → all is_digit (places_of n value) ≡ true
unfolding places_of
places_of-all zero value = refl
places_of-all (suc n) value =
    if_elim (λ cs. all is_digit cs ≡ true) (value == 0) _ _ (λ _. refl)
      (λ _. ground (arith, places_of-all n (value / 10)))

nonzero : (value : ℕ) → (some 0 ≡ some value) → (value == 0) ≡ false → ⊥
nonzero value r z = ground (arith, r, z)

-- Digits that are read as a positive number are not cut short by a plus.
unsigned :
    (limit value : ℕ) (cs : Bytes)
    → all is_digit cs ≡ true
    → read_digits (some 0) cs ≡ some value
    → (value == 0) ≡ false
    → leb value limit ≡ true
    → parse_uint limit cs ≡ some value
unfolding parse_uint
unsigned limit value [] a r z b = absurd (nonzero value r z)
unsigned limit value (c ∷ cs) a r z b =
    let plus : (c == 43) ≡ false = ground (arith, a) in rw plus (rw r (rw b refl))

read_zero : (limit value : ℕ) → value ≡ 0 → parse_uint limit (codes "0") ≡ some value
unfolding parse_uint
read_zero limit value e = ground (arith, e)

-- A number of the type reads back as it was printed.
pub parse_uint-decimal :
    (limit value : ℕ)
    → leb value limit ≡ true
    → value < 2 ^ 64
    → parse_uint limit (decimal value) ≡ some value
unfolding decimal
parse_uint-decimal limit value b l =
    if_elim (λ cs. parse_uint limit cs ≡ some value) (value == 0) _ _
      (λ z. read_zero limit value ((==_iff value 0).0 z))
      (λ z.
        unsigned limit value (oldest_first (places_of 20 value))
          (oldest_first-all is_digit (places_of 20 value) ∙ places_of-all 20 value)
          (read_digits-places_of 20 value (omega (arith, l))) z b)

pub decimal-digits : (value : ℕ) → all is_digit (decimal value) ≡ true
unfolding decimal
decimal-digits value =
    if_elim (λ cs. all is_digit cs ≡ true) (value == 0) _ _ (λ _. refl)
      (λ _. oldest_first-all is_digit (places_of 20 value) ∙ places_of-all 20 value)

abbrev in_bound : ℕ → Option ℕ → Bool
in_bound limit none = true
in_bound limit (some k) = leb k limit

bounded-bound : (limit n : ℕ) (o : Option ℕ) → bounded limit o ≡ some n → leb n limit ≡ true
bounded-bound limit n none e = cc e
bounded-bound limit n (some value) e =
    if_elim (λ o. o ≡ some n → leb n limit ≡ true) (leb value limit) _ _
      (λ b q. subst (λ o. in_bound limit o ≡ true) q b) (λ b q. cc q) e

pub parse_uint-bound : (limit n : ℕ) (s : Bytes) → parse_uint limit s ≡ some n → leb n limit ≡ true
unfolding parse_uint
parse_uint-bound limit n s =
    if_elim (λ o. o ≡ some n → leb n limit ≡ true) (is_empty (without_plus s)) _ _ (λ z e. cc e)
      (λ z. bounded-bound limit n (read_digits (some 0) (without_plus s)))
