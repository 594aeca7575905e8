-- ===== src/Session/Id/Distinct.antt =====
-- The names that the clock gives are legal, and differ from attempt to attempt.
use sandbx.Common.{
  oldest_first, oldest_first-all, oldest_first-length, oldest_first-twice, all_below, all_below-lt,
  ℕ, zero, suc, ◌+◌, ◌*◌, ◌/◌, ◌%◌, ◌^◌, ◌<◌, ◌≤◌, Bool, true, false, ◌&&◌, [], ◌∷◌, ◌++◌, ◌≡◌, ◌≢◌,
  refl, sym, ap, ◌∙◌, some, ◌==◌, ltb, if◌then◌else◌, if_elim, Bytes, codes, length, all, arith,
  is_empty, &&_true, ==_iff,
}
use sandbx.Session.Id.{
  alphabet, in_alphabet, digit, digits_of, base36, from_str, from_clock, accepted, saturating_add,
}

-- The place of a character in the alphabet.
abbrev place_in : Bytes → ℕ → ℕ
place_in [] c = 0
place_in (a ∷ as') c = if a == c then 0 else suc (place_in as' c)

place : ℕ → ℕ
place c = place_in alphabet c

abbrev sound : ℕ → Bool
sound d = in_alphabet (digit d) && (place (digit d) == d)

digits_sound : all_below 36 sound ≡ true
unfolding in_alphabet digit place
digits_sound = refl

-- What digits, the last first, stand for.
abbrev value_of : Bytes → ℕ
value_of [] = 0
value_of (c ∷ cs) = place c + 36 * value_of cs

abbrev cap : ℕ → ℕ
cap zero = 1
cap (suc n) = 36 * cap n

digit_back : (d : ℕ) → d < 36 → (in_alphabet (digit d) ≡ true) × (place (digit d) ≡ d)
digit_back d l =
    let (a, b) = &&_true (in_alphabet (digit d)) _ (all_below-lt 36 sound d digits_sound l) in
    (a, (==_iff (place (digit d)) d).0 b)

value_of-digits_of : (n v : ℕ) → v < cap n → value_of (digits_of n v) ≡ v
unfolding digits_of
value_of-digits_of zero v l = omega (arith, l)
value_of-digits_of (suc n) v l =
    if_elim (λ cs. value_of cs ≡ v) (v == 0) _ _ (λ z. sym ((==_iff v 0).0 z))
      (λ _.
        let b = (digit_back (v % 36) (omega arith)).1 in
        let r = value_of-digits_of n (v / 36) (omega (arith, l)) in omega (arith, b, r))

all-digits_of : (n v : ℕ) → all in_alphabet (digits_of n v) ≡ true
unfolding digits_of
all-digits_of zero v = refl
all-digits_of (suc n) v =
    if_elim (λ cs. all in_alphabet cs ≡ true) (v == 0) _ _ (λ _. refl)
      (λ _. rw ((digit_back (v % 36) (omega arith)).0) (all-digits_of n (v / 36)))

length-digits_of : (n v : ℕ) → length (digits_of n v) ≤ n
unfolding digits_of
length-digits_of zero v = omega arith
length-digits_of (suc n) v =
    if_elim (λ cs. length cs ≤ suc n) (v == 0) [] (digit (v % 36) ∷ digits_of n (v / 36))
      (λ _. omega arith) (λ _. omega (arith, length-digits_of n (v / 36)))

-- The number that a name spells.
abbrev spelled : Bytes → ℕ
spelled name = value_of (oldest_first name)

spelled-base36 : (v : ℕ) → v < 2 ^ 64 → spelled (base36 v) ≡ v
unfolding base36
spelled-base36 v l =
    if_elim (λ cs. spelled cs ≡ v) (v == 0) _ _ (λ z. unfold place in sym ((==_iff v 0).0 z))
      (λ _.
        ap value_of (oldest_first-twice (digits_of 13 v))
        ∙ value_of-digits_of 13 v (omega (arith, l)))

-- A later attempt, at a clock that was not set back in between, tries another name, as long as the
-- clock and the attempt stay within a `u64`.
pub from_clock-distinct :
    (m m' a b : ℕ)
    → m ≤ m'
    → a < b
    → m' + b < 2 ^ 64
    → from_clock (some m) a ≢ from_clock (some m') b
unfolding from_clock
from_clock-distinct m m' a b le lt r e =
    let x : saturating_add m a ≡ m + a = omega (arith, r) in
    let y : saturating_add m' b ≡ m' + b = omega (arith, r) in
    let same : base36 (saturating_add m a) ≡ base36 (saturating_add m' b) = cc e in
    let p = spelled-base36 (saturating_add m a) (omega (arith, r)) in
    let q = spelled-base36 (saturating_add m' b) (omega (arith, r)) in
    omega (arith, x, y, sym p ∙ ap spelled same ∙ q)

from_str_takes :
    (cs : Bytes)
    → is_empty cs ≡ false
    → length cs ≤ 32
    → all in_alphabet cs ≡ true
    → from_str cs ≡ accepted cs
unfolding from_str
from_str_takes cs e n a =
    let short : ltb 32 (length cs) ≡ false = ground arith in rw (e, short, a) refl

append_not_empty : (cs : Bytes) (c : ℕ) → is_empty (cs ++ c ∷ []) ≡ false
append_not_empty [] c = refl
append_not_empty (d ∷ cs) c = refl

digits_of_positive :
    (n v : ℕ) → (v == 0) ≡ false → is_empty (oldest_first (digits_of (suc n) v)) ≡ false
unfolding digits_of
digits_of_positive n v z = rw z (append_not_empty (oldest_first (digits_of n (v / 36))) _)

-- `from_str` takes every name that the clock gives.
from_str-base36 : (v : ℕ) → from_str (base36 v) ≡ accepted (base36 v)
unfolding base36
from_str-base36 v =
    if_elim (λ cs. from_str cs ≡ accepted cs) (v == 0) _ _
      (λ _. from_str_takes (codes "0") refl (omega arith) (unfold in_alphabet in refl))
      (λ z.
        from_str_takes (oldest_first (digits_of 13 v)) (digits_of_positive 12 v z)
          (omega (arith, oldest_first-length (digits_of 13 v), length-digits_of 13 v))
          (oldest_first-all in_alphabet (digits_of 13 v) ∙ all-digits_of 13 v))
