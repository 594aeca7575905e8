-- ===== src/Compact/Search.antt =====
-- The two searches of `plan_cut`, upwards and downwards, find the nearest hit.
use sandbx.Common.{
  ℕ, zero, suc, ◌+◌, ◌≤◌, ◌<◌, Bool, true, false, none, some, ◌≡◌, refl, ◌⊎◌, inl, inr, arith,
  Bool-cases, ==_iff, ◌==◌,
}
use sandbx.Compact.{find_up, find_down}

-- No index of the half-open range passes the test.
abbrev pub NoneIn : (ℕ → Bool) → ℕ → ℕ → Type 0
NoneIn p lo hi = (k : ℕ) → lo ≤ k → k < hi → p k ≡ false

NoneIn-snoc : (p : ℕ → Bool) (lo hi : ℕ) → p hi ≡ false → NoneIn p lo hi → NoneIn p lo (suc hi)
NoneIn-snoc p lo hi e h k l u = elim (Bool-cases (hi == k)) [
  | inl same ↦ let q : hi ≡ k = (==_iff hi k).0 same in rw (← q) e
  | inr other ↦ h k l (ground arith)
]

NoneIn-cons : (p : ℕ → Bool) (lo hi : ℕ) → p lo ≡ false → NoneIn p (suc lo) hi → NoneIn p lo hi
NoneIn-cons p lo hi e h k l u = elim (Bool-cases (lo == k)) [
  | inl same ↦ let q : lo ≡ k = (==_iff lo k).0 same in rw (← q) e
  | inr other ↦ h k (ground arith) u
]

abbrev pub First : (ℕ → Bool) → ℕ → ℕ → ℕ → Type 0
First p lo hi c = (p c ≡ true) × (lo ≤ c) × (c < hi) × NoneIn p lo c

abbrev pub Last : (ℕ → Bool) → ℕ → ℕ → ℕ → Type 0
Last p lo hi c = (p c ≡ true) × (lo ≤ c) × (c < hi) × NoneIn p (suc c) hi

pub find_up_cases :
    (p : ℕ → Bool) (n start : ℕ)
    → ((find_up p n start ≡ none) × NoneIn p start (start + n))
      ⊎ ((c : ℕ) × (find_up p n start ≡ some c) × First p start (start + n) c)
unfolding find_up
find_up_cases p zero start = inl (refl, λ k l u. absurd (omega arith))
find_up_cases p (suc n) start = elim (Bool-cases (p start)) [
  | inl hit ↦ inr (start, rw hit, (hit, omega arith, omega arith, λ k l u. absurd (omega arith)))
  | inr miss ↦ rw miss (elim (find_up_cases p n (suc start)) [
    | inl (e, h) ↦ inl (e, NoneIn-cons p start _ miss (λ k l u. h k l (omega arith)))
    | inr (c, e, f) ↦ inr (c, e, (f.0, omega arith, omega arith, NoneIn-cons p start c miss f.3))
  ])
]

pub find_down_cases :
    (p : ℕ → Bool) (n : ℕ)
    → ((find_down p n ≡ none) × NoneIn p 1 (suc n))
      ⊎ ((c : ℕ) × (find_down p n ≡ some c) × Last p 1 (suc n) c)
unfolding find_down
find_down_cases p zero = inl (refl, λ k l u. absurd (omega arith))
find_down_cases p (suc n) = elim (Bool-cases (p (suc n))) [
  | inl hit ↦ inr (suc n, rw hit, (hit, omega arith, omega arith, λ k l u. absurd (omega arith)))
  | inr miss ↦ rw miss (elim (find_down_cases p n) [
    | inl (e, h) ↦ inl (e, NoneIn-snoc p 1 (suc n) miss h)
    | inr (c, e, f) ↦ inr (c, e, (f.0, f.1, omega arith, NoneIn-snoc p (suc c) (suc n) miss f.3))
  ])
]
