-- ===== src/Session/Store/Create.antt =====
-- The loop of `SessionStore::create`, which looks for a name that is free. What the clock reads at an
-- attempt and what opening a file with `O_EXCL` comes to then are arguments.
use sandbx.Common.{
  ℕ, zero, suc, ◌+◌, ◌<◌, ◌≤◌, ◌^◌, ◌≡◌, ◌≢◌, refl, ap, ◌∙◌, sym, Option, none, some, Bytes, arith,
  inl, inr, ◌⊎◌, Option-cases, subst,
}
use sandbx.Session.Id.{from_clock}
use sandbx.Session.Id.Distinct.{from_clock-distinct}

abbrev pub attempts : ℕ
attempts = 1000

-- What `open_at` gives.
pub data Opening : Type 0 where
  free taken broken : Opening

pub data Reserved : Type 0 where
  named : Bytes → Reserved
  no_clock io collision : Reserved

module _ (clock : ℕ → Option ℕ) (open_new : ℕ → Bytes → Opening) where
  -- The attempts that are left, and the next of them.
  unfoldable pub try_from : ℕ → ℕ → Reserved
  try_from zero attempt = collision
  try_from (suc left) attempt =
      let rest = try_from left (suc attempt) in
      elim (from_clock (clock attempt) attempt) [
        | none ↦ no_clock
        | some name ↦ elim (open_new attempt name) [
          | free ↦ named name
          | taken ↦ rest
          | broken ↦ io
        ]
      ]

  unfoldable pub reserve : Reserved
  reserve = try_from attempts 0

  -- The name of an attempt, and that it was taken.
  abbrev pub Refused : ℕ → Bytes → Type 0
  Refused attempt name =
      (from_clock (clock attempt) attempt ≡ some name) × (open_new attempt name ≡ taken)

  Opening-cases : (o : Opening) → (o ≡ taken) ⊎ (o ≢ taken)
  Opening-cases free = inr cc
  Opening-cases taken = inl refl
  Opening-cases broken = inr cc

  step-Refused :
      (left attempt : ℕ)
      → try_from (suc left) attempt ≡ collision
      → ((name : Bytes) × Refused attempt name) × (try_from left (suc attempt) ≡ collision)
  unfolding try_from
  step-Refused left attempt e = elim (Option-cases (from_clock (clock attempt) attempt)) [
    | inl n ↦ absurd (ground arith)
    | inr (name, n) ↦ go name n (open_new attempt name) refl
  ]
    where
      go :
          (name : Bytes)
          → from_clock (clock attempt) attempt ≡ some name
          → (o : Opening) → open_new attempt name ≡ o
          → ((b : Bytes) × Refused attempt b) × (try_from left (suc attempt) ≡ collision)
      go name n free o = absurd (ground arith)
      go name n taken o = ((name, (n, o)), ground arith)
      go name n broken o = absurd (ground arith)

  Refused-at :
      (left attempt i : ℕ)
      → try_from left attempt ≡ collision
      → i < left
      → (name : Bytes) × Refused (attempt + i) name
  Refused-at zero attempt i e l = absurd (omega arith)
  Refused-at (suc left) attempt zero e l =
      let same : attempt ≡ attempt + 0 = omega arith in
      subst (λ k. (name : Bytes) × Refused k name) same (step-Refused left attempt e).0
  Refused-at (suc left) attempt (suc i) e l =
      let same : suc attempt + i ≡ attempt + suc i = omega arith in
      subst (λ k. (name : Bytes) × Refused k name) same
        (Refused-at left (suc attempt) i (step-Refused left attempt e).1 (omega arith))

  -- The clock is not set back from one attempt to a later one, nor near the end of a `u64`.
  abbrev pub Forward : Type 0
  Forward =
      (i j m m' : ℕ)
      → i < j
      → clock i ≡ some m
      → clock j ≡ some m'
      → (m ≤ m') × (m' + attempts < 2 ^ 64)

  from_clock-read :
      (i : ℕ) (name : Bytes) → from_clock (clock i) i ≡ some name → (m : ℕ) × (clock i ≡ some m)
  unfolding from_clock
  from_clock-read i name e = elim (Option-cases (clock i)) [
    | inl n ↦ absurd (ground arith)
    | inr c ↦ c
  ]

  distinct_at :
      (i j : ℕ) (a b : Bytes) → Forward → i < j → j < attempts → Refused i a → Refused j b → a ≢ b
  distinct_at i j a b f l k (p, _) (q, _) e =
      let (m, c) = from_clock-read i a p in
      let (m', d) = from_clock-read j b q in
      let (le, bound) = f i j m m' l c d in
      from_clock-distinct m m' i j le l (omega arith)
        (sym (ap (λ o. from_clock o i) c) ∙ p ∙ ap some e ∙ sym q ∙ ap (λ o. from_clock o j) d)

  -- A search for a free name that ends in a collision has tried a name at each of its attempts, each
  -- of them was taken, and those of any two attempts differ, as long as the clock, which is read
  -- again at each attempt, is not set back and stays clear of the end of a `u64`.
  pub reserve-distinct :
      Forward
      → reserve ≡ collision
      → (i j : ℕ) → i < j
      → j < attempts
      → (a b : Bytes) × Refused i a × Refused j b × (a ≢ b)
  unfolding reserve
  reserve-distinct f e i j l k =
      let Tried : ℕ → Type 0 = λ n. (name : Bytes) × Refused n name in
      let first : 0 + i ≡ i = omega arith in
      let second : 0 + j ≡ j = omega arith in
      let (a, p) = subst Tried first (Refused-at attempts 0 i e (omega arith)) in
      let (b, q) = subst Tried second (Refused-at attempts 0 j e k) in
      (a, b, p, q, distinct_at i j a b f l k p q)
