-- ===== src/Compact/Cut.antt =====
-- `plan_cut` of crates/sandbx-compact/src/lib.rs against what its documentation promises.
use sandbx.Common.{
  get_elem?, Option-cases, ℕ, zero, suc, ◌+◌, ◌-◌, ◌≤◌, ◌<◌, true, List, Option, none, some, ◌≡◌,
  refl, ◌⊎◌, inl, inr, arith, Bool-cases, leb→le, ltb→lt, leb, ltb, get_elem?-lt, length, or_else,
}
use sandbx.Prompt.{RequestMessage}
use sandbx.Compact.Search.{NoneIn, First, Last, find_up_cases, find_down_cases}
use sandbx.Compact.{find_up, find_down, target, opens_a_request, plan_from, plan_cut}

target-le :
    (ceiling produced : ℕ) (keep : Option ℕ) (floor : ℕ)
    → target ceiling produced keep floor ≤ ceiling
unfolding target
target-le ceiling produced none floor = ground arith
target-le ceiling produced (some k) floor = ground arith

le-target :
    (ceiling produced : ℕ) (keep : Option ℕ) (floor : ℕ)
    → floor < ceiling
    → floor ≤ target ceiling produced keep floor
unfolding target
le-target ceiling produced none floor l = ground arith
le-target ceiling produced (some k) floor l = ground arith

module _ {Json : Type 0} where
  opens_a_request-bounds :
      (h : List (RequestMessage Json)) (c : ℕ)
      → opens_a_request h c ≡ true
      → (0 < c) × (c < length h)
  unfolding opens_a_request
  opens_a_request-bounds h c e = elim (Option-cases (get_elem? h c)) [
    | inl q ↦ ground arith
    | inr (m, q) ↦ let l = get_elem?-lt h c q in ground arith
  ]

  -- The result is the first legal cut at or after the target; failing that the deepest below it.
  -- There is none only where the target is 0 or no cut of the history is legal.
  abbrev pub IsPlan : List (RequestMessage Json) → ℕ → Option ℕ → Type 0
  IsPlan h target none = (target ≡ 0) ⊎ NoneIn (opens_a_request h) 1 (length h)
  IsPlan h target (some c) =
      First (opens_a_request h) target (length h) c
      ⊎ (NoneIn (opens_a_request h) target (length h) × Last (opens_a_request h) 1 target c)

  plan_from-suc :
      (h : List (RequestMessage Json)) (t : ℕ)
      → plan_from h (suc t)
        ≡ or_else
            (find_up (opens_a_request h) (length h - suc t) (suc t))
            (find_down (opens_a_request h) t)
  unfolding plan_from
  plan_from-suc h t = let e : suc t - 1 ≡ t = omega arith in rw e (ground arith)

  plan_from-IsPlan :
      (h : List (RequestMessage Json)) (target : ℕ)
      → target ≤ length h
      → IsPlan h target (plan_from h target)
  plan_from-IsPlan h zero l = unfold plan_from in inl refl
  plan_from-IsPlan h (suc t) l =
      let n : suc t + (length h - suc t) ≡ length h = omega arith in
      rw (plan_from-suc h t) (elim (find_up_cases (opens_a_request h) (length h - suc t) (suc t)) [
        | inr (c, e, f) ↦ rw e (inl (f.0, f.1, omega arith, f.3))
        | inl (e, up) ↦ elim (find_down_cases (opens_a_request h) t) [
          | inl (d, down) ↦
              rw (e, d)
                (inr (λ k lo hi. elim (Bool-cases (leb k t)) [
                  | inl below ↦ down k lo (ground arith)
                  | inr above ↦ up k (ground arith) (omega arith)
                ]))
          | inr (c, d, f) ↦ rw (e, d) (inr ((λ k lo hi. up k lo (omega arith)), f))
        ]
      ])

  -- `plan_cut` answers with the first legal cut at or after its target; failing that with the
  -- deepest legal cut below it; and with none only where the target is 0 or no cut is legal.
  pub plan_cut-IsPlan :
      (h : List (RequestMessage Json)) (produced : ℕ) (keep : Option ℕ) (floor : ℕ)
      → IsPlan h (target (length h) produced keep floor) (plan_cut h produced keep floor)
  unfolding plan_cut
  plan_cut-IsPlan h produced keep floor =
      plan_from-IsPlan h _ (target-le (length h) produced keep floor)

  not_below :
      (h : List (RequestMessage Json)) (t floor c : ℕ)
      → NoneIn (opens_a_request h) t (length h)
      → Last (opens_a_request h) 1 t c
      → opens_a_request h floor ≡ true
      → floor ≤ t
      → floor ≤ c
  not_below h t floor c up f e l = elim (Bool-cases (leb floor c)) [
    | inl y ↦ leb→le floor c y
    | inr n ↦ elim (Bool-cases (ltb floor t)) [
      | inl low ↦ cc (f.3 floor (ground arith) (ltb→lt floor t low))
      | inr high ↦ cc (up floor (ground arith) (opens_a_request-bounds h floor e).1)
    ]
  ]

  kept_floor :
      (h : List (RequestMessage Json)) (t floor : ℕ) (r : Option ℕ)
      → IsPlan h t r
      → opens_a_request h floor ≡ true
      → floor ≤ t
      → (c : ℕ) × (r ≡ some c) × (floor ≤ c) × (opens_a_request h c ≡ true)
  kept_floor h t floor none (inl z) e l =
      let b = opens_a_request-bounds h floor e in absurd (omega arith)
  kept_floor h t floor none (inr no_cut) e l =
      let b = opens_a_request-bounds h floor e in cc (no_cut floor b.0 b.1)
  kept_floor h t floor (some c) (inl f) e l = (c, refl, omega arith, f.0)
  kept_floor h t floor (some c) (inr (up, f)) e l = (c, refl, not_below h t floor c up f e l, f.0)

  -- Where the carried floor is itself a legal cut, `plan_cut` gives a legal cut, within budget and
  -- over it, and never a shallower one than the floor.
  pub plan_cut_holds_floor :
      (h : List (RequestMessage Json)) (produced : ℕ) (keep : Option ℕ) (floor : ℕ)
      → opens_a_request h floor ≡ true
      → (c : ℕ) × (plan_cut h produced keep floor ≡ some c)
        × (floor ≤ c)
        × (opens_a_request h c ≡ true)
  plan_cut_holds_floor h produced keep floor e =
      kept_floor h _ floor _ (plan_cut-IsPlan h produced keep floor) e
        (le-target (length h) produced keep floor (opens_a_request-bounds h floor e).1)

  plan-opens :
      (h : List (RequestMessage Json)) (t c : ℕ) → IsPlan h t (some c) → opens_a_request h c ≡ true
  plan-opens h t c (inl f) = f.0
  plan-opens h t c (inr (up, f)) = f.0

  -- Every cut that is planned is a legal one.
  pub plan_cut-opens :
      (h : List (RequestMessage Json)) (produced : ℕ) (keep : Option ℕ) (floor : ℕ) {c : ℕ}
      → plan_cut h produced keep floor ≡ some c
      → opens_a_request h c ≡ true
  plan_cut-opens h produced keep floor {c} e =
      plan-opens h (target (length h) produced keep floor) c
        (rw e at (plan_cut-IsPlan h produced keep floor))
