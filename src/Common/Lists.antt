-- ===== src/Common/Lists.antt =====
-- Lists measured and indexed by native numbers, under the library's names, with the library's
-- iterator methods (`any`, `all`, `retain`, `find`) over a Boolean test.
use Prim.Native.Nat.{ℕ, zero, suc, ◌+◌, ◌<◌}
use mathlib.Core.Path.{◌≡◌, refl, ap, ◌∙◌}
use mathlib.Core.Logic.{◌≢◌}
use mathlib.Core.Bool.{Bool, true, false, ◌&&◌, ◌||◌, not}
use mathlib.Core.List.{List, [], ◌∷◌, ◌++◌}
use mathlib.Core.Option.{Option, none, some}
use native.Mathlib.Omega.{arith}
use sandbx.Common.Tests.{if◌then◌else◌}

module _ {ℓ} {A : Type ℓ} where
  abbrev pub length : List A → ℕ
  length [] = 0
  length (x ∷ xs) = suc (length xs)

  abbrev pub get_elem? : List A → ℕ → Option A
  get_elem? [] i = none
  get_elem? (x ∷ xs) zero = some x
  get_elem? (x ∷ xs) (suc i) = get_elem? xs i

  abbrev pub drop : ℕ → List A → List A
  drop zero xs = xs
  drop (suc n) [] = []
  drop (suc n) (x ∷ xs) = drop n xs

  abbrev pub last? : List A → Option A
  last? [] = none
  last? (x ∷ []) = some x
  last? (x ∷ y ∷ xs) = last? (y ∷ xs)

  abbrev pub any : (A → Bool) → List A → Bool
  any p [] = false
  any p (x ∷ xs) = p x || any p xs

  abbrev pub all : (A → Bool) → List A → Bool
  all p [] = true
  all p (x ∷ xs) = p x && all p xs

  -- `Vec::retain`.
  abbrev pub retain : (A → Bool) → List A → List A
  retain p [] = []
  retain p (x ∷ xs) = if p x then x ∷ retain p xs else retain p xs

  abbrev pub is_empty : List A → Bool
  is_empty [] = true
  is_empty (x ∷ xs) = false

  abbrev pub is_some : Option A → Bool
  is_some none = false
  is_some (some a) = true

  -- `Option::or`.
  abbrev pub or_else : Option A → Option A → Option A
  or_else (some a) b = some a
  or_else none b = b

  pub length-append : (xs ys : List A) → length (xs ++ ys) ≡ length xs + length ys
  length-append [] ys = omega arith
  length-append (x ∷ xs) ys = omega (arith, length-append xs ys)

  pub all-append : (p : A → Bool) (xs ys : List A) → all p (xs ++ ys) ≡ (all p xs && all p ys)
  all-append p [] ys = refl
  all-append p (x ∷ xs) ys = ground (arith, all-append p xs ys)

  pub any-append : (p : A → Bool) (xs ys : List A) → any p (xs ++ ys) ≡ (any p xs || any p ys)
  any-append p [] ys = refl
  any-append p (x ∷ xs) ys = ground (arith, any-append p xs ys)

  pub any-false_all : (p : A → Bool) (xs : List A) → any p xs ≡ not (all (λ x. not (p x)) xs)
  any-false_all p [] = refl
  any-false_all p (x ∷ xs) = ground (arith, any-false_all p xs)

  -- A retained list is empty only where no element passes.
  pub retain-ne-nil : (p : A → Bool) (xs : List A) → any p xs ≡ true → retain p xs ≢ []
  retain-ne-nil p [] h = cc
  retain-ne-nil p (x ∷ xs) h = ground (arith, retain-ne-nil p xs)

  pub all-retain : (p : A → Bool) (xs : List A) → all p (retain p xs) ≡ true
  all-retain p [] = refl
  all-retain p (x ∷ xs) = ground (arith, all-retain p xs)

  pub retain-all : (p : A → Bool) (xs : List A) → all p xs ≡ true → retain p xs ≡ xs
  retain-all p [] h = refl
  retain-all p (x ∷ xs) h = ground (arith, retain-all p xs)

  pub retain-append :
      (p : A → Bool) (xs ys : List A) → retain p (xs ++ ys) ≡ retain p xs ++ retain p ys
  retain-append p [] ys = refl
  retain-append p (x ∷ xs) ys = ground (arith, retain-append p xs ys)

  pub get_elem?-lt : (xs : List A) (i : ℕ) {a : A} → get_elem? xs i ≡ some a → i < length xs
  get_elem?-lt [] i h = cc
  get_elem?-lt (x ∷ xs) zero h = omega arith
  get_elem?-lt (x ∷ xs) (suc i) h = omega (arith, get_elem?-lt xs i h)

  -- A list that was pushed to at its head, as it was pushed.
  abbrev pub oldest_first : List A → List A
  oldest_first [] = []
  oldest_first (x ∷ xs) = oldest_first xs ++ x ∷ []

  pub oldest_first-all : (p : A → Bool) (cs : List A) → all p (oldest_first cs) ≡ all p cs
  oldest_first-all p [] = refl
  oldest_first-all p (c ∷ cs) =
      all-append p (oldest_first cs) (c ∷ []) ∙ rw (oldest_first-all p cs) (ground arith)

  pub oldest_first-length : (cs : List A) → length (oldest_first cs) ≡ length cs
  oldest_first-length [] = refl
  oldest_first-length (c ∷ cs) =
      omega (arith, length-append (oldest_first cs) (c ∷ []), oldest_first-length cs)

  oldest_first-push : (cs : List A) (c : A) → oldest_first (cs ++ c ∷ []) ≡ c ∷ oldest_first cs
  oldest_first-push [] c = refl
  oldest_first-push (d ∷ cs) c = rw (oldest_first-push cs c) refl

  pub oldest_first-twice : (cs : List A) → oldest_first (oldest_first cs) ≡ cs
  oldest_first-twice [] = refl
  oldest_first-twice (c ∷ cs) =
      oldest_first-push (oldest_first cs) c ∙ ap (◌∷◌ c) (oldest_first-twice cs)
