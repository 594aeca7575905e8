-- ===== src/Common/Strings.antt =====
-- A Rust string is the list of its bytes. Text literals become such lists by `codes` (every literal
-- of the model is ASCII).
use Prim.Native.Nat.{ℕ}
use Prim.Native.Char.{code}
use Prim.Native.String.{String}
use mathlib.Core.Path.{◌≡◌, refl}
use mathlib.Core.Logic.{◌↔◌}
use mathlib.Core.Bool.{Bool, true, false, ◌&&◌, ◌||◌, not}
use mathlib.Core.List.{List, [], ◌∷◌, ◌++◌}
use native.Mathlib.Omega.{arith}
use sandbx.Common.Tests.{◌==◌, if◌then◌else◌}
use sandbx.Common.Lists.{all}
use mathlib.Core.Option.{Option, none, some}

abbrev pub Bytes : Type 0
Bytes = List ℕ

abbrev pub codes : String → Bytes
codes String.[] = []
codes (String.◌∷◌ c s) = code c ∷ codes s

abbrev pub str_eq : Bytes → Bytes → Bool
str_eq [] [] = true
str_eq (x ∷ xs) (y ∷ ys) = (x == y) && str_eq xs ys
str_eq _ _ = false

pub str_eq_refl : (s : Bytes) → str_eq s s ≡ true
str_eq_refl [] = refl
str_eq_refl (x ∷ xs) = ground (arith, str_eq_refl xs)

pub str_eq_iff : (s t : Bytes) → (str_eq s t ≡ true) ↔ (s ≡ t)
str_eq_iff [] [] = ground arith
str_eq_iff (x ∷ xs) (y ∷ ys) = ground (arith, str_eq_iff xs ys)
str_eq_iff _ _ = ground arith

-- `slice::contains` on strings.
abbrev pub contains : Bytes → List Bytes → Bool
contains s [] = false
contains s (t ∷ ts) = str_eq s t || contains s ts

-- Every element of the first list is one of the second.
abbrev pub AllIn : List Bytes → List Bytes → Type 0
AllIn [] ts = Unit {0}
AllIn (s ∷ ss) ts = (contains s ts ≡ true) × AllIn ss ts

pub AllIn-cons : (ss ts : List Bytes) (t : Bytes) → AllIn ss ts → AllIn ss (t ∷ ts)
AllIn-cons [] ts t h = tt
AllIn-cons (s ∷ ss) ts t h = (ground arith, AllIn-cons ss ts t h.1)

pub AllIn-refl : (ss : List Bytes) → AllIn ss ss
AllIn-refl [] = tt
AllIn-refl (s ∷ ss) = (ground (arith, str_eq_refl s), AllIn-cons ss ss s (AllIn-refl ss))

-- `str::split_once`, at an ASCII character.
abbrev pub split_once : ℕ → Bytes → Option (Bytes × Bytes)
split_once b [] = none
split_once b (c ∷ cs) =
    let rest = split_once b cs in
    if c == b
    then some ([], cs)
    else elim rest [ none ↦ none | some (before, after) ↦ some (c ∷ before, after) ]

pub split_once-append :
    (b : ℕ) (xs ys : Bytes)
    → all (λ c. not (c == b)) xs ≡ true
    → split_once b (xs ++ b ∷ ys) ≡ some (xs, ys)
split_once-append b [] ys a = rw same refl
  where
    same : (b == b) ≡ true
    same = ground arith
split_once-append b (x ∷ xs) ys a =
    let other : (x == b) ≡ false = ground (arith, a) in
    let more : all (λ c. not (c == b)) xs ≡ true = ground (arith, a) in
    rw other (rw (split_once-append b xs ys more) refl)
