-- ===== src/Session/Id.antt =====
-- crates/sandbx-session-id/src/lib.rs: a session's name. The clock is an argument; without one it
-- stands before the epoch or past the range of `u64`.
pub mod Distinct
use sandbx.Common.{
  oldest_first, ℕ, zero, suc, ◌+◌, ◌/◌, ◌%◌, ◌^◌, ◌-◌, min, Bool, true, false, not, List, [], ◌∷◌,
  Option, none, some, ◌==◌, ltb, if◌then◌else◌, Bytes, codes, get_elem?, length, any, all, is_empty,
}

abbrev pub alphabet : Bytes
alphabet = codes "0123456789abcdefghijklmnopqrstuvwxyz"

abbrev pub max_length : ℕ
max_length = 32

pub data InvalidIdentifier : Type 0 where
  empty too_long illegal : InvalidIdentifier

pub data Parsed : Type 0 where
  accepted : Bytes → Parsed
  refused : InvalidIdentifier → Parsed

-- `ALPHABET.contains(&byte)`.
unfoldable pub in_alphabet : ℕ → Bool
in_alphabet byte = any (λ a. a == byte) alphabet

unfoldable pub from_str : Bytes → Parsed
from_str value =
    if is_empty value
    then refused empty
    else if ltb max_length (length value)
    then refused too_long
    else if not (all in_alphabet value)
    then refused illegal
    else accepted value

abbrev or_zero : Option ℕ → ℕ
or_zero none = 0
or_zero (some c) = c

-- `ALPHABET[digit]`; the remainder of a division by 36 is always in range.
unfoldable pub digit : ℕ → ℕ
digit d = or_zero (get_elem? alphabet d)

-- The digits that the loop pushes, the last first. A `u64` has at most 13.
unfoldable pub digits_of : ℕ → ℕ → Bytes
digits_of zero value = []
digits_of (suc n) value =
    let rest = digits_of n (value / 36) in if value == 0 then [] else digit (value % 36) ∷ rest

unfoldable pub base36 : ℕ → Bytes
base36 value = if value == 0 then codes "0" else oldest_first (digits_of 13 value)

-- `millis.saturating_add(attempt)` on `u64`.
abbrev pub saturating_add : ℕ → ℕ → ℕ
saturating_add millis attempt = min (millis + attempt) (2 ^ 64 - 1)

unfoldable pub from_clock : Option ℕ → ℕ → Option Bytes
from_clock none attempt = none
from_clock (some millis) attempt = some (base36 (saturating_add millis attempt))
