-- ===== src/Core/Digest.antt =====
-- crates/sandbx-core/src/sha256_digest.rs: a digest as it is written. Hashing and opening the file are
-- left out. A character of a string is a byte that does not continue one, as UTF-8 has it.
pub mod RoundTrip
pub mod Canonical
use Prim.Native.Nat.{bit_or}
use sandbx.Common.{
  ℕ, zero, suc, ◌+◌, ◌-◌, ◌*◌, ◌/◌, ◌%◌, Bool, true, false, not, ◌&&◌, List, [], ◌∷◌, ◌++◌, Option,
  none, some, ◌==◌, ltb, leb, if◌then◌else◌, Bytes, codes, get_elem?, length,
}

abbrev pub hex_len : ℕ
hex_len = 64

pub data DigestParseError : Type 0 where
  wrong_length character : ℕ → DigestParseError

pub data Result {ℓ} (A : Type ℓ) : Type ℓ where
  ok : A → Result A
  err : DigestParseError → Result A

-- `hex.chars().count()`.
unfoldable pub char_count : Bytes → ℕ
char_count [] = 0
char_count (b ∷ bs) =
    let rest = char_count bs in if leb 0x80 b && ltb b 0xC0 then rest else suc rest

unfoldable pub nibble : ℕ → Result ℕ
nibble byte =
    if leb 48 byte && leb byte 57
    then ok (byte - 48)
    else if leb 97 byte && leb byte 102
    then ok (byte - 97 + 10)
    else err (character byte)

abbrev pub and_then {ℓ κ} : {A : Type ℓ} {B : Type κ} → Result A → (A → Result B) → Result B
and_then (ok a) f = f a
and_then (err e) f = err e

abbrev zeros : ℕ → List ℕ
zeros zero = []
zeros (suc n) = 0 ∷ zeros n

-- `high << 4 | low` on `u8`.
unfoldable pub joined : ℕ → ℕ → ℕ
joined high low = bit_or (high * 16 % 256) low

-- Pairs into the bytes left to fill; a byte without a pair stays zero.
unfoldable pub read_pairs : ℕ → Bytes → Result (List ℕ)
read_pairs zero cs = ok []
read_pairs (suc n) [] = ok (zeros (suc n))
read_pairs (suc n) (h ∷ []) = ok (zeros (suc n))
read_pairs (suc n) (h ∷ l ∷ cs) =
    let rest = read_pairs n cs in
    and_then (nibble h)
      (λ high. and_then (nibble l) (λ low. and_then rest (λ bytes. ok (joined high low ∷ bytes))))

unfoldable pub parse : Bytes → Result (List ℕ)
parse hex =
    if not (char_count hex == hex_len)
    then err (wrong_length (char_count hex))
    else read_pairs 32 hex

abbrev or_zero : Option ℕ → ℕ
or_zero none = 0
or_zero (some c) = c

-- A digit of `{:02x}`.
unfoldable pub hex_digit : ℕ → ℕ
hex_digit d = or_zero (get_elem? (codes "0123456789abcdef") d)

-- `Display`: each byte by `{:02x}`.
unfoldable pub display : List ℕ → Bytes
display [] = []
display (b ∷ bs) = hex_digit (b / 16) ∷ hex_digit (b % 16) ∷ display bs
