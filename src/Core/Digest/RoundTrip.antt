-- ===== src/Core/Digest/RoundTrip.antt =====
-- Writing a digest and reading it back.
use sandbx.Common.{
  ℕ, suc, ◌*◌, ◌/◌, ◌%◌, ◌<◌, Bool, true, false, ◌&&◌, List, [], ◌∷◌, ◌≡◌, refl, sym, ap, ◌∙◌, ◌==◌,
  ==_iff, ltb, Bytes, length, all, all_below, all_below-lt, &&_true, arith, ltb→lt,
}
use sandbx.Core.Digest.{
  Result, ok, err, char_count, nibble, joined, read_pairs, parse, hex_digit, display, hex_len,
}

abbrev reads : Result ℕ → ℕ → Bool
reads (ok a) b = a == b
reads (err e) b = false

reads-ok : (r : Result ℕ) (b : ℕ) → reads r b ≡ true → r ≡ ok b
reads-ok (ok a) b e = ap ok ((==_iff a b).0 e)
reads-ok (err x) b e = cc e

-- A digit is one character, and the value it was written for.
abbrev sound : ℕ → Bool
sound d = reads (nibble (hex_digit d)) d && ltb (hex_digit d) 0x80

digits_sound : all_below 16 sound ≡ true
unfolding nibble hex_digit
digits_sound = refl

abbrev pub rejoins : ℕ → Bool
rejoins b = joined (b / 16) (b % 16) == b

pub bytes_rejoin : all_below 256 rejoins ≡ true
unfolding joined
bytes_rejoin = refl

digit_sound : (d : ℕ) → d < 16 → (nibble (hex_digit d) ≡ ok d) × (hex_digit d < 0x80)
digit_sound d l =
    let (r, a) =
      &&_true (reads (nibble (hex_digit d)) d) _ (all_below-lt 16 sound d digits_sound l) in
    (reads-ok (nibble (hex_digit d)) d r, ltb→lt (hex_digit d) 0x80 a)

-- A list of numbers that are each a byte.
abbrev pub is_bytes : List ℕ → Bool
is_bytes bs = all (λ b. ltb b 256) bs

read_pairs-display :
    (bs : List ℕ) → is_bytes bs ≡ true → read_pairs (length bs) (display bs) ≡ ok bs
unfolding read_pairs display
read_pairs-display [] e = refl
read_pairs-display (b ∷ bs) e =
    let (l, es) = &&_true (ltb b 256) (is_bytes bs) e in
    let lt = ltb→lt b 256 l in
    let high = digit_sound (b / 16) (omega (arith, lt)) in
    let low = digit_sound (b % 16) (omega arith) in
    let same : joined (b / 16) (b % 16) ≡ b =
      (==_iff (joined (b / 16) (b % 16)) b).0 (all_below-lt 256 rejoins b bytes_rejoin lt) in
    rw (high.0, low.0, read_pairs-display bs es) (ap (λ c. ok (c ∷ bs)) same)

pub char_count-ascii : (c : ℕ) (cs : Bytes) → c < 0x80 → char_count (c ∷ cs) ≡ suc (char_count cs)
unfolding char_count
char_count-ascii c cs l = ground arith

char_count-display : (bs : List ℕ) → is_bytes bs ≡ true → char_count (display bs) ≡ 2 * length bs
unfolding display
char_count-display [] e = unfold char_count in omega arith
char_count-display (b ∷ bs) e =
    let (l, es) = &&_true (ltb b 256) (is_bytes bs) e in
    let lt = ltb→lt b 256 l in
    let high = (digit_sound (b / 16) (omega (arith, lt))).1 in
    let low = (digit_sound (b % 16) (omega arith)).1 in
    let x = char_count-ascii (hex_digit (b / 16)) (hex_digit (b % 16) ∷ display bs) high in
    let y = char_count-ascii (hex_digit (b % 16)) (display bs) low in
    omega (arith, x, y, char_count-display bs es)

-- A digest of 32 bytes, written out, parses as itself.
pub parse-display : (bs : List ℕ) → length bs ≡ 32 → is_bytes bs ≡ true → parse (display bs) ≡ ok bs
unfolding parse
parse-display bs n e =
    let count : (char_count (display bs) == hex_len) ≡ true =
      (==_iff (char_count (display bs)) hex_len).1 (omega (arith, n, char_count-display bs e)) in
    rw count (ap (λ k. read_pairs k (display bs)) (sym n) ∙ read_pairs-display bs e)
