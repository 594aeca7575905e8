-- ===== src/Core/Digest/Canonical.antt =====
-- The spellings of a digest.
use sandbx.Common.{
  not-false, ℕ, zero, suc, ◌+◌, ◌*◌, ◌/◌, ◌%◌, ◌<◌, ◌≤◌, Bool, true, false, not, ◌&&◌, List, [],
  ◌∷◌, ◌≡◌, refl, sym, ◌==◌, ==_iff, ltb, leb, Bytes, length, all_below, all_below-lt, &&_true,
  arith, ltb→lt, lt→ltb, subst, Bool-cases, inl, inr, if_elim,
}
use sandbx.Core.Digest.{
  character, wrong_length, Result, ok, err, char_count, nibble, joined, read_pairs, parse,
  hex_digit, display, hex_len, and_then,
}
use sandbx.Core.Digest.RoundTrip.{char_count-ascii, rejoins, bytes_rejoin}

-- What UTF-8 says of a byte that continues a character: it never stands first, nor behind an ASCII
-- byte.
abbrev well_formed : Bool → Bytes → Bool
well_formed ascii [] = true
well_formed ascii (b ∷ bs) = not (ascii && leb 0x80 b && ltb b 0xC0) && well_formed (ltb b 0x80) bs

abbrev pub is_text : Bytes → Bool
is_text bs = well_formed true bs

abbrev respells : ℕ → Result ℕ → Bool
respells c (ok a) = hex_digit a == c && ltb a 16 && ltb c 0x80
respells c (err e) = true

characters_respell : all_below 103 (λ c. respells c (nibble c)) ≡ true
unfolding nibble hex_digit
characters_respell = refl

nibble_high : (c : ℕ) → ltb c 103 ≡ false → nibble c ≡ err (character c)
unfolding nibble
nibble_high c e = ground arith

character_respells : (c : ℕ) → respells c (nibble c) ≡ true
character_respells c = elim (Bool-cases (ltb c 103)) [
  | inl e ↦ all_below-lt 103 (λ d. respells d (nibble d)) c characters_respell (ltb→lt c 103 e)
  | inr e ↦ rw (nibble_high c e) refl
]

nibble_sound : (c a : ℕ) → nibble c ≡ ok a → (hex_digit a ≡ c) × (a < 16) × (c < 0x80)
nibble_sound c a e =
    let r : (hex_digit a == c && ltb a 16 && ltb c 0x80) ≡ true = rw e at (character_respells c) in
    let (pq, z) = &&_true (hex_digit a == c && ltb a 16) (ltb c 0x80) r in
    let (x, y) = &&_true (hex_digit a == c) (ltb a 16) pq in
    ((==_iff (hex_digit a) c).0 x, ltb→lt a 16 y, ltb→lt c 0x80 z)

rejoined : (a b : ℕ) → a < 16 → b < 16 → joined a b ≡ a * 16 + b
rejoined a b l m =
    let k : (a * 16 + b) / 16 ≡ a = omega (arith, m) in
    let j : (a * 16 + b) % 16 ≡ b = omega (arith, m) in
    rw (k, j) at
      ((==_iff _ (a * 16 + b)).0
        (all_below-lt 256 rejoins (a * 16 + b) bytes_rejoin (omega (arith, l, m))))

-- Text without a character is empty.
no_characters : (cs : Bytes) → is_text cs ≡ true → char_count cs ≡ 0 → cs ≡ []
unfolding char_count
no_characters [] w e = refl
no_characters (c ∷ cs) w e = elim (Bool-cases (leb 0x80 c && ltb c 0xC0)) [
  | inl k ↦ cc (rw k at w)
  | inr k ↦ cc (rw k at e)
]

char_count-most : (cs : Bytes) → char_count cs ≤ length cs
unfolding char_count
char_count-most [] = omega arith
char_count-most (c ∷ cs) =
    if_elim (λ n. n ≤ suc (length cs)) (leb 0x80 c && ltb c 0xC0) (char_count cs)
      (suc (char_count cs)) (λ _. omega (arith, char_count-most cs))
      (λ _. omega (arith, char_count-most cs))

behind_ascii : (c : ℕ) (cs : Bytes) → c < 0x80 → is_text (c ∷ cs) ≡ true → is_text cs ≡ true
behind_ascii c cs l w =
    subst (λ b. well_formed b cs ≡ true) (lt→ltb c 0x80 l)
      ((&&_true (not (true && leb 0x80 c && ltb c 0xC0)) (well_formed (ltb c 0x80) cs) w).1)

display-pair :
    (h l high low : ℕ) (rest : List ℕ) (cs : Bytes)
    → nibble h ≡ ok high
    → nibble l ≡ ok low
    → display rest ≡ cs
    → display (joined high low ∷ rest) ≡ h ∷ l ∷ cs
unfolding display
display-pair h l high low rest cs p q e =
    let (x, a, c) = nibble_sound h high p in
    let (y, b, d) = nibble_sound l low q in
    let i : (high * 16 + low) / 16 ≡ high = omega (arith, b) in
    let j : (high * 16 + low) % 16 ≡ low = omega (arith, b) in
    rw (rejoined high low a b) (rw (i, j, x, y, e) refl)

ok-cases :
    {A B : Type 0} (r : Result A) (f : A → Result B) {b : B}
    → and_then r f ≡ ok b
    → (a : A) × (r ≡ ok a) × (f a ≡ ok b)
ok-cases (ok a) f e = (a, refl, e)
ok-cases (err x) f e = cc e

ok_injective : {A : Type 0} {a b : A} → Path (Result A) (ok a) (ok b) → a ≡ b
ok_injective e = cc e

display-read_pairs :
    (n : ℕ) (cs : Bytes) (bs : List ℕ)
    → is_text cs ≡ true
    → char_count cs ≡ 2 * n
    → read_pairs n cs ≡ ok bs
    → display bs ≡ cs
unfolding read_pairs
display-read_pairs zero cs bs w k e =
    rw (no_characters cs w (omega (arith, k)), sym (ok_injective e)) (unfold display in refl)
display-read_pairs (suc n) [] bs w k e =
    let bad : Path ℕ 1 0 = omega (arith, k, char_count-most []) in cc bad
display-read_pairs (suc n) (h ∷ []) bs w k e =
    let bad : Path ℕ 1 0 = omega (arith, k, char_count-most (h ∷ [])) in cc bad
display-read_pairs (suc n) (h ∷ l ∷ cs) bs w k e =
    let (high, p, e1) = ok-cases (nibble h) _ e in
    let (low, q, e2) = ok-cases (nibble l) _ e1 in
    let (rest, r, e3) = ok-cases (read_pairs n cs) _ e2 in
    let hs = nibble_sound h high p in
    let ls = nibble_sound l low q in
    let count : char_count cs ≡ 2 * n =
      omega (arith, k, char_count-ascii h (l ∷ cs) hs.2, char_count-ascii l cs ls.2) in
    let text : is_text cs ≡ true = behind_ascii l cs ls.2 (behind_ascii h (l ∷ cs) hs.2 w) in
    subst (λ x. display x ≡ h ∷ l ∷ cs) (ok_injective e3)
      (display-pair h l high low rest cs p q (display-read_pairs n cs rest text count r))

-- Of a text in which no byte that continues a character stands first or behind an ASCII byte, as in
-- UTF-8: if it parses to a digest, then that digest is written as the text.
pub display-parse :
    (hex : Bytes) (bs : List ℕ) → is_text hex ≡ true → parse hex ≡ ok bs → display bs ≡ hex
unfolding parse
display-parse hex bs w =
    if_elim (λ r. r ≡ ok bs → display bs ≡ hex) (not (char_count hex == hex_len))
      (err (wrong_length (char_count hex))) (read_pairs 32 hex) (λ n e. cc e)
      (λ n e.
        display-read_pairs 32 hex bs w
          ((==_iff (char_count hex) 64).0 (not-false (char_count hex == hex_len) n)) e)
