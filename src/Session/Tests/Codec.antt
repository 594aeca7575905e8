-- ===== src/Session/Tests/Codec.antt =====
-- Lines for the tests: a printer of records over numbers for JSON values, and a parser that reads back
-- what it prints.
use sandbx.Common.{
  ℕ, zero, suc, List, [], ◌∷◌, ◌++◌, ◌≡◌, refl, sym, ap, Option, none, some, Bytes, codes, length,
  ◌⊎◌, inl, inr, Bool, true, false,
}
use sandbx.Session.{
  Role, user, assistant, Content, text, tool_use, tool_result, Message, Usage, TurnStop, answered,
  round_limit, summarised, gate_aborted, interrupted, hung_up,
}
use sandbx.Session.Record.{Header, Accounting, Record, header, message, turn}
use mathlib.Core.List.{append_assoc, append-nil}

record Codec (A : Type 0) : Type 0 where
  pub enc : A → Bytes
  pub dec : Bytes → Option (A × Bytes)
  pub back : (a : A) (rest : Bytes) → dec (enc a ++ rest) ≡ some (a, rest)

abbrev dec_nat : Bytes → Option (ℕ × Bytes)
dec_nat [] = none
dec_nat (n ∷ rest) = some (n, rest)

abbrev nat : Codec ℕ
nat = record { enc = λ n. n ∷ []; dec = dec_nat; back = λ n rest. refl }

module _ {A B : Type 0} (a : Codec A) (b : Codec B) where
  abbrev dec_second : Option (A × Bytes) → Option ((A × B) × Bytes)
  dec_second none = none
  dec_second (some (x, rest)) = elim (b.dec rest) [
    | none ↦ none
    | some (y, rest') ↦ some ((x, y), rest')
  ]

  pair-back :
      (x : A) (y : B) (rest : Bytes)
      → dec_second (a.dec ((a.enc x ++ b.enc y) ++ rest)) ≡ some ((x, y), rest)
  pair-back x y rest =
      rw (append_assoc (a.enc x) (b.enc y) rest)
        (rw (a.back x (b.enc y ++ rest), dec_second) (rw (b.back y rest) refl))

  abbrev pair : Codec (A × B)
  pair = record {
    enc = λ (x, y). a.enc x ++ b.enc y;
    dec = λ bs. dec_second (a.dec bs);
    back = λ (x, y) rest. pair-back x y rest;
  }

  abbrev dec_left : Option (A × Bytes) → Option ((A ⊎ B) × Bytes)
  dec_left none = none
  dec_left (some (x, rest)) = some (inl x, rest)

  abbrev dec_right : Option (B × Bytes) → Option ((A ⊎ B) × Bytes)
  dec_right none = none
  dec_right (some (y, rest)) = some (inr y, rest)

  abbrev enc_sum : A ⊎ B → Bytes
  enc_sum (inl x) = 0 ∷ a.enc x
  enc_sum (inr y) = 1 ∷ b.enc y

  abbrev dec_sum : Bytes → Option ((A ⊎ B) × Bytes)
  dec_sum [] = none
  dec_sum (zero ∷ bs) = dec_left (a.dec bs)
  dec_sum (suc n ∷ bs) = dec_right (b.dec bs)

  sum-back : (s : A ⊎ B) (rest : Bytes) → dec_sum (enc_sum s ++ rest) ≡ some (s, rest)
  sum-back (inl x) rest = rw (a.back x rest) refl
  sum-back (inr y) rest = rw (b.back y rest) refl

  abbrev sum : Codec (A ⊎ B)
  sum = record { enc = enc_sum; dec = dec_sum; back = sum-back }

module _ {A B : Type 0} (a : Codec A) (to : B → A) (from : A → B)
    (same : (b : B) → from (to b) ≡ b) where
  abbrev dec_via : Option (A × Bytes) → Option (B × Bytes)
  dec_via none = none
  dec_via (some (x, rest)) = some (from x, rest)

  via-back : (b : B) (rest : Bytes) → dec_via (a.dec (a.enc (to b) ++ rest)) ≡ some (b, rest)
  via-back b rest = rw (a.back (to b) rest) (ap (λ x. some (x, rest)) (same b))

  abbrev via : Codec B
  via = record { enc = λ b. a.enc (to b); dec = λ bs. dec_via (a.dec bs); back = via-back }

module _ {A : Type 0} (a : Codec A) where
  abbrev enc_all : List A → Bytes
  enc_all [] = []
  enc_all (x ∷ xs) = a.enc x ++ enc_all xs

  abbrev dec_cons : A → Option (List A × Bytes) → Option (List A × Bytes)
  dec_cons x none = none
  dec_cons x (some (xs, rest)) = some (x ∷ xs, rest)

  abbrev dec_all : ℕ → Bytes → Option (List A × Bytes)
  dec_all zero bs = some ([], bs)
  dec_all (suc n) bs = elim (a.dec bs) [
    | none ↦ none
    | some (x, rest) ↦ dec_cons x (dec_all n rest)
  ]

  all-back :
      (xs : List A) (rest : Bytes) → dec_all (length xs) (enc_all xs ++ rest) ≡ some (xs, rest)
  all-back [] rest = refl
  all-back (x ∷ xs) rest =
      rw (append_assoc (a.enc x) (enc_all xs) rest)
        (rw (a.back x (enc_all xs ++ rest)) (rw (all-back xs rest) refl))

  abbrev dec_list : Bytes → Option (List A × Bytes)
  dec_list [] = none
  dec_list (n ∷ bs) = dec_all n bs

  abbrev many : Codec (List A)
  many = record { enc = λ xs. length xs ∷ enc_all xs; dec = dec_list; back = all-back }

abbrev word_of_stop : TurnStop → ℕ
word_of_stop answered = 0
word_of_stop round_limit = 1
word_of_stop summarised = 2
word_of_stop gate_aborted = 3
word_of_stop interrupted = 4
word_of_stop hung_up = 5

abbrev stop_of_word : ℕ → TurnStop
stop_of_word zero = answered
stop_of_word (suc zero) = round_limit
stop_of_word (suc (suc zero)) = summarised
stop_of_word (suc (suc (suc zero))) = gate_aborted
stop_of_word (suc (suc (suc (suc zero)))) = interrupted
stop_of_word _ = hung_up

stop-back : (s : TurnStop) → stop_of_word (word_of_stop s) ≡ s
stop-back answered = refl
stop-back round_limit = refl
stop-back summarised = refl
stop-back gate_aborted = refl
stop-back interrupted = refl
stop-back hung_up = refl

abbrev word_of_role : Role → ℕ
word_of_role user = 0
word_of_role assistant = 1

abbrev role_of_word : ℕ → Role
role_of_word zero = user
role_of_word _ = assistant

role-back : (r : Role) → role_of_word (word_of_role r) ≡ r
role-back user = refl
role-back assistant = refl

abbrev word_of_flag : Bool → ℕ
word_of_flag true = 1
word_of_flag false = 0

abbrev flag_of_word : ℕ → Bool
flag_of_word zero = false
flag_of_word _ = true

flag-back : (b : Bool) → flag_of_word (word_of_flag b) ≡ b
flag-back true = refl
flag-back false = refl

abbrev bytes : Codec Bytes
bytes = many nat

abbrev option_of : {A : Type 0} → ℕ ⊎ A → Option A
option_of (inl n) = none
option_of (inr x) = some x

abbrev of_option : {A : Type 0} → Option A → ℕ ⊎ A
of_option none = inl 0
of_option (some x) = inr x

option-back : {A : Type 0} → (o : Option A) → option_of (of_option o) ≡ o
option-back none = refl
option-back (some x) = refl

abbrev option : {A : Type 0} → Codec A → Codec (Option A)
option a = via (sum nat a) of_option option_of option-back

abbrev content_of : Bytes ⊎ ((Bytes × (Bytes × ℕ)) ⊎ (Bytes × (Bytes × Option Bool))) → Content ℕ
content_of (inl t) = text t
content_of (inr (inl (i, (n, j)))) = tool_use i n j
content_of (inr (inr (i, (c, e)))) = tool_result i c e

abbrev of_content : Content ℕ → Bytes ⊎ ((Bytes × (Bytes × ℕ)) ⊎ (Bytes × (Bytes × Option Bool)))
of_content (text t) = inl t
of_content (tool_use i n j) = inr (inl (i, (n, j)))
of_content (tool_result i c e) = inr (inr (i, (c, e)))

content-back : (c : Content ℕ) → content_of (of_content c) ≡ c
content-back (text t) = refl
content-back (tool_use i n j) = refl
content-back (tool_result i c e) = refl

abbrev flag : Codec Bool
flag = via nat word_of_flag flag_of_word flag-back

abbrev content : Codec (Content ℕ)
content =
    via (sum bytes (sum (pair bytes (pair bytes nat)) (pair bytes (pair bytes (option flag)))))
      of_content content_of content-back

abbrev message_codec : Codec (Message ℕ)
message_codec =
    via (pair (via nat word_of_role role_of_word role-back) (many content))
      (λ m. (m.role, m.content)) (λ (r, c). record { role = r; content = c }) (λ m. refl)

abbrev usage : Codec Usage
usage =
    via (pair (option nat) (pair (option nat) (option nat)))
      (λ u. (u.input_tokens, (u.cache_read_input_tokens, u.cache_creation_input_tokens)))
      (λ (i, (r, c)). record {
        input_tokens = i;
        cache_read_input_tokens = r;
        cache_creation_input_tokens = c;
      })
      (λ u. refl)

abbrev accounting : Codec Accounting
accounting =
    via (pair (option usage) (pair nat (option (via nat word_of_stop stop_of_word stop-back))))
      (λ a. (a.observed, (a.withheld, a.stop)))
      (λ (o, (w, s)). record { observed = o; withheld = w; stop = s }) (λ a. refl)

abbrev header_codec : Codec Header
header_codec =
    via (pair nat (pair bytes nat)) (λ h. (h.version, (h.id, h.created_at_millis)))
      (λ (v, (i, c)). record { version = v; id = i; created_at_millis = c }) (λ h. refl)

abbrev record_of : Header ⊎ Message ℕ ⊎ Accounting → Record ℕ
record_of (inl h) = header h
record_of (inr (inl m)) = message m
record_of (inr (inr t)) = turn t

abbrev of_record : Record ℕ → Header ⊎ Message ℕ ⊎ Accounting
of_record (header h) = inl h
of_record (message m) = inr (inl m)
of_record (turn t) = inr (inr t)

record-back : (r : Record ℕ) → record_of (of_record r) ≡ r
record-back (header h) = refl
record-back (message m) = refl
record-back (turn t) = refl

abbrev line : Codec (Record ℕ)
line = via (sum header_codec (sum message_codec accounting)) of_record record_of record-back

pub print : Record ℕ → Bytes
print r = line.enc r

-- A line is a record with nothing behind it.
abbrev whole : Option (Record ℕ × Bytes) → Option (Record ℕ)
whole (some (r, [])) = some r
whole _ = none

pub parse : Bytes → Option (Record ℕ)
parse bs = whole (line.dec bs)

pub parse-print : (r : Record ℕ) → parse (print r) ≡ some r
unfolding parse print
parse-print r = rw (sym (append-nil (print r))) (ap whole (line.back r []))

-- The start of a message's line.
abbrev pub started : Bytes
started = 1 ∷ 0 ∷ []

pub parse-started : parse started ≡ none
unfolding parse
parse-started = refl

abbrev pub ask : Message ℕ
ask = record { role = user; content = text (codes "list it") ∷ [] }

-- With a whole line behind it, it is no line.
pub parse-glued : parse (started ++ print (message ask)) ≡ none
unfolding parse print
parse-glued = refl
