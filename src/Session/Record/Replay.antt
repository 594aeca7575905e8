-- ===== src/Session/Record/Replay.antt =====
-- How the lines behind a whole transcript go on replaying.
use sandbx.Common.{
  ℕ, suc, ◌+◌, Bool, false, ◌&&◌, List, [], ◌∷◌, ◌++◌, ◌≡◌, refl, ap, sym, ◌∙◌, arith, Option, none,
  some, Bytes, length, is_empty, Option-cases, inl, inr, ◌==◌, if◌then◌else◌, Bool-cases,
}
use sandbx.Session.Record.{
  Header, Record, header, message, turn, Replayed, replayed, ok, err, malformed,
  unsupported_version, take_record, foreign, fold_rest, first_record, fold, version, no_accounting,
}

module _ {Json : Type 0} (parse : Bytes → Option (Record Json)) where
  pub fold_rest-good :
      (torn : Bool) (index : ℕ) (x : Bytes) (xs : List Bytes) (r : Replayed Json)
      (rec : Record Json)
      → parse x ≡ some rec
      → foreign rec ≡ none
      → fold_rest parse torn index (x ∷ xs) r
        ≡ fold_rest parse torn (index + 1) xs (take_record rec r)
  unfolding fold_rest
  fold_rest-good torn index x xs r rec p f = rw (p, fold_rest) (rw (f, fold_rest) refl)

  fold_rest-foreign :
      (torn : Bool) (index : ℕ) (x : Bytes) (xs : List Bytes) (r : Replayed Json)
      (rec : Record Json) (v : ℕ)
      → parse x ≡ some rec
      → foreign rec ≡ some v
      → fold_rest parse torn index (x ∷ xs) r ≡ err (unsupported_version v)
  unfolding fold_rest
  fold_rest-foreign torn index x xs r rec v p f = rw (p, fold_rest) (rw (f, fold_rest) refl)

  pub fold_rest-garbage :
      (torn : Bool) (index : ℕ) (x : Bytes) (xs : List Bytes) (r : Replayed Json)
      → parse x ≡ none
      → fold_rest parse torn index (x ∷ xs) r
        ≡ (if torn && is_empty xs then ok r else err (malformed (index + 1)))
  unfolding fold_rest
  fold_rest-garbage torn index x xs r p = rw (p, fold_rest) refl

  -- Lines that replay go on to the lines behind them.
  pub fold_rest-append :
      (torn : Bool) (index : ℕ) (xs ys : List Bytes) (r r' : Replayed Json)
      → fold_rest parse false index xs r ≡ ok r'
      → fold_rest parse torn index (xs ++ ys) r ≡ fold_rest parse torn (index + length xs) ys r'
  fold_rest-append torn index [] ys r r' e =
      unfold fold_rest in
      (let z : index + 0 ≡ index = omega arith in let same : r ≡ r' = cc e in rw (z, same))
  fold_rest-append torn index (x ∷ xs) ys r r' e = elim (Option-cases (parse x)) [
    | inl p ↦ cc (sym (fold_rest-garbage false index x xs r p) ∙ e)
    | inr (rec, p) ↦ elim (Option-cases (foreign rec)) [
      | inr (v, f) ↦ cc (sym (fold_rest-foreign false index x xs r rec v p f) ∙ e)
      | inl f ↦
          let z : index + 1 + length xs ≡ index + suc (length xs) = omega arith in
          fold_rest-good torn index x (xs ++ ys) r rec p f
          ∙ fold_rest-append torn (index + 1) xs ys (take_record rec r) r'
              (sym (fold_rest-good false index x xs r rec p f) ∙ e)
          ∙ ap (λ i. fold_rest parse torn i ys r') z
    ]
  ]

  first_record-append :
      (torn : Bool) (ls ys : List Bytes) (rec : Record Json) (r : Replayed Json)
      → first_record parse false ls rec ≡ ok r
      → first_record parse torn (ls ++ ys) rec ≡ fold_rest parse torn (suc (length ls)) ys r
  unfolding first_record
  first_record-append torn ls ys (message m) r e = cc
  first_record-append torn ls ys (turn t) r e = cc
  first_record-append torn ls ys (header h) r e = elim (Bool-cases (h.version == version)) [
    | inl v ↦
        let n : 1 + length ls ≡ suc (length ls) = omega arith in
        rw v (
          fold_rest-append torn 1 ls ys (replayed [] no_accounting) r (rw v at e)
          ∙ ap (λ i. fold_rest parse torn i ys r) n)
    | inr v ↦ cc (rw v at e)
  ]

  -- A whole transcript that replays goes on to the lines behind it.
  pub fold-append :
      (torn : Bool) (xs ys : List Bytes) (r : Replayed Json)
      → fold parse (record { lines = xs; torn = false }) ≡ ok r
      → fold parse (record { lines = xs ++ ys; torn = torn })
        ≡ fold_rest parse torn (length xs) ys r
  unfolding fold
  fold-append torn [] ys r e = cc
  fold-append torn (x ∷ xs) ys r e = elim (Option-cases (parse x)) [
    | inl p ↦ cc (rw (p, fold) at e)
    | inr (rec, p) ↦ rw (p, fold) (first_record-append torn xs ys rec r (rw (p, fold) at e))
  ]

  -- A transcript of nothing but its header holds no conversation.
  pub fold_header :
      (line : Bytes) (h : Header)
      → parse line ≡ some (header h)
      → h.version ≡ version
      → fold parse (record { lines = line ∷ []; torn = false }) ≡ ok (replayed [] no_accounting)
  unfolding fold first_record fold_rest
  fold_header line h p v = rw (p, fold) (rw v refl)
