-- ===== src/Wire/Items.antt =====
-- What a stream of events is made of: content, token counts, and an end.
use sandbx.Common.{
  ℕ, Bool, true, false, ◌&&◌, ◌||◌, List, [], ◌∷◌, ◌++◌, ◌≡◌, refl, Option, none, some, Bytes,
  Entries, is_empty, all, arith, if_elim, &&_true, codes, ◌==◌,
}
use mathlib.Core.List.{append_assoc}
use sandbx.Event.{AgentEvent, malformed_event}
use sandbx.Wire.{
  Serde, OpenBlock, Item, ok, err, WireState, Decoded, decoded, undecodable, signed, thinking_event,
  with_input, tool_call_event, closed_block_event, push, push_usage, closing, reported,
}

-- Whether a text begins with another.
abbrev pub begins : Bytes → Bytes → Bool
begins [] cs = true
begins (d ∷ ds) [] = false
begins (d ∷ ds) (c ∷ cs) = (c == d) && begins ds cs

-- The error of a call whose input does not parse, by what it says; a frame that does not parse says
-- otherwise.
abbrev pub is_unparsed_call : Bytes → Bool
is_unparsed_call detail = begins (codes "tool_use input for block ") detail

module _ {Json : Type 0} where
  -- A stop, or an error.
  abbrev pub is_end : Item Json → Bool
  is_end (ok (AgentEvent.stop reason)) = true
  is_end (ok _) = false
  is_end (err e) = true

  abbrev is_usage : Item Json → Bool
  is_usage (ok (AgentEvent.usage i o w r)) = true
  is_usage _ = false

  -- What a turn goes on behind: its content, and a call whose input does not parse.
  abbrev pub is_content : Item Json → Bool
  is_content (ok (AgentEvent.stop reason)) = false
  is_content (ok (AgentEvent.usage i o w r)) = false
  is_content (ok _) = true
  is_content (err (malformed_event detail)) = is_unparsed_call detail
  is_content (err _) = false

  abbrev pub one_end : List (Item Json) → Bool
  one_end (x ∷ []) = is_end x
  one_end _ = false

  -- Content, then the counts or none, then one end.
  abbrev pub finishes : List (Item Json) → Bool
  finishes [] = false
  finishes (x ∷ xs) =
      (is_end x && is_empty xs) || (is_usage x && one_end xs) || (is_content x && finishes xs)

  pub finishes-append :
      (xs ys : List (Item Json))
      → all is_content xs ≡ true
      → finishes ys ≡ true
      → finishes (xs ++ ys) ≡ true
  finishes-append [] ys a f = f
  finishes-append (x ∷ xs) ys a f =
      let (c, cs) = &&_true (is_content x) (all is_content xs) a in
      rw (c, finishes-append xs ys cs f) (ground arith)

module _ {Json : Type 0} (serde : Serde Json) where
  pub ends-finishes :
      (xs : List (Item Json)) (x : Item Json)
      → all is_content xs ≡ true
      → is_end x ≡ true
      → finishes (xs ++ x ∷ []) ≡ true
  ends-finishes xs x a e = finishes-append xs (x ∷ []) a (rw e refl)

  pub finish-finishes :
      (item : Item Json) (s : WireState Json)
      → is_end item ≡ true
      → all is_content s.pending ≡ true
      → finishes (push serde item (push_usage serde s)).pending ≡ true
  unfolding push_usage
  finish-finishes item s e a =
      if_elim (λ (t : WireState Json). finishes (t.pending ++ item ∷ []) ≡ true) (reported s.usage)
        _ _
        (λ _.
          rw
            (append_assoc s.pending
              (ok (
                  AgentEvent.usage s.usage.input_tokens s.usage.output_tokens
                    s.usage.cache_creation_input_tokens s.usage.cache_read_input_tokens)
                ∷ [])
              (item ∷ []))
            (finishes-append s.pending _ a (rw e refl)))
        (λ _. ends-finishes s.pending item a e)

  with_input-content :
      (index : ℕ) (id n : Bytes) (d : Decoded Json)
      → is_content (with_input serde index id n d) ≡ true
  with_input-content index id n (decoded j) = refl
  with_input-content index id n (undecodable t) = refl

  tool_call_event-content :
      (index : ℕ) (id n p : Bytes) → is_content (tool_call_event serde index id n p) ≡ true
  unfolding tool_call_event
  tool_call_event-content index id n p =
      if_elim (λ (x : Item Json). is_content x ≡ true) (serde.is_blank p) _ _ (λ _. refl)
        (λ _. with_input-content index id n (serde.input p))

  abbrev pub content_option : Option (Item Json) → Bool
  content_option none = true
  content_option (some x) = is_content x

  thinking_event-content :
      (t : Bytes) (s : Option Bytes) → content_option (thinking_event serde t s) ≡ true
  thinking_event-content t none = refl
  thinking_event-content t (some s) = refl

  pub closed_block_event-content :
      (index : ℕ) (b : OpenBlock) → content_option (closed_block_event serde index b) ≡ true
  unfolding closed_block_event
  closed_block_event-content index (OpenBlock.tool_use id n p) =
      tool_call_event-content index id n p
  closed_block_event-content index (OpenBlock.thinking t s) = thinking_event-content t (signed s)

  pub closing-content : (blocks : Entries OpenBlock) → all is_content (closing serde blocks) ≡ true
  unfolding closing
  closing-content [] = refl
  closing-content ((index, b) ∷ blocks) =
      ground (arith, closed_block_event-content index b, closing-content blocks)
