-- ===== src/Wire/Prose.antt =====
-- The text of a reply, from the frames of its stream to the events.
use sandbx.Common.{
  ℕ, Bool, true, false, List, [], ◌∷◌, ◌++◌, ◌≡◌, refl, sym, ap, ◌∙◌, Option, none, some, Bytes,
  if◌then◌else◌, Entries, arith, if_elim, get, remove, Bool-cases, inl, inr,
}
use mathlib.Core.List.{append-nil, append_assoc}
use sandbx.Event.{AgentEvent}
use sandbx.Wire.{
  Serde, OpenBlock, Item, ok, err, Raw, data_frame, failed, WireState, Decoded, decoded,
  undecodable, RawContentBlockStart, RawDelta, text_delta, thinking_delta, signature_delta,
  input_json_delta, RawStreamEvent, message_start, content_block_start, content_block_delta,
  content_block_stop, message_delta, message_stop, ping, error, signed, thinking_event, with_input,
  tool_call_event, closed_block_event, push, push_some, push_usage, closing, flush_open_blocks,
  start_block, take_delta, close_block, take_event, take_parsed, take_raw, reported,
}
use sandbx.Wire.Stream.{push_usage-ended, drained, event_stream}

-- The text that a frame carries, and whether it is the last that is read.
abbrev pub delta_text : RawDelta → Bytes
delta_text (text_delta t) = t
delta_text _ = []

abbrev pub event_text : RawStreamEvent → Bytes
event_text (content_block_delta index d) = delta_text d
event_text _ = []

abbrev pub is_last : RawStreamEvent → Bool
is_last message_stop = true
is_last (error kind message) = true
is_last _ = false

module _ {Json : Type 0} where
  abbrev pub item_text : Item Json → Bytes
  item_text (ok (AgentEvent.text t)) = t
  item_text _ = []

  abbrev pub said : List (Item Json) → Bytes
  said [] = []
  said (x ∷ xs) = item_text x ++ said xs

  said-append : (xs ys : List (Item Json)) → said (xs ++ ys) ≡ said xs ++ said ys
  said-append [] ys = refl
  said-append (x ∷ xs) ys =
      ap (◌++◌ (item_text x)) (said-append xs ys)
      ∙ sym (append_assoc (item_text x) (said xs) (said ys))

module _ {Json : Type 0} (serde : Serde Json) where
  abbrev pub parsed_text : Decoded RawStreamEvent → Bytes → Bytes
  parsed_text (undecodable t) rest = []
  parsed_text (decoded e) rest = event_text e ++ (if is_last e then [] else rest)

  -- The text of the frames up to the last that is read.
  abbrev pub spoken : List Raw → Bytes
  spoken [] = []
  spoken (failed e ∷ raws) = []
  spoken (data_frame d ∷ raws) =
      let rest = spoken raws in if serde.is_blank d then rest else parsed_text (serde.frame d) rest

  push_usage-said : (s : WireState Json) → said (push_usage serde s).pending ≡ said s.pending
  unfolding push_usage
  push_usage-said s =
      if_elim (λ (t : WireState Json). said t.pending ≡ said s.pending) (reported s.usage) _ _
        (λ _. said-append s.pending _ ∙ append-nil (said s.pending)) (λ _. refl)

  with_input-text :
      (index : ℕ) (id n : Bytes) (d : Decoded Json) → item_text (with_input serde index id n d) ≡ []
  with_input-text index id n (decoded j) = refl
  with_input-text index id n (undecodable t) = refl

  tool_call_event-text :
      (index : ℕ) (id n p : Bytes) → item_text (tool_call_event serde index id n p) ≡ []
  unfolding tool_call_event
  tool_call_event-text index id n p =
      if_elim (λ (x : Item Json). item_text x ≡ []) (serde.is_blank p) _ _ (λ _. refl)
        (λ _. with_input-text index id n (serde.input p))

  abbrev option_text : Option (Item Json) → Bytes
  option_text none = []
  option_text (some x) = item_text x

  thinking_event-text : (t : Bytes) (s : Option Bytes) → option_text (thinking_event serde t s) ≡ []
  thinking_event-text t none = refl
  thinking_event-text t (some s) = refl

  closed_block_event-text :
      (index : ℕ) (b : OpenBlock) → option_text (closed_block_event serde index b) ≡ []
  unfolding closed_block_event
  closed_block_event-text index (OpenBlock.tool_use id n p) = tool_call_event-text index id n p
  closed_block_event-text index (OpenBlock.thinking t s) = thinking_event-text t (signed s)

  closing-said : (blocks : Entries OpenBlock) → said (closing serde blocks) ≡ []
  unfolding closing
  closing-said [] = refl
  closing-said ((index, b) ∷ blocks) =
      ground (arith, closed_block_event-text index b, closing-said blocks)

  -- What is queued, and what is still to come.
  abbrev Says : WireState Json → Bytes → Bytes → Type 0
  Says s rest whole = (said s.pending ++ (if s.ended then [] else rest)) ≡ whole

  finish-Says :
      (x : Item Json) (t : WireState Json) (rest : Bytes)
      → item_text x ≡ []
      → t.ended ≡ true
      → said t.pending ≡ []
      → Says (push serde x (push_usage serde t)) rest []
  finish-Says x t rest i e p =
      let silent : said ((push_usage serde t).pending ++ x ∷ []) ≡ [] =
        said-append (push_usage serde t).pending (x ∷ []) ∙ rw (push_usage-said t, p, i) refl in
      let over : (push_usage serde t).ended ≡ true = push_usage-ended serde t ∙ e in
      rw (silent, over) refl

  start_block-Says :
      (index : ℕ) (b : RawContentBlockStart) (s : WireState Json) (rest : Bytes)
      → s.ended ≡ false
      → s.pending ≡ []
      → Says (start_block serde index b s) rest rest
  unfolding start_block
  start_block-Says index (RawContentBlockStart.tool_use id n) s rest e p = rw (e, p) refl
  start_block-Says index (RawContentBlockStart.thinking t) s rest e p = rw (e, p) refl
  start_block-Says index (RawContentBlockStart.redacted_thinking t) s rest e p = rw (e, p) refl
  start_block-Says index RawContentBlockStart.text s rest e p = rw (e, p) refl
  start_block-Says index RawContentBlockStart.unknown s rest e p = rw (e, p) refl

  take_delta-Says :
      (index : ℕ) (d : RawDelta) (s : WireState Json) (rest : Bytes)
      → s.ended ≡ false
      → s.pending ≡ []
      → Says (take_delta serde index d s) rest (delta_text d ++ rest)
  unfolding take_delta
  take_delta-Says index (text_delta t) s rest e p = rw (e, p) (ap (λ x. x ++ rest) (append-nil t))
  take_delta-Says index (thinking_delta t) s rest e p = rw (e, p) refl
  take_delta-Says index (signature_delta t) s rest e p = rw (e, p) refl
  take_delta-Says index (input_json_delta t) s rest e p = rw (e, p) refl
  take_delta-Says index RawDelta.unknown s rest e p = rw (e, p) refl

  push_some-Says :
      (o : Option (Item Json)) (s : WireState Json) (rest : Bytes)
      → option_text o ≡ []
      → s.ended ≡ false
      → s.pending ≡ []
      → Says (push_some serde o s) rest rest
  push_some-Says none s rest i e p = rw (e, p) refl
  push_some-Says (some x) s rest i e p = rw (e, p) (rw i refl)

  close_block-Says :
      (index : ℕ) (o : Option OpenBlock) (s : WireState Json) (rest : Bytes)
      → s.ended ≡ false
      → s.pending ≡ []
      → Says (close_block serde index o s) rest rest
  close_block-Says index none s rest e p = rw (e, p) refl
  close_block-Says index (some b) s rest e p =
      push_some-Says (closed_block_event serde index b)
        (record s { blocks = remove index s.blocks }) rest (closed_block_event-text index b) e p

  take_event-Says :
      (e : RawStreamEvent) (s : WireState Json) (rest : Bytes)
      → s.ended ≡ false
      → s.pending ≡ []
      → Says (take_event serde e s) rest (event_text e ++ (if is_last e then [] else rest))
  unfolding take_event flush_open_blocks
  take_event-Says (message_start u) s rest e p = rw (e, p) refl
  take_event-Says (content_block_start index b) s rest e p = start_block-Says index b s rest e p
  take_event-Says (content_block_delta index d) s rest e p = take_delta-Says index d s rest e p
  take_event-Says (content_block_stop index) s rest e p =
      close_block-Says index (get index s.blocks) s rest e p
  take_event-Says (message_delta none u) s rest e p = rw (e, p) refl
  take_event-Says (message_delta (some r) u) s rest e p = rw (e, p) refl
  take_event-Says message_stop s rest e p =
      finish-Says (ok (AgentEvent.stop _)) (flush_open_blocks serde (record s { ended = true }))
        rest refl refl (rw p (closing-said s.blocks))
  take_event-Says ping s rest e p = rw (e, p) refl
  take_event-Says (error kind message) s rest e p =
      finish-Says (err _) (record s { ended = true }) rest refl refl (rw p refl)
  take_event-Says RawStreamEvent.unknown s rest e p = rw (e, p) refl

  take_parsed-Says :
      (d : Decoded RawStreamEvent) (s : WireState Json) (rest : Bytes)
      → s.ended ≡ false
      → s.pending ≡ []
      → Says (take_parsed serde d s) rest (parsed_text d rest)
  take_parsed-Says (decoded x) s rest e p = take_event-Says x s rest e p
  take_parsed-Says (undecodable t) s rest e p = rw p refl

  take_raw-Says :
      (raw : Raw) (raws : List Raw) (s : WireState Json)
      → s.ended ≡ false
      → s.pending ≡ []
      → Says (take_raw serde raw s) (spoken raws) (spoken (raw ∷ raws))
  unfolding take_raw
  take_raw-Says (failed x) raws s e p =
      finish-Says (err x) (record s { ended = true }) _ refl refl (rw p refl)
  take_raw-Says (data_frame d) raws s e p = elim (Bool-cases (serde.is_blank d)) [
    | inl b ↦ rw b (rw (e, p) refl)
    | inr b ↦ rw b (take_parsed-Says (serde.frame d) s (spoken raws) e p)
  ]

  step-said :
      (xs ys : List (Item Json)) (ended : Bool) (rest : Bytes)
      → (ended ≡ false → said ys ≡ rest)
      → said (xs ++ (if ended then [] else ys)) ≡ said xs ++ (if ended then [] else rest)
  step-said xs ys true rest f = said-append xs []
  step-said xs ys false rest f = said-append xs ys ∙ ap (◌++◌ (said xs)) (f refl)

  drained-said :
      (raws : List Raw) (s : WireState Json)
      → said (drained serde raws s) ≡ said s.pending ++ (if s.ended then [] else spoken raws)
  unfolding drained
  drained-said [] s = step-said s.pending _ s.ended [] (λ _.
      said-append (push_usage serde (record s { pending = []; ended = true })).pending _
      ∙ rw (push_usage-said (record s { pending = []; ended = true })) refl)
  drained-said (raw ∷ raws) s =
      step-said s.pending _ s.ended _
        (λ e. drained-said raws _ ∙ take_raw-Says raw raws (record s { pending = [] }) e refl)

  -- What is said in a stream is what its frames spell.
  pub event_stream-said : (raws : List Raw) → said (event_stream serde raws) ≡ spoken raws
  unfolding event_stream
  event_stream-said raws = drained-said raws _
