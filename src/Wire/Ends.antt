-- ===== src/Wire/Ends.antt =====
-- How a stream of events ends.
use sandbx.Common.{
  ℕ, Bool, true, false, List, [], ◌∷◌, ◌++◌, ◌≡◌, refl, Option, none, some, Bytes, if◌then◌else◌,
  all, if_elim, get, remove,
}
use mathlib.Core.List.{append-nil}
use sandbx.Event.{AgentEvent, stream_ended_unexpectedly}
use sandbx.Wire.{
  Serde, OpenBlock, Item, ok, err, Raw, data_frame, failed, WireState, Decoded, decoded,
  undecodable, RawContentBlockStart, RawDelta, text_delta, thinking_delta, signature_delta,
  input_json_delta, RawStreamEvent, message_start, content_block_start, content_block_delta,
  content_block_stop, message_delta, message_stop, ping, error, closed_block_event, push_some,
  flush_open_blocks, finish, start_block, take_delta, close_block, note_reason, take_event,
  take_parsed, take_raw,
}
use sandbx.Wire.Items.{
  is_end, is_content, finishes, finishes-append, finish-finishes, content_option,
  closed_block_event-content, closing-content,
}
use sandbx.Wire.Stream.{push_usage-ended, drained, event_stream}

module _ {Json : Type 0} (serde : Serde Json) where
  -- Between two frames.
  abbrev IsSound : WireState Json → Type 0
  IsSound s = (if s.ended then finishes s.pending else all is_content s.pending) ≡ true

  -- Of a state with nothing pending, what the next frame makes of it.
  start_block-IsSound :
      (index : ℕ) (b : RawContentBlockStart) (s : WireState Json)
      → s.ended ≡ false
      → s.pending ≡ []
      → IsSound (start_block serde index b s)
  unfolding start_block
  start_block-IsSound index (RawContentBlockStart.tool_use id n) s e p = rw (e, p) refl
  start_block-IsSound index (RawContentBlockStart.thinking t) s e p = rw (e, p) refl
  start_block-IsSound index (RawContentBlockStart.redacted_thinking t) s e p = rw (e, p) refl
  start_block-IsSound index RawContentBlockStart.text s e p = rw (e, p) refl
  start_block-IsSound index RawContentBlockStart.unknown s e p = rw (e, p) refl

  take_delta-IsSound :
      (index : ℕ) (d : RawDelta) (s : WireState Json)
      → s.ended ≡ false
      → s.pending ≡ []
      → IsSound (take_delta serde index d s)
  unfolding take_delta
  take_delta-IsSound index (text_delta t) s e p = rw (e, p) refl
  take_delta-IsSound index (thinking_delta t) s e p = rw (e, p) refl
  take_delta-IsSound index (signature_delta t) s e p = rw (e, p) refl
  take_delta-IsSound index (input_json_delta t) s e p = rw (e, p) refl
  take_delta-IsSound index RawDelta.unknown s e p = rw (e, p) refl

  IsSound-ended : (s : WireState Json) → s.ended ≡ true → finishes s.pending ≡ true → IsSound s
  IsSound-ended s e f = rw e f

  finish-IsSound :
      (item : Item Json) (s : WireState Json)
      → is_end item ≡ true
      → all is_content s.pending ≡ true
      → IsSound (finish serde item s)
  finish-IsSound item s e a =
      IsSound-ended (finish serde item s) (push_usage-ended serde (record s { ended = true }))
        (finish-finishes serde item (record s { ended = true }) e a)

  close_block-IsSound :
      (index : ℕ) (o : Option OpenBlock) (s : WireState Json)
      → s.ended ≡ false
      → s.pending ≡ []
      → IsSound (close_block serde index o s)
  close_block-IsSound index none s e p = rw (e, p) refl
  close_block-IsSound index (some b) s e p =
      pushed (closed_block_event serde index b) (closed_block_event-content serde index b)
    where
      pushed :
          (o : Option (Item Json))
          → content_option serde o ≡ true
          → IsSound (push_some serde o (record s { blocks = remove index s.blocks }))
      pushed none c = rw (e, p) refl
      pushed (some x) c = rw (e, p) (rw c refl)

  note_reason-IsSound :
      (o : Option Bytes) (s : WireState Json)
      → s.ended ≡ false
      → s.pending ≡ []
      → IsSound (note_reason serde o s)
  note_reason-IsSound none s e p = rw (e, p) refl
  note_reason-IsSound (some r) s e p = rw (e, p) refl

  take_event-IsSound :
      (event : RawStreamEvent) (s : WireState Json)
      → s.ended ≡ false
      → s.pending ≡ []
      → IsSound (take_event serde event s)
  unfolding take_event flush_open_blocks
  take_event-IsSound (message_start u) s e p = rw (e, p) refl
  take_event-IsSound (content_block_start index b) s e p = start_block-IsSound index b s e p
  take_event-IsSound (content_block_delta index d) s e p = take_delta-IsSound index d s e p
  take_event-IsSound (content_block_stop index) s e p =
      close_block-IsSound index (get index s.blocks) s e p
  take_event-IsSound (message_delta r u) s e p = note_reason-IsSound r (record s { usage = _ }) e p
  take_event-IsSound message_stop s e p =
      let f = flush_open_blocks serde (record s { ended = true }) in
      let content : all is_content f.pending ≡ true = rw p (closing-content serde s.blocks) in
      rw (push_usage-ended serde f) (finish-finishes serde (ok (AgentEvent.stop _)) f refl content)
  take_event-IsSound ping s e p = rw (e, p) refl
  take_event-IsSound (error kind message) s e p = finish-IsSound _ s refl (rw p refl)
  take_event-IsSound RawStreamEvent.unknown s e p = rw (e, p) refl

  take_parsed-IsSound :
      (d : Decoded RawStreamEvent) (s : WireState Json)
      → s.ended ≡ false
      → s.pending ≡ []
      → IsSound (take_parsed serde d s)
  take_parsed-IsSound (decoded event) s e p = take_event-IsSound event s e p
  take_parsed-IsSound (undecodable t) s e p = rw p refl

  take_raw-IsSound :
      (raw : Raw) (s : WireState Json)
      → s.ended ≡ false
      → s.pending ≡ []
      → IsSound (take_raw serde raw s)
  unfolding take_raw
  take_raw-IsSound (failed x) s e p = finish-IsSound _ s refl (rw p refl)
  take_raw-IsSound (data_frame d) s e p =
      if_elim (λ (t : WireState Json). IsSound t) (serde.is_blank d) _ _ (λ _. rw (e, p) refl)
        (λ _. take_parsed-IsSound (serde.frame d) s e p)

  step-finishes :
      (xs ys : List (Item Json)) (ended : Bool)
      → (if ended then finishes xs else all is_content xs) ≡ true
      → (ended ≡ false → finishes ys ≡ true)
      → finishes (xs ++ (if ended then [] else ys)) ≡ true
  step-finishes xs ys true k f = rw (append-nil xs) k
  step-finishes xs ys false k f = finishes-append xs ys k (f refl)

  drained-finishes :
      (raws : List Raw) (s : WireState Json) → IsSound s → finishes (drained serde raws s) ≡ true
  unfolding drained
  drained-finishes [] s k = step-finishes s.pending _ s.ended k (λ _.
      finish-finishes serde (err stream_ended_unexpectedly)
        (record s { pending = []; ended = true }) refl refl)
  drained-finishes (raw ∷ raws) s k =
      step-finishes s.pending _ s.ended k
        (λ e. drained-finishes raws _ (take_raw-IsSound raw (record s { pending = [] }) e refl))

  -- Whatever the frames, the stream of events gives content, then the token counts at most once, then
  -- one stop or one error, and nothing behind it. An error ahead of that says that the input of a
  -- call does not parse; one that says anything else, of a frame that does not parse too, is the end.
  pub event_stream-finishes : (raws : List Raw) → finishes (event_stream serde raws) ≡ true
  unfolding event_stream
  event_stream-finishes raws = drained-finishes raws _ refl
