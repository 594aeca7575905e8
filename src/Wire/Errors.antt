-- ===== src/Wire/Errors.antt =====
-- The errors of a stream of events: which of them the stream goes on behind.
use sandbx.Common.{
  ℕ, Bool, true, false, List, [], ◌∷◌, ◌++◌, ◌≡◌, refl, Option, none, some, Bytes, codes,
  if◌then◌else◌, if_elim, get, remove, Entries,
}
use mathlib.Core.List.{append-nil}
use sandbx.Event.{AgentEvent, malformed_event}
use sandbx.Wire.{
  RawUsage, Serde, OpenBlock, Item, ok, err, Raw, data_frame, failed, WireState, Decoded, decoded,
  undecodable, RawContentBlockStart, RawDelta, text_delta, thinking_delta, signature_delta,
  input_json_delta, RawStreamEvent, message_start, content_block_start, content_block_delta,
  content_block_stop, message_delta, message_stop, ping, error, closed_block_event, push_some,
  push_usage, reported, closing, flush_open_blocks, start_block, take_delta, close_block,
  note_reason, take_event, take_parsed, take_raw, run_out, signed, thinking_event, with_input,
  tool_call_event,
}
use sandbx.Wire.Items.{finishes}
use sandbx.Wire.Ends.{event_stream-finishes}
use sandbx.Wire.Stream.{push_usage-ended, drained, event_stream}

module _ {Json : Type 0} (serde : Serde Json) where
  -- An event, or the error of a call whose input does not parse.
  abbrev pub Explained : Item Json → Type 0
  Explained (ok e) = Unit {0}
  Explained (err (malformed_event detail)) =
      (index : ℕ) × (text source : Bytes) × (serde.input text ≡ undecodable source)
      × (detail ≡ codes "tool_use input for block " ++ serde.decimal index ++ codes ": " ++ source)
  Explained (err _) = ⊥

  abbrev AllExplained : List (Item Json) → Type 0
  AllExplained [] = Unit {0}
  AllExplained (x ∷ xs) = Explained x × AllExplained xs

  -- All but the last are.
  abbrev pub EndExplained : List (Item Json) → Type 0
  EndExplained [] = Unit {0}
  EndExplained (x ∷ []) = Unit {0}
  EndExplained (x ∷ y ∷ xs) = Explained x × EndExplained (y ∷ xs)

  AllExplained-append :
      (xs ys : List (Item Json)) → AllExplained xs → AllExplained ys → AllExplained (xs ++ ys)
  AllExplained-append [] ys a b = b
  AllExplained-append (x ∷ xs) ys a b = (a.0, AllExplained-append xs ys a.1 b)

  EndExplained-append :
      (xs ys : List (Item Json)) → AllExplained xs → EndExplained ys → EndExplained (xs ++ ys)
  EndExplained-append [] ys a b = b
  EndExplained-append (x ∷ []) [] a b = tt
  EndExplained-append (x ∷ []) (y ∷ ys) a b = (a.0, b)
  EndExplained-append (x ∷ z ∷ xs) ys a b = (a.0, EndExplained-append (z ∷ xs) ys a.1 b)

  with_input-Explained :
      (index : ℕ) (id n text : Bytes) (d : Decoded Json)
      → serde.input text ≡ d
      → Explained (with_input serde index id n d)
  with_input-Explained index id n text (decoded j) e = tt
  with_input-Explained index id n text (undecodable t) e = (index, text, t, e, refl)

  tool_call_event-Explained :
      (index : ℕ) (id n p : Bytes) → Explained (tool_call_event serde index id n p)
  unfolding tool_call_event
  tool_call_event-Explained index id n p =
      if_elim (λ (x : Item Json). Explained x) (serde.is_blank p) _ _ (λ _. tt)
        (λ _. with_input-Explained index id n p (serde.input p) refl)

  abbrev OptionExplained : Option (Item Json) → Type 0
  OptionExplained none = Unit {0}
  OptionExplained (some x) = Explained x

  thinking_event-OptionExplained :
      (t : Bytes) (s : Option Bytes) → OptionExplained (thinking_event serde t s)
  thinking_event-OptionExplained t none = tt
  thinking_event-OptionExplained t (some s) = tt

  closed_block_event-OptionExplained :
      (index : ℕ) (b : OpenBlock) → OptionExplained (closed_block_event serde index b)
  unfolding closed_block_event
  closed_block_event-OptionExplained index (OpenBlock.tool_use id n p) =
      tool_call_event-Explained index id n p
  closed_block_event-OptionExplained index (OpenBlock.thinking t s) =
      thinking_event-OptionExplained t (signed s)

  closing-AllExplained : (blocks : Entries OpenBlock) → AllExplained (closing serde blocks)
  unfolding closing
  closing-AllExplained [] = tt
  closing-AllExplained ((index, b) ∷ blocks) =
      pushed (closed_block_event serde index b) (closed_block_event-OptionExplained index b)
        (closing-AllExplained blocks)
    where
      pushed :
          (o : Option (Item Json))
          → OptionExplained o
          → AllExplained (closing serde blocks)
          → AllExplained
              (elim o [ none ↦ closing serde blocks | some item ↦ item ∷ closing serde blocks ])
      pushed none c a = a
      pushed (some x) c a = (c, a)

  -- What is queued between two frames.
  abbrev Queued : Bool → List (Item Json) → Type 0
  Queued true xs = EndExplained xs
  Queued false xs = AllExplained xs

  abbrev IsQueued : WireState Json → Type 0
  IsQueued s = Queued s.ended s.pending

  -- The last item, behind what was queued and the counts.
  last-Queued :
      (item : Item Json) (s : WireState Json)
      → s.ended ≡ true
      → AllExplained s.pending
      → Queued (push_usage serde s).ended ((push_usage serde s).pending ++ item ∷ [])
  unfolding push_usage
  last-Queued item s e a =
      if_elim (λ (t : WireState Json). Queued t.ended (t.pending ++ item ∷ [])) (reported s.usage) _
        _
        (λ _.
          rw e (EndExplained-append _ (item ∷ []) (AllExplained-append s.pending _ a (tt, tt)) tt))
        (λ _. rw e (EndExplained-append s.pending (item ∷ []) a tt))

  -- Of a state with nothing pending, what the next frame makes of it.
  module _ (s : WireState Json) (e : s.ended ≡ false) (p : s.pending ≡ []) where
    none_pending : AllExplained s.pending
    none_pending = rw p tt

    start_block-IsQueued :
        (index : ℕ) (b : RawContentBlockStart) → IsQueued (start_block serde index b s)
    unfolding start_block
    start_block-IsQueued index (RawContentBlockStart.tool_use id n) = rw (e, p) tt
    start_block-IsQueued index (RawContentBlockStart.thinking t) = rw (e, p) tt
    start_block-IsQueued index (RawContentBlockStart.redacted_thinking t) = rw (e, p) (tt, tt)
    start_block-IsQueued index RawContentBlockStart.text = rw (e, p) tt
    start_block-IsQueued index RawContentBlockStart.unknown = rw (e, p) tt

    take_delta-IsQueued : (index : ℕ) (d : RawDelta) → IsQueued (take_delta serde index d s)
    unfolding take_delta
    take_delta-IsQueued index (text_delta t) = rw (e, p) (tt, tt)
    take_delta-IsQueued index (thinking_delta t) = rw (e, p) (tt, tt)
    take_delta-IsQueued index (signature_delta t) = rw (e, p) tt
    take_delta-IsQueued index (input_json_delta t) = rw (e, p) tt
    take_delta-IsQueued index RawDelta.unknown = rw (e, p) tt

    close_block-IsQueued :
        (index : ℕ) (o : Option OpenBlock) → IsQueued (close_block serde index o s)
    close_block-IsQueued index none = rw (e, p) tt
    close_block-IsQueued index (some b) =
        pushed (closed_block_event serde index b) (closed_block_event-OptionExplained index b)
      where
        pushed :
            (o : Option (Item Json))
            → OptionExplained o
            → IsQueued (push_some serde o (record s { blocks = remove index s.blocks }))
        pushed none c = rw (e, p) tt
        pushed (some x) c = rw (e, p) (c, tt)

    note_reason-IsQueued :
        (o : Option Bytes) (u : RawUsage) → IsQueued (note_reason serde o (record s { usage = u }))
    note_reason-IsQueued none u = rw (e, p) tt
    note_reason-IsQueued (some r) u = rw (e, p) tt

    take_event-IsQueued : (event : RawStreamEvent) → IsQueued (take_event serde event s)
    unfolding take_event flush_open_blocks
    take_event-IsQueued (message_start u) = rw (e, p) tt
    take_event-IsQueued (content_block_start index b) = start_block-IsQueued index b
    take_event-IsQueued (content_block_delta index d) = take_delta-IsQueued index d
    take_event-IsQueued (content_block_stop index) = close_block-IsQueued index (get index s.blocks)
    take_event-IsQueued (message_delta r u) = note_reason-IsQueued r _
    take_event-IsQueued message_stop =
        last-Queued (ok (AgentEvent.stop _)) (flush_open_blocks serde (record s { ended = true }))
          refl (AllExplained-append s.pending _ none_pending (closing-AllExplained s.blocks))
    take_event-IsQueued ping = rw (e, p) tt
    take_event-IsQueued (error kind message) =
        last-Queued _ (record s { ended = true }) refl none_pending
    take_event-IsQueued RawStreamEvent.unknown = rw (e, p) tt

    take_parsed-IsQueued : (d : Decoded RawStreamEvent) → IsQueued (take_parsed serde d s)
    take_parsed-IsQueued (decoded event) = take_event-IsQueued event
    take_parsed-IsQueued (undecodable t) = rw p tt

    take_raw-IsQueued : (raw : Raw) → IsQueued (take_raw serde raw s)
    unfolding take_raw
    take_raw-IsQueued (failed x) = last-Queued _ (record s { ended = true }) refl none_pending
    take_raw-IsQueued (data_frame d) =
        if_elim (λ (t : WireState Json). IsQueued t) (serde.is_blank d) _ _ (λ _. rw (e, p) tt)
          (λ _. take_parsed-IsQueued (serde.frame d))

  behind-EndExplained :
      (xs ys : List (Item Json)) (ended : Bool)
      → Queued ended xs
      → (ended ≡ false → EndExplained ys)
      → EndExplained (xs ++ (if ended then [] else ys))
  behind-EndExplained xs ys true q f = rw (append-nil xs) q
  behind-EndExplained xs ys false q f = EndExplained-append xs ys q (f refl)

  ended-EndExplained : (s : WireState Json) → s.ended ≡ true → IsQueued s → EndExplained s.pending
  ended-EndExplained s e q = rw e at q

  drained-EndExplained :
      (raws : List Raw) (s : WireState Json) → IsQueued s → EndExplained (drained serde raws s)
  unfolding drained
  drained-EndExplained [] s q = behind-EndExplained s.pending _ s.ended q (λ e.
      ended-EndExplained (run_out serde (record s { pending = [] }))
        (push_usage-ended serde (record s { pending = []; ended = true }))
        (last-Queued _ (record s { pending = []; ended = true }) refl tt))
  drained-EndExplained (raw ∷ raws) s q =
      behind-EndExplained s.pending _ s.ended q (λ e.
        drained-EndExplained raws _ (take_raw-IsQueued (record s { pending = [] }) e refl raw))

  -- Whatever the frames, the stream of events gives content, then the token counts at most once, then
  -- one stop or one error, and nothing behind it. Any error ahead of that is of a call whose input
  -- does not parse, and says what the parser says of it.
  pub event_stream-ends :
      (raws : List Raw)
      → (finishes (event_stream serde raws) ≡ true) × EndExplained (event_stream serde raws)
  unfolding event_stream
  event_stream-ends raws = (event_stream-finishes serde raws, drained-EndExplained raws _ tt)
