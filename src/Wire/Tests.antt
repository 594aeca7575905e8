-- ===== src/Wire/Tests.antt =====
-- A small wire format, and streams in it.
use sandbx.Common.{
  any, not, ℕ, suc, length, true, false, List, [], ◌∷◌, ◌≡◌, refl, map, none, some, Bytes, codes,
  is_empty, ◌==◌, if◌then◌else◌,
}
use sandbx.Event.{AgentEvent, StopReason, malformed_event, stream_ended_unexpectedly}
use sandbx.Turn.{World, ready, output, allow, stream}
use sandbx.Turn.Accumulate.{empty_draft, accumulate, absorb, Round}
use sandbx.Turn.Accumulate.Content.{prose}
use sandbx.Prompt.{ContentBlock}
use sandbx.Wire.{
  Serde, Decoded, decoded, undecodable, RawStreamEvent, RawContentBlockStart, RawDelta,
  content_block_start, content_block_delta, content_block_stop, text_delta, input_json_delta,
  message_start, message_delta, message_stop, Item, ok, err, Raw, data_frame, take_raw, take_event,
  start_block, take_delta, flush_open_blocks, push_usage, closing, closed_block_event,
  tool_call_event, stop_reason_of, reported, no_usage,
}
use sandbx.Wire.Stream.{drained, event_stream, fresh}
use sandbx.Wire.Items.{finishes}
use sandbx.Wire.Calls.{drawn, drawn-event_stream}
use sandbx.Wire.Errors.{EndExplained, event_stream-ends}
use sandbx.Wire.Prose.{spoken}
use sandbx.Wire.Round.{is_err, is_ready, accumulate-is_ready, poll, accumulate-event_stream}

-- A frame is named by its first byte.
abbrev named : ℕ → Bytes → Decoded RawStreamEvent
named k t =
    if k == 1
    then decoded (content_block_delta 0 (text_delta t))
    else if k == 2
    then decoded (content_block_start 1 (RawContentBlockStart.tool_use (codes "c1") (codes "ls")))
    else if k == 3
    then decoded (content_block_delta 1 (input_json_delta t))
    else if k == 4
    then decoded (message_start (record no_usage { input_tokens = some 7 }))
    else if k == 5
    then decoded message_stop
    else if k == 6
    then decoded (message_delta (some (codes "tool_use")) no_usage)
    else undecodable (codes "no such tag")

abbrev frame : Bytes → Decoded RawStreamEvent
frame [] = undecodable []
frame (k ∷ t) = named k t

abbrev input : Bytes → Decoded ℕ
input (n ∷ []) = decoded n
input _ = undecodable (codes "not a number")

abbrev serde : Serde ℕ
serde = record {
  frame = frame;
  input = input;
  no_input = 0;
  is_blank = is_empty;
  decimal = λ n. n ∷ [];
}

abbrev call : List Raw
call =
    data_frame (4 ∷ [])
    ∷ data_frame (1 ∷ codes "let me ")
    ∷ data_frame []
    ∷ data_frame (1 ∷ codes "look")
    ∷ data_frame (2 ∷ [])
    ∷ data_frame (3 ∷ 9 ∷ [])
    ∷ data_frame (6 ∷ [])
    ∷ data_frame (5 ∷ [])
    ∷ data_frame (1 ∷ codes "late")
    ∷ []

-- The open call is flushed, and what comes behind the stop is not read.
called :
    event_stream serde call
    ≡ ok (AgentEvent.text (codes "let me "))
      ∷ ok (AgentEvent.text (codes "look"))
      ∷ ok (AgentEvent.tool_call_requested (codes "c1") (codes "ls") 9)
      ∷ ok (AgentEvent.usage (some 7) none none none)
      ∷ ok (AgentEvent.stop StopReason.tool_use)
      ∷ []
unfolding event_stream drained take_raw take_event start_block take_delta flush_open_blocks
    push_usage closing closed_block_event tool_call_event stop_reason_of reported sandbx.Wire.absorb
called = refl

-- A frame that does not parse ends the stream without the counts that were reported before it, which a
-- stream that is cut off gives.
counts_lost :
    (event_stream serde (data_frame (4 ∷ []) ∷ data_frame (0 ∷ []) ∷ [])
      ≡ err (malformed_event (codes "unrecognized stream event: no such tag")) ∷ [])
    × (event_stream serde (data_frame (4 ∷ []) ∷ [])
        ≡ ok (AgentEvent.usage (some 7) none none none) ∷ err stream_ended_unexpectedly ∷ [])
unfolding event_stream drained take_raw take_event push_usage reported sandbx.Wire.absorb
counts_lost = (refl, refl)

-- A call whose input is no number, and what comes behind it.
abbrev bad_call : List Raw
bad_call =
    data_frame (2 ∷ [])
    ∷ data_frame (3 ∷ 9 ∷ 9 ∷ [])
    ∷ data_frame (5 ∷ [])
    ∷ data_frame (1 ∷ codes "late")
    ∷ []

event_stream-ends_example :
    (finishes (event_stream serde bad_call) ≡ true)
    × EndExplained serde (event_stream serde bad_call)
event_stream-ends_example = event_stream-ends serde bad_call

-- Nothing but what draining a stream needs.
abbrev quiet : World ℕ
quiet = record {
  State = ℕ;
  stops = λ s. false;
  open_stream = λ p s. (stream [], s);
  observe = λ e s. s;
  approve = λ c s. (allow, s);
  settled = λ c s. s;
  execute = λ c s. (output [], s);
  error_text = λ e. [];
  describe = λ t. [];
  schema = λ t. 0;
}

abbrev round : Round ℕ
round = record {
  blocks =
      ContentBlock.text (codes "let me look")
      ∷ ContentBlock.tool_use (codes "c1") (codes "ls") 9
      ∷ [];
  usage =
      some (record { input_tokens = some 7; cache_read_tokens = none; cache_write_tokens = none });
  reason = StopReason.tool_use;
}

accumulated : accumulate quiet 0 (map poll (event_stream serde call)) empty_draft 0 ≡ ready round 0
unfolding accumulate absorb event_stream drained take_raw take_event start_block take_delta
    flush_open_blocks push_usage closing closed_block_event tool_call_event stop_reason_of reported
    sandbx.Wire.absorb
accumulated = refl

accumulate-event_stream_example : prose round.blocks ≡ spoken serde call
accumulate-event_stream_example = accumulate-event_stream quiet 0 serde call 0 0 round accumulated

drawn-event_stream_example :
    (drawn serde (suc (length (event_stream serde call))) call (fresh serde)
      ≡ some (event_stream serde call))
    × (finishes (event_stream serde call) ≡ true)
drawn-event_stream_example = drawn-event_stream serde call

accumulate-is_ready_example :
    is_ready (accumulate quiet 0 (map poll (event_stream serde call)) empty_draft 0)
    ≡ not (any is_err (event_stream serde call))
accumulate-is_ready_example = accumulate-is_ready quiet 0 serde call 0
