-- ===== src/Wire.antt =====
-- crates/sandbx-anthropic/src/anthropic_wire_payload.rs and anthropic_wire_accumulate.rs: the frames of
-- a stream, and what they are folded into. What `serde_json`, `str::trim` and the `Display` of a
-- number give is the record `Serde`.
pub mod Stream
pub mod Items
pub mod Ends
pub mod Errors
pub mod Calls
pub mod Prose
pub mod Round
mod Tests
use sandbx.Common.{
  ℕ, Bool, true, false, List, [], ◌∷◌, ◌++◌, Option, none, some, Bytes, codes, is_empty, or_else,
  if◌then◌else◌, str_eq, Entries, insert, remove, get, adjust, is_some, ◌||◌,
}
use sandbx.Event.{
  AgentEvent, StopReason, ProviderError, malformed_event, stream_ended_unexpectedly, api_error,
}

pub record RawUsage : Type 0 where
  pub input_tokens : Option ℕ
  pub output_tokens : Option ℕ
  pub cache_creation_input_tokens : Option ℕ
  pub cache_read_input_tokens : Option ℕ

pub data RawContentBlockStart : Type 0 where
  text : RawContentBlockStart
  thinking redacted_thinking : Bytes → RawContentBlockStart
  tool_use : (id name : Bytes) → RawContentBlockStart
  unknown : RawContentBlockStart

pub data RawDelta : Type 0 where
  text_delta thinking_delta signature_delta input_json_delta : Bytes → RawDelta
  unknown : RawDelta

-- `RawMessageStart` and `RawMessageDelta` have one field each, and stand as that.
pub data RawStreamEvent : Type 0 where
  message_start : RawUsage → RawStreamEvent
  content_block_start : ℕ → RawContentBlockStart → RawStreamEvent
  content_block_delta : ℕ → RawDelta → RawStreamEvent
  content_block_stop : ℕ → RawStreamEvent
  message_delta : Option Bytes → RawUsage → RawStreamEvent
  message_stop ping : RawStreamEvent
  error : (kind message : Bytes) → RawStreamEvent
  unknown : RawStreamEvent

pub data Decoded (A : Type 0) : Type 0 where
  decoded : A → Decoded A
  undecodable : Bytes → Decoded A

pub record Serde (Json : Type 0) : Type 0 where
  pub frame : Bytes → Decoded RawStreamEvent
  pub input : Bytes → Decoded Json
  -- `Value::Object(Map::new())`.
  pub no_input : Json
  -- `trim().is_empty()`.
  pub is_blank : Bytes → Bool
  pub decimal : ℕ → Bytes

pub data OpenBlock : Type 0 where
  tool_use : (id name partial_json : Bytes) → OpenBlock
  thinking : Bytes → Option Bytes → OpenBlock

-- One item of the stream of events.
pub data Item (Json : Type 0) : Type 0 where
  ok : AgentEvent Json → Item Json
  err : ProviderError → Item Json

-- One item of the stream of frames.
pub data Raw : Type 0 where
  data_frame : Bytes → Raw
  failed : ProviderError → Raw

pub record WireState (Json : Type 0) : Type 0 where
  pub blocks : Entries OpenBlock
  pub usage : RawUsage
  pub stop_reason : Option StopReason
  pub pending : List (Item Json)
  pub ended : Bool

abbrev pub no_usage : RawUsage
no_usage = record {
  input_tokens = none;
  output_tokens = none;
  cache_creation_input_tokens = none;
  cache_read_input_tokens = none;
}

unfoldable pub stop_reason_of : Bytes → StopReason
stop_reason_of value =
    if str_eq value (codes "end_turn")
    then StopReason.end_turn
    else if str_eq value (codes "tool_use")
    then StopReason.tool_use
    else if str_eq value (codes "max_tokens")
    then StopReason.max_tokens
    else if str_eq value (codes "stop_sequence")
    then StopReason.stop_sequence
    else StopReason.other value

unfoldable pub absorb : RawUsage → RawUsage → RawUsage
absorb held newer = record {
  input_tokens = or_else newer.input_tokens held.input_tokens;
  output_tokens = or_else newer.output_tokens held.output_tokens;
  cache_creation_input_tokens =
      or_else newer.cache_creation_input_tokens held.cache_creation_input_tokens;
  cache_read_input_tokens = or_else newer.cache_read_input_tokens held.cache_read_input_tokens;
}

-- `*self != Self::default()`.
unfoldable pub reported : RawUsage → Bool
reported u =
    is_some u.input_tokens
    || is_some u.output_tokens
    || is_some u.cache_creation_input_tokens
    || is_some u.cache_read_input_tokens

-- `signature.filter(|value| !value.is_empty())`.
abbrev pub signed : Option Bytes → Option Bytes
signed none = none
signed (some []) = none
signed (some (b ∷ bs)) = some (b ∷ bs)

-- `signature.get_or_insert_default().push_str(&value)`.
abbrev pub push_signature : Option Bytes → Bytes → Option Bytes
push_signature none value = some value
push_signature (some held) value = some (held ++ value)

abbrev pub push_thinking : Bytes → OpenBlock → OpenBlock
push_thinking piece (OpenBlock.thinking t s) = OpenBlock.thinking (t ++ piece) s
push_thinking piece b = b

abbrev pub push_signed : Bytes → OpenBlock → OpenBlock
push_signed value (OpenBlock.thinking t s) = OpenBlock.thinking t (push_signature s value)
push_signed value b = b

abbrev pub push_json : Bytes → OpenBlock → OpenBlock
push_json piece (OpenBlock.tool_use id n held) = OpenBlock.tool_use id n (held ++ piece)
push_json piece b = b

module _ {Json : Type 0} (serde : Serde Json) where
  abbrev with_input : ℕ → Bytes → Bytes → Decoded Json → Item Json
  with_input index id n (decoded input) = ok (AgentEvent.tool_call_requested id n input)
  with_input index id n (undecodable source) = err (
      malformed_event
        (codes "tool_use input for block " ++ serde.decimal index ++ codes ": " ++ source))

  unfoldable pub tool_call_event : ℕ → Bytes → Bytes → Bytes → Item Json
  tool_call_event index id n partial_json =
      if serde.is_blank partial_json
      then ok (AgentEvent.tool_call_requested id n serde.no_input)
      else with_input index id n (serde.input partial_json)

  abbrev thinking_event : Bytes → Option Bytes → Option (Item Json)
  thinking_event t none = none
  thinking_event t (some signature) = some (ok (AgentEvent.thinking_block t signature))

  unfoldable pub closed_block_event : ℕ → OpenBlock → Option (Item Json)
  closed_block_event index (OpenBlock.tool_use id n partial_json) =
      some (tool_call_event index id n partial_json)
  closed_block_event index (OpenBlock.thinking t signature) = thinking_event t (signed signature)

  abbrev push : Item Json → WireState Json → WireState Json
  push item s = record s { pending = s.pending ++ item ∷ [] }

  abbrev push_some : Option (Item Json) → WireState Json → WireState Json
  push_some none s = s
  push_some (some item) s = push item s

  unfoldable pub push_usage : WireState Json → WireState Json
  push_usage s =
      if reported s.usage
      then record s {
        usage = no_usage;
        pending =
            s.pending
            ++ ok (
                AgentEvent.usage s.usage.input_tokens s.usage.output_tokens
                  s.usage.cache_creation_input_tokens s.usage.cache_read_input_tokens)
              ∷ [];
      }
      else s

  -- The events of blocks that close in this order.
  unfoldable pub closing : Entries OpenBlock → List (Item Json)
  closing [] = []
  closing ((index, block) ∷ blocks) = elim (closed_block_event index block) [
    | none ↦ closing blocks
    | some item ↦ item ∷ closing blocks
  ]

  unfoldable pub flush_open_blocks : WireState Json → WireState Json
  flush_open_blocks s = record s { blocks = []; pending = s.pending ++ closing s.blocks }

  -- `state.ended = true`, and what is queued for good.
  abbrev finish : Item Json → WireState Json → WireState Json
  finish item s = push item (push_usage (record s { ended = true }))

  unfoldable pub start_block : ℕ → RawContentBlockStart → WireState Json → WireState Json
  start_block index (RawContentBlockStart.tool_use id n) s = record s {
    blocks = insert index (OpenBlock.tool_use id n []) s.blocks;
  }
  start_block index (RawContentBlockStart.thinking t) s = record s {
    blocks = insert index (OpenBlock.thinking t none) s.blocks;
  }
  start_block index (RawContentBlockStart.redacted_thinking blob) s =
      push (ok (AgentEvent.redacted_thinking blob)) (record s { blocks = remove index s.blocks })
  start_block index RawContentBlockStart.text s = record s { blocks = remove index s.blocks }
  start_block index RawContentBlockStart.unknown s = record s { blocks = remove index s.blocks }

  unfoldable pub take_delta : ℕ → RawDelta → WireState Json → WireState Json
  take_delta index (text_delta t) s = push (ok (AgentEvent.text t)) s
  take_delta index (thinking_delta t) s =
      push (ok (AgentEvent.thinking t))
        (record s { blocks = adjust index (push_thinking t) s.blocks })
  take_delta index (signature_delta value) s = record s {
    blocks = adjust index (push_signed value) s.blocks;
  }
  take_delta index (input_json_delta piece) s = record s {
    blocks = adjust index (push_json piece) s.blocks;
  }
  take_delta index RawDelta.unknown s = s

  abbrev close_block : ℕ → Option OpenBlock → WireState Json → WireState Json
  close_block index none s = s
  close_block index (some block) s =
      push_some (closed_block_event index block) (record s { blocks = remove index s.blocks })

  abbrev held_reason : Option StopReason → StopReason
  held_reason none = StopReason.unspecified
  held_reason (some reason) = reason

  abbrev note_reason : Option Bytes → WireState Json → WireState Json
  note_reason none s = s
  note_reason (some reason) s = record s { stop_reason = some (stop_reason_of reason) }

  -- The `match` on a parsed frame.
  unfoldable pub take_event : RawStreamEvent → WireState Json → WireState Json
  take_event (message_start u) s = record s { usage = absorb s.usage u }
  take_event (content_block_start index b) s = start_block index b s
  take_event (content_block_delta index d) s = take_delta index d s
  take_event (content_block_stop index) s = close_block index (get index s.blocks) s
  take_event (message_delta reason u) s = note_reason reason (record s { usage = absorb s.usage u })
  take_event message_stop s =
      let t = push_usage (flush_open_blocks (record s { ended = true })) in
      push (ok (AgentEvent.stop (held_reason t.stop_reason))) (record t { stop_reason = none })
  take_event ping s = s
  take_event (error kind message) s = finish (err (api_error none kind message)) s
  take_event RawStreamEvent.unknown s = s

  abbrev take_parsed : Decoded RawStreamEvent → WireState Json → WireState Json
  take_parsed (decoded event) s = take_event event s
  take_parsed (undecodable source) s =
      push (err (malformed_event (codes "unrecognized stream event: " ++ source)))
        (record s { ended = true })

  -- The body of the loop, for the next of the frames.
  unfoldable pub take_raw : Raw → WireState Json → WireState Json
  take_raw (failed e) s = finish (err e) s
  take_raw (data_frame d) s = if serde.is_blank d then s else take_parsed (serde.frame d) s

  -- The frames have run out.
  abbrev pub run_out : WireState Json → WireState Json
  run_out s = finish (err stream_ended_unexpectedly) s
