-- ===== src/Event.antt =====
-- crates/sandbx-event/src/lib.rs and the error of crates/sandbx-provider/src/lib.rs: what a streamed
-- model turn is told in. A boxed source error is the text that it displays as.
use sandbx.Common.{ℕ, Option, Bytes}

pub data StopReason : Type 0 where
  end_turn tool_use max_tokens stop_sequence unspecified : StopReason
  other : Bytes → StopReason

pub data AgentEvent (Json : Type 0) : Type 0 where
  text : Bytes → AgentEvent Json
  thinking : Bytes → AgentEvent Json
  thinking_block : (text signature : Bytes) → AgentEvent Json
  redacted_thinking : Bytes → AgentEvent Json
  tool_call_requested : (id name : Bytes) → Json → AgentEvent Json
  usage : (input output cache_write cache_read : Option ℕ) → AgentEvent Json
  stop : StopReason → AgentEvent Json

-- `retry_after` is in milliseconds.
pub data ProviderError : Type 0 where
  invalid_base_url : (base_url reason : Bytes) → ProviderError
  transport : (detail source : Bytes) → ProviderError
  api_error : Option ℕ → (kind message : Bytes) → ProviderError
  rate_limited : Option ℕ → Bytes → ProviderError
  malformed_event : Bytes → ProviderError
  stream_ended_unexpectedly : ProviderError
