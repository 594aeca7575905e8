-- ===== src/Turn.antt =====
-- crates/sandbx-turn/src and crates/sandbx-approval/src/lib.rs: one turn of the conversation. What
-- the loop meets outside (the provider, the gate, the tools, the observer, the clock and the future
-- that stops the turn) is a `World`: a state of its own, and what each of them answers in it.
-- Durations are in milliseconds. An await gives back a value, or the stop that was raced against it.
pub mod Accumulate
pub mod Answer
pub mod Run
mod Tests
use sandbx.Common.{ℕ, Bool, List, Option, Bytes}
use sandbx.Compact.{Compaction, PromptUsage}
use sandbx.Event.{AgentEvent, StopReason, ProviderError}
use sandbx.Prompt.{RequestMessage, Prompt, ToolChoice, Thinking, ToolDefinition}
use sandbx.Tools.{BuiltinTool, ToolError}

pub data TurnError : Type 0 where
  provider : ProviderError → TurnError
  stream_ended_without_stop ended_mid_tool_use : TurnError
  timed_out : ℕ → TurnError
  tool_panicked : Bytes → TurnError

pub data TurnStop : Type 0 where
  answered : TurnStop
  round_limit : ℕ → TurnStop
  gate_aborted interrupted : TurnStop

pub record TurnLimits : Type 0 where
  pub max_rounds : ℕ
  pub stream_timeout : ℕ
  pub compaction : Option Compaction

pub record ToolCall (Json : Type 0) : Type 0 where
  pub tool : BuiltinTool
  pub id : Bytes
  pub input : Json

pub data ApprovalDecision : Type 0 where
  allow : ApprovalDecision
  deny abort : Bytes → ApprovalDecision

pub data Outcome : Type 0 where
  unknown not_offered ran : Outcome
  denied : Bytes → Outcome
  errored : ToolError → Outcome

pub record Settled (Json : Type 0) : Type 0 where
  pub name : Bytes
  pub id : Bytes
  pub tool : Option BuiltinTool
  pub input : Json
  pub outcome : Outcome

-- One poll of a stream that is raced against the round's timeout and the turn's stop: an item, or
-- which of the two ended the wait. A list of polls that runs out is the stream's own end.
pub data Poll (Json : Type 0) : Type 0 where
  event : AgentEvent Json → Poll Json
  failure : ProviderError → Poll Json
  elapsed stopped : Poll Json

-- What awaiting `open` gives.
pub data Opened (Json : Type 0) : Type 0 where
  stream : List (Poll Json) → Opened Json
  refused : ProviderError → Opened Json
  stopped : Opened Json

-- What awaiting the blocking task of a tool gives.
pub data Finished : Type 0 where
  output : Bytes → Finished
  error : ToolError → Finished
  panicked stopped : Finished

-- What a future gives that is raced against the stop: its value, or its error, or nothing.
pub data Await (A State : Type 0) : Type 0 where
  ready : A → State → Await A State
  failed : TurnError → State → Await A State
  stopped : State → Await A State

pub record World (Json : Type 0) : Type 1 where
  pub State : Type 0
  -- Whether the stop has resolved when a raced future is first polled.
  pub stops : State → Bool
  pub open_stream : Prompt Json → State → Opened Json × State
  pub observe : AgentEvent Json → State → State
  pub approve : ToolCall Json → State → ApprovalDecision × State
  pub settled : Settled Json → State → State
  pub execute : ToolCall Json → State → Finished × State
  -- `ToolError`'s `Display`.
  pub error_text : ToolError → Bytes
  -- `description` and `input_schema` of a tool.
  pub describe : BuiltinTool → Bytes
  pub schema : BuiltinTool → Json

pub record Turn (Json : Type 0) : Type 0 where
  pub model : Bytes
  pub max_output_tokens : ℕ
  pub system : Option Bytes
  pub tools : List BuiltinTool
  pub tool_choice : Option ToolChoice
  pub thinking : Option Thinking
  pub history : List (RequestMessage Json)
  pub limits : TurnLimits
  pub observed : Option PromptUsage
  pub withheld : ℕ

pub record TurnOutcome (Json : Type 0) : Type 0 where
  pub messages : List (RequestMessage Json)
  pub usage : Option PromptUsage
  pub withheld : ℕ
  pub stop : TurnStop
  pub round_stop : Option StopReason
