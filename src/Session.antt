-- ===== src/Session.antt =====
-- crates/sandbx-session-message/src/lib.rs: what a transcript holds. A `serde_json::Value` is a type
-- parameter.
pub mod Shape
pub mod Record
pub mod Store
pub mod Bridge
pub mod Id
mod Tests
use sandbx.Common.{ℕ, Bool, true, false, List, Option, Bytes}

pub data Role : Type 0 where
  user assistant : Role

pub data Content (Json : Type 0) : Type 0 where
  text : Bytes → Content Json
  tool_use : (id name : Bytes) → Json → Content Json
  tool_result : (tool_use_id content : Bytes) → Option Bool → Content Json

pub record Message (Json : Type 0) : Type 0 where
  pub role : Role
  pub content : List (Content Json)

pub record Usage : Type 0 where
  pub input_tokens : Option ℕ
  pub cache_read_input_tokens : Option ℕ
  pub cache_creation_input_tokens : Option ℕ

pub data TurnStop : Type 0 where
  answered round_limit summarised gate_aborted interrupted hung_up : TurnStop

pub record CompletedTurn (Json : Type 0) : Type 0 where
  pub messages : List (Message Json)
  pub observed : Option Usage
  pub withheld : ℕ
  pub stop : TurnStop

-- The derived `==` of the enum.
abbrev pub same_role : Role → Role → Bool
same_role user user = true
same_role assistant assistant = true
same_role _ _ = false

-- `matches!(block, Content::ToolResult { .. })`.
abbrev pub is_result : {Json : Type 0} → Content Json → Bool
is_result (tool_result _ _ _) = true
is_result _ = false
