-- ===== src/Prompt.antt =====
-- crates/sandbx-prompt/src/lib.rs: what a request carries. A `serde_json::Value` is a type
-- parameter: nothing here looks into one.
pub mod Conversation
use sandbx.Common.{ℕ, Bool, true, false, List, Option, Bytes}

pub data Role : Type 0 where
  user assistant : Role

-- `matches!(role, Role::User)`.
abbrev pub is_user : Role → Bool
is_user user = true
is_user assistant = false

pub data ContentBlock (Json : Type 0) : Type 0 where
  text : Bytes → ContentBlock Json
  thinking : (text signature : Bytes) → ContentBlock Json
  redacted_thinking : Bytes → ContentBlock Json
  tool_use : (id name : Bytes) → Json → ContentBlock Json
  tool_result : (tool_use_id content : Bytes) → Option Bool → ContentBlock Json

pub record RequestMessage (Json : Type 0) : Type 0 where
  pub role : Role
  pub content : List (ContentBlock Json)

-- Absent means the provider's default, so each has the one variant.
pub data ToolChoice : Type 0 where
  no_tool : ToolChoice

pub data Thinking : Type 0 where
  visible : Thinking

pub record ToolDefinition (Json : Type 0) : Type 0 where
  pub name : Bytes
  pub description : Bytes
  pub schema : Json

pub record Prompt (Json : Type 0) : Type 0 where
  pub model : Bytes
  pub max_output_tokens : ℕ
  pub system : Option Bytes
  pub messages : List (RequestMessage Json)
  pub tools : List (ToolDefinition Json)
  pub tool_choice : Option ToolChoice
  pub thinking : Option Thinking

module _ {Json : Type 0} where
  -- `ContentBlock::is_thinking`.
  abbrev pub is_thinking : ContentBlock Json → Bool
  is_thinking (thinking _ _) = true
  is_thinking (redacted_thinking _) = true
  is_thinking _ = false

  -- `matches!(block, ContentBlock::ToolResult { .. })`.
  abbrev pub is_result : ContentBlock Json → Bool
  is_result (tool_result _ _ _) = true
  is_result _ = false
