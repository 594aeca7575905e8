-- ===== src/Tools.antt =====
-- crates/sandbx-tools/src/builtin_tool.rs and tool_error.rs: the closed set of tools, their names
-- (each in its own `SPEC`) and risks, and why a call gave no result. What a tool does when it runs
-- is not modelled here.
pub mod Names
use sandbx.Common.{
  ℕ, ◌==◌, false, ◌||◌, Bool, List, [], ◌∷◌, Option, none, some, Bytes, codes, str_eq,
  if◌then◌else◌,
}

pub data BuiltinTool : Type 0 where
  read write bash edit ls grep find : BuiltinTool

pub data RiskLevel : Type 0 where
  read_only writes executes : RiskLevel

-- Durations are in milliseconds.
pub data ToolError : Type 0 where
  denied : (subject reason : Bytes) → ToolError
  bad_input : Bytes → ToolError
  failed : (subject detail : Bytes) → ToolError
  timed_out : Bytes → ℕ → ToolError

abbrev pub all_tools : List BuiltinTool
all_tools = read ∷ write ∷ bash ∷ edit ∷ ls ∷ grep ∷ find ∷ []

unfoldable pub name : BuiltinTool → Bytes
name read = codes "read"
name write = codes "write"
name bash = codes "bash"
name edit = codes "edit"
name ls = codes "ls"
name grep = codes "grep"
name find = codes "find"

unfoldable pub risk : BuiltinTool → RiskLevel
risk write = writes
risk edit = writes
risk bash = executes
risk _ = read_only

-- `into_iter().find(|tool| tool.name() == name)`.
find_named : Bytes → List BuiltinTool → Option BuiltinTool
unfolding name
find_named n [] = none
find_named n (t ∷ ts) = if str_eq (name t) n then some t else find_named n ts

unfoldable pub from_name : Bytes → Option BuiltinTool
unfolding find_named
from_name n = find_named n all_tools

-- The derived `==` of the enum compares its discriminants.
discriminant : BuiltinTool → ℕ
discriminant read = 0
discriminant write = 1
discriminant bash = 2
discriminant edit = 3
discriminant ls = 4
discriminant grep = 5
discriminant find = 6

unfoldable pub same_tool : BuiltinTool → BuiltinTool → Bool
unfolding discriminant
same_tool s t = discriminant s == discriminant t

-- `slice::contains`.
abbrev pub offers : List BuiltinTool → BuiltinTool → Bool
offers [] t = false
offers (s ∷ ss) t = same_tool s t || offers ss t
