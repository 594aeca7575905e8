-- ===== src/Cli/Consent.antt =====
-- crates/sandbx-cli/src/agent_prompt.rs: the question an operator answers before a call runs. What
-- writing the question and reading a line give is a list of exchanges for each question.
pub mod Words
use sandbx.Common.{
  ℕ, Bool, true, false, not, ◌&&◌, ◌||◌, ◌==◌, List, [], ◌∷◌, ◌++◌, Option, none, some, Bytes,
  codes, str_eq, is_empty, if◌then◌else◌,
}
use sandbx.Text.{within}
use sandbx.Tools.{BuiltinTool, RiskLevel, read_only, writes, executes, name, risk, offers}
use sandbx.Turn.{ToolCall, ApprovalDecision, allow, deny, abort}
use sandbx.Cli.Gate.{Values, Operator, describe}

-- `char::is_whitespace`.
abbrev is_whitespace : ℕ → Bool
is_whitespace c =
    within 9 13 c
    || c == 32
    || c == 133
    || c == 160
    || c == 5760
    || within 8192 8202 c
    || within 8232 8233 c
    || c == 8239
    || c == 8287
    || c == 12288

abbrev trim_start : Bytes → Bytes
trim_start [] = []
trim_start (c ∷ cs) = if is_whitespace c then trim_start cs else c ∷ cs

abbrev trim_end : Bytes → Bytes
trim_end [] = []
trim_end (c ∷ cs) =
    let rest = trim_end cs in if is_whitespace c && is_empty rest then [] else c ∷ rest

abbrev pub trim : Bytes → Bytes
trim t = trim_end (trim_start t)

-- One pass through the loop of `ask`: the question could not be written, or what reading a line gave.
pub data Exchange : Type 0 where
  unwritten invalid_data closed : Exchange
  typed : Bytes → Exchange

-- What this run has been consented to.
pub record Consent : Type 0 where
  pub blanket : List BuiltinTool

abbrev pub refused_text : Bytes
refused_text =
    codes "the operator refused this call; no flag lifts a refusal, though a "
    ++ codes "later call may still be approved"

abbrev pub closed_text : Bytes
closed_text = codes "the operator's terminal is closed, so no call can be approved"

abbrev pub uncleared_text : Bytes
uncleared_text =
    codes "the operator's terminal could not be cleared to ask on, "
    ++ codes "so no call can be approved"

unfoldable pub verb : BuiltinTool → Bytes
verb t = elim (risk t) [
  | read_only ↦ codes "reads"
  | writes ↦ codes "writes a file"
  | executes ↦ codes "runs a program"
]

unfoldable pub question : {Json : Type 0} → Values Json → ToolCall Json → Bytes
question values c =
    10 ∷ codes "sandbx: "
    ++ describe values c.tool c.input
    ++ 10 ∷ codes "sandbx: this call "
    ++ verb c.tool
    ++ codes ". allow it? [y]es / [n]o / [a]ll `"
    ++ name c.tool
    ++ codes "` calls > "

-- What an answer decides, if it is one of the words.
unfoldable pub decision_of :
    {Json : Type 0} → ToolCall Json → Consent → Bytes → Option (ApprovalDecision × Consent)
decision_of c k word =
    if str_eq word (codes "y") || str_eq word (codes "yes")
    then some (allow, k)
    else if str_eq word (codes "n") || str_eq word (codes "no")
    then some (deny refused_text, k)
    else if str_eq word (codes "a") || str_eq word (codes "all")
    then some (allow, record { blanket = k.blanket ++ c.tool ∷ [] })
    else none

abbrev pub unless_decided :
    Option (ApprovalDecision × Consent) → ApprovalDecision × Consent → ApprovalDecision × Consent
unless_decided none rest = rest
unless_decided (some d) rest = d

-- The loop of `ask`. A terminal that has nothing more to give is closed.
unfoldable pub ask_loop :
    {Json : Type 0} → ToolCall Json → List Exchange → Consent → ApprovalDecision × Consent
ask_loop c [] k = (abort closed_text, k)
ask_loop c (unwritten ∷ es) k = (abort closed_text, k)
ask_loop c (closed ∷ es) k = (abort closed_text, k)
ask_loop c (invalid_data ∷ es) k = ask_loop c es k
ask_loop c (typed answer ∷ es) k =
    let rest = ask_loop c es k in unless_decided (decision_of c k (trim answer)) rest

-- `Consent::ask`.
unfoldable pub ask :
    {Json : Type 0} → ToolCall Json → List Exchange → Consent → ApprovalDecision × Consent
ask c es k = if offers k.blanket c.tool then (allow, k) else ask_loop c es k

-- A question to come: whether the terminal can be cleared for it, which drops what was typed before,
-- and what passes behind that.
pub record Question : Type 0 where
  pub cleared : Bool
  pub exchanges : List Exchange

pub record Terminal : Type 0 where
  pub consent : Consent
  pub questions : List Question
  pub reported : List Bytes

-- `Terminal::ask`.
unfoldable pub ask_terminal :
    {Json : Type 0} → ToolCall Json → Terminal → ApprovalDecision × Terminal
ask_terminal c t = elim t.questions [
  | [] ↦ (abort uncleared_text, t)
  | q ∷ qs ↦
      let (d, k) = ask c q.exchanges t.consent in
      if not q.cleared
      then (abort uncleared_text, record t { questions = qs })
      else (d, record t { consent = k; questions = qs })
]

abbrev pub operator : {Json : Type 0} → Operator Json Terminal
operator = record {
  ask = ask_terminal;
  report_line = λ line t. record t { reported = t.reported ++ line ∷ [] };
}
