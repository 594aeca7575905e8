-- ===== src/Turn/Answer.antt =====
-- crates/sandbx-turn/src/tools.rs: asking the gate, running the calls of a round and answering each.
-- `actions` records, newest first, what the gate was asked, what it was told and what was run.
pub mod Exactly
pub mod Gated
pub mod Aborted
use sandbx.Common.{
  ℕ, Bool, true, false, List, [], ◌∷◌, ◌++◌, Option, none, some, Bytes, codes, if◌then◌else◌,
  is_some,
}
use sandbx.Prompt.{ContentBlock, tool_use, tool_result, ToolDefinition}
use sandbx.Tools.{BuiltinTool, from_name, offers, name}
use sandbx.Turn.{
  tool_panicked, ToolCall, ApprovalDecision, allow, deny, abort, Outcome, unknown, not_offered, ran,
  denied, errored, Settled, Finished, output, error, panicked, World, Await, ready, failed,
}

pub data Action (Json : Type 0) : Type 0 where
  asked : ToolCall Json → ApprovalDecision → Action Json
  executed : ToolCall Json → Action Json
  told : Settled Json → Action Json

abbrev settling : {Json : Type 0} → Bytes → ToolCall Json → Outcome → Settled Json
settling n c outcome = record {
  name = n;
  id = c.id;
  tool = some c.tool;
  input = c.input;
  outcome = outcome;
}

-- The locals of `answer_calls`, and the world around it.
pub record Answers (Json State : Type 0) : Type 0 where
  pub results : List (ContentBlock Json)
  pub aborted : Option Bytes
  pub actions : List (Action Json)
  pub state : State

module _ {Json : Type 0} (w : World Json) (offered : List BuiltinTool) where
  abbrev pub Answering : Type 0
  Answering = Answers Json w.State

  abbrev begin : w.State → Answering
  begin s = record { results = []; aborted = none; actions = []; state = s }

  -- `gate.settled(..)` and `results.push(..)`.
  answer : Answering → Settled Json → ContentBlock Json → Answering
  answer a s result = record a {
    results = a.results ++ result ∷ [];
    actions = told s ∷ a.actions;
    state = w.settled s a.state;
  }

  abbrev refused : Bytes → Bytes → ContentBlock Json
  refused id content = tool_result id content (some true)

  -- The tool has been run: its answer, or how the await of its task ended.
  answer_run : Bytes → ToolCall Json → Finished → Answering → Await (Unit {0}) Answering
  unfolding answer
  answer_run n c (output content) a =
      ready tt (answer a (settling n c ran) (tool_result c.id content none))
  answer_run n c (error e) a =
      ready tt (answer a (settling n c (errored e)) (refused c.id (w.error_text e)))
  answer_run n c panicked a = failed (tool_panicked n) a
  answer_run n c Finished.stopped a = Await.stopped a

  run_call : Bytes → ToolCall Json → Answering → Await (Unit {0}) Answering
  unfolding answer_run
  run_call n c a =
      let (finished, s) = w.execute c a.state in
      answer_run n c finished (record a { actions = executed c ∷ a.actions; state = s })

  -- The gate's verdict; after an abort it is not asked.
  verdict : Option Bytes → ToolCall Json → Answering → ApprovalDecision × Answering
  verdict (some reason) c a = (deny reason, a)
  verdict none c a =
      let (d, s) = w.approve c a.state in
      (d, record a { actions = asked c d ∷ a.actions; state = s })

  obey : Bytes → ToolCall Json → ApprovalDecision × Answering → Await (Unit {0}) Answering
  unfolding answer run_call
  obey n c (allow, a) = run_call n c a
  obey n c (deny reason, a) =
      ready tt (answer a (settling n c (denied reason)) (refused c.id reason))
  obey n c (abort reason, a) =
      let answered = answer a (settling n c (denied reason)) (refused c.id reason) in
      ready tt (record answered { aborted = some reason })

  answer_tool : Bytes → Bytes → Json → Option BuiltinTool → Answering → Await (Unit {0}) Answering
  unfolding answer obey verdict
  answer_tool n id input none a = ready tt (
      answer a (record { name = n; id = id; tool = none; input = input; outcome = unknown })
        (refused id (codes "unknown tool: " ++ n)))
  answer_tool n id input (some t) a =
      let c : ToolCall Json = record { tool = t; id = id; input = input } in
      if offers offered t
      then obey n c (verdict a.aborted c a)
      else ready tt (
          answer a (settling n c not_offered)
            (refused id (codes "tool not offered this turn: " ++ n)))

  -- The body of the loop: only a tool call is answered.
  unfoldable pub answer_block : ContentBlock Json → Answering → Await (Unit {0}) Answering
  unfolding answer_tool
  answer_block (tool_use id n input) a = answer_tool n id input (from_name n) a
  answer_block _ a = ready tt a

  unfoldable pub answer_from : List (ContentBlock Json) → Answering → Await (Unit {0}) Answering
  answer_from [] a = ready tt a
  answer_from (b ∷ bs) a = elim (answer_block b a) [
    | ready _ a' ↦ answer_from bs a'
    | failed e a' ↦ failed e a'
    | Await.stopped a' ↦ Await.stopped a'
  ]

  abbrev pub answer_calls : List (ContentBlock Json) → w.State → Await (Unit {0}) Answering
  answer_calls blocks s = answer_from blocks (begin s)
