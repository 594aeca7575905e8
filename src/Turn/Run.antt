-- ===== src/Turn/Run.antt =====
-- crates/sandbx-turn/src/turn.rs: the round loop of `run_turn_until`. `requests` and `actions` record,
-- newest first, the prompts that were built to be opened and what went past the gate; the code keeps
-- neither.
pub mod Strip
pub mod Legal
pub mod Rounds
pub mod Heard
use sandbx.Common.{
  ℕ, zero, suc, Bool, true, false, not, List, [], ◌∷◌, ◌++◌, map, Option, none, some, ◌==◌,
  if◌then◌else◌, Bytes, is_some, ◌||◌, length, last?, any, retain, is_empty, or_else,
}
use sandbx.Compact.{Compaction, PromptUsage, over_budget, plan_cut, window}
use sandbx.Event.{StopReason}
use sandbx.Prompt.{
  Role, user, assistant, is_user, ContentBlock, RequestMessage, is_thinking, Prompt, ToolDefinition,
}
use sandbx.Tools.{BuiltinTool, name}
use sandbx.Turn.{
  TurnError, provider, ended_mid_tool_use, TurnStop, answered, round_limit, gate_aborted,
  interrupted, Opened, stream, refused, Await, ready, failed, World, Turn, TurnOutcome,
}
use sandbx.Turn.Accumulate.{Round, empty_draft, accumulate}
use sandbx.Turn.Answer.{Action, Answers, Answering, answer_calls}

module _ {Json : Type 0} where
  abbrev strip : RequestMessage Json → RequestMessage Json
  strip m = record m { content = retain (λ b. not (is_thinking b)) m.content }

  unfoldable pub drop_thinking : List (RequestMessage Json) → List (RequestMessage Json)
  drop_thinking ms = retain (λ m. not (is_empty m.content)) (map strip ms)

  -- `outcome`, the one exit.
  unfoldable pub outcome :
      List (RequestMessage Json)
      → Option PromptUsage
      → ℕ
      → TurnStop
      → Option StopReason
      → TurnOutcome Json
  outcome produced usage withheld stop round_stop = record {
    messages = drop_thinking produced;
    usage = usage;
    withheld = withheld;
    stop = stop;
    round_stop = round_stop;
  }

-- A request as it was built to be opened, with the cut that it was built with.
pub record Request (Json : Type 0) : Type 0 where
  pub cut : ℕ
  pub produced : List (RequestMessage Json)
  pub prompt : Prompt Json

-- The locals of `run_turn_until`.
pub record Loop (Json State : Type 0) : Type 0 where
  pub produced : List (RequestMessage Json)
  pub observed : Option PromptUsage
  pub usage : Option PromptUsage
  pub last_stop : Option StopReason
  pub cut : ℕ
  pub floor : ℕ
  pub measured : Bool
  pub sent_cut : Option ℕ
  pub streamed_cut : ℕ
  pub state : State
  pub requests : List (Request Json)
  pub actions : List (List (Action Json))

-- What one pass through the loop comes to.
pub data Pass (Json State : Type 0) : Type 0 where
  again : Loop Json State → Pass Json State
  done : TurnOutcome Json → Loop Json State → Pass Json State
  fault : TurnError → Loop Json State → Pass Json State

-- `over_budget(..).then_some(policy.keep_recent)`.
abbrev kept_recent : Compaction → Option PromptUsage → Option ℕ
kept_recent policy observed =
    if over_budget observed policy.budget_tokens then some policy.keep_recent else none

abbrev unwrap_or : Option ℕ → ℕ → ℕ
unwrap_or none d = d
unwrap_or (some n) d = n

abbrev deepened : Option ℕ → ℕ → Bool
deepened none cut = false
deepened (some previous) cut = not (previous == cut)

module _ {Json : Type 0} (w : World Json) (turn : Turn Json) where
  abbrev pub Looping : Type 0
  Looping = Loop Json w.State

  unfoldable pub definition : BuiltinTool → ToolDefinition Json
  definition t = record { name = name t; description = w.describe t; schema = w.schema t }

  abbrev pub start : w.State → Looping
  start s = record {
    produced = [];
    observed = turn.observed;
    usage = none;
    last_stop = none;
    cut = 0;
    floor = turn.withheld;
    measured = true;
    sent_cut = none;
    streamed_cut = turn.withheld;
    state = s;
    requests = [];
    actions = [];
  }

  abbrev replan : Compaction → Looping → Looping
  replan policy l =
      let keep = kept_recent policy l.observed in
      let c = unwrap_or (plan_cut turn.history (length l.produced) keep l.floor) l.cut in
      record l { cut = c; floor = c; measured = false }

  unfoldable pub plan_with : Option Compaction → Looping → Looping
  plan_with none l = l
  plan_with (some policy) l = replan policy l

  -- The compaction step at the head of the loop.
  unfoldable pub plan : Looping → Looping
  plan l = if l.measured then plan_with turn.limits.compaction l else l

  -- The reasoning that a deepened cut invalidates goes, and the cut is noted as sent.
  unfoldable pub mark_sent : Looping → Looping
  mark_sent l = record l {
    produced = if deepened l.sent_cut l.cut then drop_thinking l.produced else l.produced;
    sent_cut = some l.cut;
  }

  unfoldable pub request : Looping → Prompt Json
  request l = record {
    model = turn.model;
    max_output_tokens = turn.max_output_tokens;
    system = turn.system;
    messages = window turn.history l.cut ++ l.produced;
    tools = map definition turn.tools;
    tool_choice = turn.tool_choice;
    thinking = turn.thinking;
  }

  unfoldable pub drained : Opened Json × w.State → Await (Round Json) w.State
  drained (stream ps, s) = accumulate w turn.limits.stream_timeout ps empty_draft s
  drained (refused e, s) = failed (provider e) s
  drained (Opened.stopped, s) = Await.stopped s

  -- `open`, and draining the stream within the timeout, raced against the stop.
  unfoldable pub streamed : Looping → Await (Round Json) w.State
  streamed l =
      if w.stops l.state then Await.stopped l.state else drained (w.open_stream (request l) l.state)

  -- Before any exit: the counts of the round, and why it ended.
  unfoldable pub note_round : Round Json → Looping → Looping
  note_round r l = record l {
    usage = or_else r.usage l.usage;
    observed = or_else r.usage l.observed;
    measured = l.measured || is_some r.usage;
    last_stop = some r.reason;
    streamed_cut = l.cut;
  }

  abbrev pub end_with : Looping → TurnStop → Pass Json w.State
  end_with l stop = done (outcome l.produced l.usage l.cut stop l.last_stop) l

  abbrev pub end_interrupted : Looping → Pass Json w.State
  end_interrupted l = done (outcome l.produced l.usage l.streamed_cut interrupted l.last_stop) l

  abbrev push : Role → List (ContentBlock Json) → Looping → Looping
  push r blocks l = record l { produced = l.produced ++ record { role = r; content = blocks } ∷ [] }

  unfoldable pub conclude : List (ContentBlock Json) → Option Bytes → Looping → Pass Json w.State
  conclude [] aborted l = end_with l (if is_some aborted then gate_aborted else answered)
  conclude (b ∷ bs) aborted l =
      let l' = push user (b ∷ bs) l in
      if is_some aborted then end_with l' gate_aborted else again l'

  abbrev after_calls : Looping → Answering w turn.tools → Looping
  after_calls l a = record l { state = a.state; actions = a.actions ∷ l.actions }

  unfoldable pub answer_round :
      Round Json → Looping → Await (Unit {0}) (Answering w turn.tools) → Pass Json w.State
  answer_round r l (ready _ a) =
      conclude a.results a.aborted (push assistant r.blocks (after_calls l a))
  answer_round r l (failed e a) = fault e (after_calls l a)
  answer_round r l (Await.stopped a) = end_interrupted (after_calls l a)

  abbrev ends_on_user : List (RequestMessage Json) → Bool
  ends_on_user ms = elim (last? ms) [ none ↦ false | some m ↦ is_user m.role ]

  -- A round that has streamed.
  unfoldable pub take_round : Round Json → Looping → Pass Json w.State
  take_round r l =
      if not (any (λ b. not (is_thinking b)) r.blocks)
      then (if ends_on_user l.produced then fault ended_mid_tool_use l else end_with l answered)
      else if w.stops l.state
      then end_interrupted l
      else answer_round r l (answer_calls w turn.tools r.blocks l.state)

  abbrev after_request : Looping → w.State → Looping
  after_request l s = record l {
    state = s;
    requests = record { cut = l.cut; produced = l.produced; prompt = request l } ∷ l.requests;
  }

  unfoldable pub after_stream : Looping → Await (Round Json) w.State → Pass Json w.State
  after_stream l (ready r s) = take_round r (note_round r (after_request l s))
  after_stream l (failed e s) = fault e (after_request l s)
  after_stream l (Await.stopped s) = end_interrupted (after_request l s)

  -- One pass through the loop.
  unfoldable pub pass : Looping → Pass Json w.State
  pass l = let l' = mark_sent (plan l) in after_stream l' (streamed l')

  unfoldable pub run_rounds : ℕ → Looping → Pass Json w.State
  run_rounds zero l = end_with l (round_limit turn.limits.max_rounds)
  run_rounds (suc n) l = elim (pass l) [
    | again l' ↦ run_rounds n l'
    | done o l' ↦ done o l'
    | fault e l' ↦ fault e l'
  ]

  unfoldable pub run_turn_until : w.State → Pass Json w.State
  run_turn_until s = run_rounds turn.limits.max_rounds (start s)
