-- ===== src/Cli/WrapUp.antt =====
-- crates/sandbx-cli/src/agent_wrapup.rs: the round without tools that is asked for where a turn ran out
-- of rounds. The text of an error and of its causes is a parameter.
pub mod Answer
use sandbx.Common.{
  ℕ, Bool, true, false, not, ◌||◌, List, [], ◌∷◌, ◌++◌, Option, none, some, Bytes, codes,
  if◌then◌else◌, is_empty, or_else,
}
use sandbx.Event.{AgentEvent, text}
use sandbx.Prompt.{RequestMessage, ToolChoice, no_tool}
use sandbx.Tools.{BuiltinTool}
use sandbx.Turn.{TurnError, TurnStop, answered, deny, World, Turn, TurnOutcome}
use sandbx.Turn.Run.{Pass, again, done, fault, run_turn_until}
use sandbx.Cli.Spelling.{error_line}

abbrev nudge : Bytes
nudge =
    codes "You have no tool calls left. Answer now from what you have already "
    ++ codes "found, and say plainly what you could not finish."

-- `REFUSED`.
abbrev pub no_call : Bytes
no_call = codes "no tool may be called while answering a turn that ran out of rounds"

-- How a turn ended short of a finished answer.
pub data Unfinished : Type 0 where
  cut_short summarised discarded : ℕ → Unfinished
  aborted : Unfinished

-- Whether an event shows the operator any text.
abbrev streamed_text : {Json : Type 0} → AgentEvent Json → Bool
streamed_text (text delta) = not (is_empty delta)
streamed_text _ = false

pub record WrapUp (Json : Type 0) : Type 0 where
  pub answer : Option (TurnOutcome Json)
  pub wrote : Bool
  pub said : Option Bytes

abbrev is_answered : TurnStop → Bool
is_answered answered = true
is_answered _ = false

abbrev nudged : Option Bytes → Bytes
nudged none = nudge
nudged (some system) = system ++ 10 ∷ 10 ∷ nudge

module _ {Json : Type 0} where
  -- The turn that asks once more.
  unfoldable pub wrap_up_turn : Turn Json → TurnOutcome Json → Turn Json
  wrap_up_turn turn first = record turn {
    system = some (nudged turn.system);
    tool_choice = some no_tool;
    history = turn.history ++ first.messages;
    limits = record turn.limits { max_rounds = 1 };
    observed = or_else first.usage turn.observed;
    withheld = first.withheld;
  }

  -- `RefuseAll` for the gate, and the observer that notes whether the round streamed any text.
  abbrev pub refusing_all : World Json → World Json
  refusing_all w = record {
    State = w.State × Bool;
    stops = λ s. w.stops s.0;
    open_stream = λ p s. let (o, t) = w.open_stream p s.0 in (o, (t, s.1));
    observe = λ e s. (w.observe e s.0, s.1 || streamed_text e);
    approve = λ c s. (deny no_call, s);
    settled = λ call s. (w.settled call s.0, s.1);
    execute = λ c s. let (f, t) = w.execute c s.0 in (f, (t, s.1));
    error_text = w.error_text;
    describe = w.describe;
    schema = w.schema;
  }

  unfoldable pub merge : TurnOutcome Json → TurnOutcome Json → TurnOutcome Json
  merge first second = record {
    messages = first.messages ++ second.messages;
    usage = or_else second.usage first.usage;
    withheld = second.withheld;
    stop = second.stop;
    round_stop = second.round_stop;
  }

  -- `WrapUp::finish`: the turn to store, how it ended, and what is noted.
  unfoldable pub finish :
      WrapUp Json → TurnOutcome Json → ℕ → List Bytes → (TurnOutcome Json × Unfinished) × List Bytes
  finish u first rounds notes =
      let noted : List Bytes = elim u.said [ none ↦ notes | some l ↦ notes ++ l ∷ [] ] in
      elim u.answer [
        | some second ↦ ((merge first second, summarised rounds), noted)
        | none ↦ ((first, if u.wrote then discarded rounds else cut_short rounds), noted)
      ]

module _ {Json : Type 0} (w : World Json) where
  abbrev pub second_turn : Turn Json → TurnOutcome Json → w.State → Pass Json (w.State × Bool)
  second_turn turn first s = run_turn_until (refusing_all w) (wrap_up_turn turn first) (s, false)

module _ {Json : Type 0} (w : World Json) (explain : TurnError → Bytes × List Bytes) where
  -- What the second turn comes to; a turn never ends on `again`.
  unfoldable pub judge : Pass Json (w.State × Bool) → WrapUp Json
  judge (fault e l) = record {
    answer = none;
    wrote = l.state.1;
    said =
        some
          (codes "sandbx: the wrap-up request failed: " ++ error_line (explain e).0 (explain e).1);
  }
  judge (done second l) =
      if is_empty second.messages || not (is_answered second.stop)
      then record {
        answer = none;
        wrote = l.state.1;
        said = some (
            codes "sandbx: the wrap-up round "
            ++ (if is_empty second.messages
                then codes "replied with nothing"
                else codes "asked for a tool instead of answering"));
      }
      else record { answer = some second; wrote = l.state.1; said = none }
  judge (again l) = record { answer = none; wrote = l.state.1; said = none }

  unfoldable pub run : Turn Json → TurnOutcome Json → w.State → WrapUp Json
  run turn first s = judge (second_turn w turn first s)
