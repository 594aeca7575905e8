-- ===== src/Cli/AgentRun.antt =====
-- crates/sandbx-cli/src/agent_run.rs: a run's turn under the gate of its arguments, and the wrap-up
-- behind one that ran out of rounds.
pub mod Storable
use sandbx.Common.{ℕ, Bool, List, [], Option, none, some, Bytes, if◌then◌else◌}
use sandbx.Turn.{
  TurnError, TurnStop, answered, round_limit, gate_aborted, interrupted, World, Turn, TurnOutcome,
}
use sandbx.Turn.Run.{Pass, again, done, fault, run_turn_until}
use sandbx.Cli.Gate.{Allowed, Values, Operator, ArgvGate, gated}
use sandbx.Cli.WrapUp.{Unfinished, cut_short, aborted, finish, run}

-- The turn to store, with how it fell short, or the error that lost it.
pub data Ended (Json : Type 0) : Type 0 where
  stored : TurnOutcome Json → Option Unfinished → Ended Json
  lost : TurnError → Ended Json

module _ {Json T : Type 0} (values : Values Json) (operator : Operator Json T) (allowed : Allowed)
    (explain : TurnError → Bytes × List Bytes) (no_wrap_up : Bool) (w : World Json)
    (turn : Turn Json) where
  unfoldable pub wrapped : ℕ → TurnOutcome Json → w.State → Ended Json
  wrapped rounds first s =
      let r = finish (run w explain turn first s) first rounds [] in stored r.0.0 (some r.0.1)

  unfoldable pub ended : TurnStop → TurnOutcome Json → w.State → Ended Json
  ended (round_limit rounds) first s =
      if no_wrap_up then stored first (some (cut_short rounds)) else wrapped rounds first s
  ended gate_aborted first s = stored first (some aborted)
  ended answered first s = stored first none
  ended interrupted first s = stored first none

  -- The match on how the turn stopped; a turn never ends on `again`.
  unfoldable pub settle : Pass Json (w.State × ArgvGate T) → Option (Ended Json)
  settle (done first l) = some (ended first.stop first l.state.0)
  settle (fault e l) = some (lost e)
  settle (again l) = none

  unfoldable pub agent_turn : w.State × ArgvGate T → Option (Ended Json)
  agent_turn s = settle (run_turn_until (gated values operator allowed w) turn s)
