-- ===== src/Cli/AgentRun/Storable.antt =====
-- What a run of the agent stores of its turn.
use sandbx.Common.{Bool, true, List, [], ◌≡◌, refl, Option, none, some, Bytes, if_elim}
use sandbx.Turn.{
  TurnError, TurnStop, answered, round_limit, gate_aborted, interrupted, World, Turn, TurnOutcome,
}
use sandbx.Turn.Run.{Pass, again, done, fault, run_turn_until}
use sandbx.Turn.Run.Legal.{IsReady, Good, run_turn_until-Good}
use sandbx.Turn.Run.Rounds.{is_over, run_turn_until-Over}
use sandbx.Cli.Gate.{Allowed, Values, Operator, ArgvGate, gated}
use sandbx.Cli.WrapUp.Answer.{IsStorable, finish-IsStorable}
use sandbx.Cli.AgentRun.{Ended, stored, lost, wrapped, ended, settle, agent_turn}

module _ {Json T : Type 0} (values : Values Json) (operator : Operator Json T) (allowed : Allowed)
    (explain : TurnError → Bytes × List Bytes) (no_wrap_up : Bool) (w : World Json)
    (turn : Turn Json) (v : IsReady turn.history) where
  abbrev pub Stores : Option (Ended Json) → Type 0
  Stores none = ⊥
  Stores (some (lost e)) = Unit {0}
  Stores (some (stored o unfinished)) = IsStorable w turn v o

  ended-Stores :
      (stop : TurnStop) (first : TurnOutcome Json) (s : w.State)
      → first.stop ≡ stop
      → IsStorable w turn v first
      → Stores (some (ended values operator allowed explain no_wrap_up w turn stop first s))
  unfolding ended wrapped
  ended-Stores (round_limit rounds) first s e f =
      if_elim (λ (x : Ended Json). Stores (some x)) no_wrap_up _ _ (λ _. f)
        (λ _. finish-IsStorable w turn v explain first rounds e f s rounds [])
  ended-Stores gate_aborted first s e f = f
  ended-Stores answered first s e f = f
  ended-Stores interrupted first s e f = f

  settle-Stores :
      (p : Pass Json (w.State × ArgvGate T))
      → is_over p ≡ true
      → Good (gated values operator allowed w) turn v p
      → Stores (settle values operator allowed explain no_wrap_up w turn p)
  unfolding settle
  settle-Stores (again l) o g = cc o
  settle-Stores (fault e l) o g = tt
  settle-Stores (done first l) o g = ended-Stores first.stop first l.state.0 refl (g.1, g.2, g.3)

  -- Over a history that waits for the model, a run comes to an error or to a turn to store, and what is
  -- stored, wrapped up or not, is a conversation that the API accepts behind that history, without
  -- reasoning, that ends as its way of stopping says.
  pub agent_turn-Stores :
      (s : w.State × ArgvGate T)
      → Stores (agent_turn values operator allowed explain no_wrap_up w turn s)
  unfolding agent_turn
  agent_turn-Stores s =
      settle-Stores (run_turn_until (gated values operator allowed w) turn s)
        (run_turn_until-Over (gated values operator allowed w) turn s).0
        (run_turn_until-Good (gated values operator allowed w) turn v s)
