-- ===== src/Cli/WrapUp/Answer.antt =====
-- What a wrap-up may do, and what it leaves to be stored.
use sandbx.Common.{
  ◌≢◌, ℕ, Bool, true, false, not, ◌||◌, List, [], ◌∷◌, ◌++◌, ◌≡◌, refl, sym, ◌∙◌, subst, inl, inr,
  Bytes, is_empty, all-append, if_elim, arith,
}
use mathlib.Core.List.{append_assoc}
use sandbx.Prompt.{Role, user, assistant, RequestMessage}
use sandbx.Prompt.Conversation.{IsConversation, Follows-append, end_role-append, end_calls-append}
use sandbx.Turn.{
  deny, TurnError, TurnStop, answered, round_limit, gate_aborted, interrupted, World, Turn,
  TurnOutcome,
}
use sandbx.Turn.Run.{Pass, again, done, fault}
use sandbx.Turn.Run.Legal.{IsReady, EndsAs, Good, run_turn_until-Good}
use sandbx.Turn.Run.Strip.{Produced, has_no_thinking, is_solid}
use sandbx.Turn.Run.Heard.{actions_of, run_turn_until-Heard}
use sandbx.Cli.Gate.Argv.{EachRan, EachGuarded-EachRan}
use sandbx.Cli.WrapUp.{
  no_call, WrapUp, is_answered, wrap_up_turn, refusing_all, merge, finish, judge, second_turn, run,
}

module _ {Json : Type 0} where
  Produced-append :
      (r : Role) (ms ps : List (RequestMessage Json))
      → Produced user [] ms
      → Produced r [] ps
      → Produced r [] (ms ++ ps)
  Produced-append r ms ps p q = record {
    follows = Follows-append user [] ms ps p.follows (rw (p.ends, p.leaves) q.follows);
    ends = end_role-append user ms ps ∙ rw p.ends q.ends;
    leaves = end_calls-append [] ms ps ∙ rw p.leaves q.leaves;
    solid = all-append is_solid ms ps ∙ rw (p.solid, q.solid) refl;
  }

answered_of : (t : TurnStop) → is_answered t ≡ true → t ≡ answered
answered_of answered e = refl
answered_of (round_limit n) e = cc
answered_of gate_aborted e = cc
answered_of interrupted e = cc

answered_with : (m a : Bool) → (m || not a) ≡ false → (m ≡ false) × (a ≡ true)
answered_with m a e = ground arith

non_empty : {A : Type 0} (xs : List A) → is_empty xs ≡ false → xs ≢ []
non_empty [] e = cc
non_empty (x ∷ xs) e = cc

module _ {Json : Type 0} (w : World Json) (turn : Turn Json) (first : TurnOutcome Json) where
  -- Whatever the model asks for in the round without tools, and whatever the arguments of the run
  -- approved, no tool runs in it.
  pub second_turn-Ran : (s : w.State) → EachRan (λ t. ⊥) (actions_of (second_turn w turn first s))
  second_turn-Ran s =
      EachGuarded-EachRan (λ c d. d ≡ deny no_call) (λ t. ⊥) _ (λ c p. cc p) _
        (run_turn_until-Heard (refusing_all w) (wrap_up_turn turn first) (λ c d. d ≡ deny no_call)
          (λ c t. refl) (s, false))

module _ {Json : Type 0} (w : World Json) (turn : Turn Json) (v : IsReady turn.history) where
  -- What may be stored of a turn.
  abbrev pub IsStorable : TurnOutcome Json → Type 0
  IsStorable o =
      IsConversation (turn.history ++ o.messages)
      × (has_no_thinking o.messages ≡ true)
      × EndsAs w turn v o.stop o.messages

  module _ (explain : TurnError → Bytes × List Bytes) (first : TurnOutcome Json) (limit : ℕ)
      (stop : first.stop ≡ round_limit limit) (f : IsStorable first) where
    limited : Produced user [] first.messages
    limited = subst (λ t. EndsAs w turn v t first.messages) stop f.2

    continued-IsReady : IsReady (wrap_up_turn turn first).history
    unfolding wrap_up_turn
    continued-IsReady = record {
      conversation = f.0;
      ends = end_role-append assistant turn.history first.messages ∙ rw v.ends limited.ends;
      leaves = end_calls-append [] turn.history first.messages ∙ rw v.leaves limited.leaves;
    }

    abbrev Reply : TurnStop → List (RequestMessage Json) → Type 0
    Reply k ms = EndsAs (refusing_all w) (wrap_up_turn turn first) continued-IsReady k ms

    reply :
        (ms : List (RequestMessage Json)) → ms ≢ [] → Reply answered ms → Produced assistant [] ms
    reply ms n (inl q) = absurd (n q)
    reply ms n (inr p) = p

    merge-IsStorable :
        (second : TurnOutcome Json)
        → second.stop ≡ answered
        → second.messages ≢ []
        → IsConversation ((turn.history ++ first.messages) ++ second.messages)
        → has_no_thinking second.messages ≡ true
        → EndsAs
            (refusing_all w)
            (wrap_up_turn turn first)
            continued-IsReady
            second.stop
            second.messages
        → IsStorable (merge first second)
    unfolding merge
    merge-IsStorable second e n c t ends = (
      subst IsConversation (append_assoc turn.history first.messages second.messages) c,
      all-append _ first.messages second.messages ∙ rw (f.1, t) refl,
      subst (λ k. EndsAs w turn v k (first.messages ++ second.messages)) (sym e)
          (inr (
            Produced-append assistant first.messages second.messages limited
              (reply second.messages n (subst (λ k. Reply k second.messages) e ends)))),
    )

    judge-IsStorable :
        (p : Pass Json (w.State × Bool)) (rounds : ℕ) (notes : List Bytes)
        → Good (refusing_all w) (wrap_up_turn turn first) continued-IsReady p
        → IsStorable (finish (judge w explain p) first rounds notes).0.0
    unfolding finish judge wrap_up_turn
    judge-IsStorable (again l) rounds notes g = f
    judge-IsStorable (fault e l) rounds notes g = f
    judge-IsStorable (done second l) rounds notes g =
        if_elim (λ (u : WrapUp Json). IsStorable (finish u first rounds notes).0.0)
          (is_empty second.messages || not (is_answered second.stop)) _ _ (λ _. f)
          (λ e.
            let (n, a) = answered_with (is_empty second.messages) (is_answered second.stop) e in
            merge-IsStorable second (answered_of second.stop a) (non_empty second.messages n) g.1
              g.2 g.3)

    -- Where the turn before it ran out of rounds and may be stored, so may the turn that a wrap-up
    -- leaves, whether the round without tools answered, asked for tools, or failed: its messages behind
    -- the history are a conversation that the API accepts, without reasoning, and end as its way of
    -- stopping says.
    pub finish-IsStorable :
        (s : w.State) (rounds : ℕ) (notes : List Bytes)
        → IsStorable (finish (run w explain turn first s) first rounds notes).0.0
    unfolding run
    finish-IsStorable s rounds notes = judge-IsStorable (second_turn w turn first s) rounds notes (
        run_turn_until-Good (refusing_all w) (wrap_up_turn turn first) continued-IsReady (s, false))
