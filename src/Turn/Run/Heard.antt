-- ===== src/Turn/Run/Heard.antt =====
-- What is asked of the gate and run in all the rounds of a turn.
use sandbx.Common.{
  if_elim, ℕ, zero, suc, not, List, [], ◌∷◌, ◌≡◌, refl, subst, Option, none, some, Bytes, any, sym,
}
use sandbx.Compact.{Compaction}
use sandbx.Prompt.{ContentBlock, is_thinking}
use sandbx.Tools.{BuiltinTool}
use sandbx.Turn.{ToolCall, ApprovalDecision, Await, ready, failed, World, Turn}
use sandbx.Turn.Accumulate.{Round}
use sandbx.Turn.Answer.{Action, Answering, answer_calls}
use sandbx.Turn.Answer.Gated.{Guarded, Leaves, answer_calls-Heard}
use sandbx.Turn.Run.{
  Pass, again, done, fault, Looping, start, plan_with, plan, mark_sent, streamed, note_round,
  conclude, answer_round, ends_on_user, take_round, after_request, after_stream, pass, run_rounds,
  run_turn_until,
}

-- The rounds, each with the record of its actions.
abbrev pub EachGuarded :
    {Json : Type 0}
    → (ToolCall Json → ApprovalDecision → Type 0)
    → List BuiltinTool
    → List (List (Action Json))
    → Type 0
EachGuarded P offered [] = Unit {0}
EachGuarded P offered (actions ∷ rounds) = Guarded P offered actions × EachGuarded P offered rounds

module _ {Json State : Type 0} where
  abbrev pub actions_of : Pass Json State → List (List (Action Json))
  actions_of (again l) = l.actions
  actions_of (done o l) = l.actions
  actions_of (fault e l) = l.actions

module _ {Json : Type 0} (w : World Json) (turn : Turn Json)
    (P : ToolCall Json → ApprovalDecision → Type 0)
    (heard : (c : ToolCall Json) (s : w.State) → P c (w.approve c s).0) where
  abbrev Kept : Pass Json w.State → Type 0
  Kept p = EachGuarded P turn.tools (actions_of p)

  conclude-Kept :
      (bs : List (ContentBlock Json)) (aborted : Option Bytes) (l : Looping w turn)
      → EachGuarded P turn.tools l.actions
      → Kept (conclude w turn bs aborted l)
  unfolding conclude
  conclude-Kept [] none l k = k
  conclude-Kept [] (some r) l k = k
  conclude-Kept (b ∷ bs) none l k = k
  conclude-Kept (b ∷ bs) (some r) l k = k

  answer_round-Kept :
      (r : Round Json) (l : Looping w turn) (a : Await (Unit {0}) (Answering w turn.tools))
      → Leaves w turn.tools P a
      → EachGuarded P turn.tools l.actions
      → Kept (answer_round w turn r l a)
  unfolding answer_round
  answer_round-Kept r l (ready u a) v k = conclude-Kept a.results a.aborted _ (v.0, k)
  answer_round-Kept r l (failed x a) v k = (v.0, k)
  answer_round-Kept r l (Await.stopped a) v k = (v.0, k)

  take_round-Kept :
      (r : Round Json) (l : Looping w turn)
      → EachGuarded P turn.tools l.actions
      → Kept (take_round w turn r l)
  unfolding take_round
  take_round-Kept r l k =
      if_elim Kept (not (any (λ b. not (is_thinking b)) r.blocks)) _ _
        (λ _. if_elim Kept (ends_on_user w turn l.produced) _ _ (λ _. k) (λ _. k))
        (λ _.
          if_elim Kept (w.stops l.state) _ _ (λ _. k)
            (λ _.
              answer_round-Kept r l (answer_calls w turn.tools r.blocks l.state)
                (answer_calls-Heard w turn.tools P r.blocks l.state heard) k))

  after_stream-Kept :
      (l : Looping w turn) (a : Await (Round Json) w.State)
      → EachGuarded P turn.tools l.actions
      → Kept (after_stream w turn l a)
  unfolding after_stream note_round
  after_stream-Kept l (ready r s) k =
      take_round-Kept r (note_round w turn r (after_request w turn l s)) k
  after_stream-Kept l (failed x s) k = k
  after_stream-Kept l (Await.stopped s) k = k

  plan_with-actions :
      (c : Option Compaction) (l : Looping w turn) → (plan_with w turn c l).actions ≡ l.actions
  unfolding plan_with
  plan_with-actions none l = refl
  plan_with-actions (some policy) l = refl

  plan-actions : (l : Looping w turn) → (plan w turn l).actions ≡ l.actions
  unfolding plan
  plan-actions l =
      if_elim (λ (k : Looping w turn). k.actions ≡ l.actions) l.measured _ _
        (λ _. plan_with-actions turn.limits.compaction l) (λ _. refl)

  pass-Kept : (l : Looping w turn) → EachGuarded P turn.tools l.actions → Kept (pass w turn l)
  unfolding pass mark_sent
  pass-Kept l k =
      let p = mark_sent w turn (plan w turn l) in
      after_stream-Kept p (streamed w turn p)
        (subst (EachGuarded P turn.tools) (sym (plan-actions l)) k)

  Kept-bind :
      (n : ℕ) (p : Pass Json w.State)
      → Kept p
      → ((l : Looping w turn) → EachGuarded P turn.tools l.actions → Kept (run_rounds w turn n l))
      → Kept
          (elim p [ again l ↦ run_rounds w turn n l | done o l ↦ done o l | fault e l ↦ fault e l ])
  Kept-bind n (again l) k more = more l k
  Kept-bind n (done o l) k more = k
  Kept-bind n (fault e l) k more = k

  run_rounds-Kept :
      (n : ℕ) (l : Looping w turn)
      → EachGuarded P turn.tools l.actions
      → Kept (run_rounds w turn n l)
  unfolding run_rounds
  run_rounds-Kept zero l k = k
  run_rounds-Kept (suc n) l k = Kept-bind n (pass w turn l) (pass-Kept l k) (run_rounds-Kept n)

  -- However the turn goes, in every round each tool that ran was just allowed by the gate for that
  -- call, and what the gate said of a call is what it can say of it.
  pub run_turn_until-Heard :
      (s : w.State) → EachGuarded P turn.tools (actions_of (run_turn_until w turn s))
  unfolding run_turn_until
  run_turn_until-Heard s = run_rounds-Kept turn.limits.max_rounds (start w turn s) tt
