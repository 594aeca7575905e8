-- ===== src/Turn/Run/Rounds.antt =====
-- How many requests a turn opens, and how it ends.
use sandbx.Common.{
  if_elim, ℕ, zero, suc, ◌+◌, ◌≤◌, Bool, true, false, not, List, [], ◌∷◌, ◌≡◌, refl, subst, ◌⊎◌,
  inl, inr, Bytes, arith, Option, none, some, length, any,
}
use sandbx.Compact.{Compaction}
use sandbx.Prompt.{ContentBlock, is_thinking}
use sandbx.Turn.{TurnStop, round_limit, Await, ready, failed, World, Turn}
use sandbx.Turn.Accumulate.{Round}
use sandbx.Turn.Answer.{Answering, answer_calls}
use sandbx.Turn.Run.{
  Request, Pass, again, done, fault, Looping, start, plan_with, plan, mark_sent, streamed,
  note_round, outcome, conclude, answer_round, ends_on_user, take_round, after_request,
  after_stream, pass, run_rounds, run_turn_until,
}

abbrev pub on_limit : TurnStop → Bool
on_limit (round_limit n) = true
on_limit _ = false

module _ {Json State : Type 0} where
  -- The requests that were built, and opened but for a stop that came first.
  abbrev pub requests_of : Pass Json State → List (Request Json)
  requests_of (again l) = l.requests
  requests_of (done o l) = l.requests
  requests_of (fault e l) = l.requests

  -- Whether the turn has come to an outcome or an error.
  abbrev pub is_over : Pass Json State → Bool
  is_over (again l) = false
  is_over (done o l) = true
  is_over (fault e l) = true

  -- Whether it ended because its rounds ran out.
  abbrev pub ran_out : Pass Json State → Bool
  ran_out (again l) = false
  ran_out (done o l) = on_limit o.stop
  ran_out (fault e l) = false

  -- One pass: how many requests stand behind it, with rounds left.
  abbrev Passed : ℕ → Pass Json State → Type 0
  Passed n p = (length (requests_of p) ≡ n) × (ran_out p ≡ false)

  abbrev Over : ℕ → Pass Json State → Type 0
  Over n p =
      (is_over p ≡ true)
      × (length (requests_of p) ≤ n)
      × ((ran_out p ≡ false) ⊎ (length (requests_of p) ≡ n))

module _ {Json : Type 0} (w : World Json) (turn : Turn Json) where
  conclude-Passed :
      (bs : List (ContentBlock Json)) (aborted : Option Bytes) (l : Looping w turn)
      → Passed (length l.requests) (conclude w turn bs aborted l)
  unfolding conclude outcome
  conclude-Passed [] none l = (refl, refl)
  conclude-Passed [] (some r) l = (refl, refl)
  conclude-Passed (b ∷ bs) none l = (refl, refl)
  conclude-Passed (b ∷ bs) (some r) l = (refl, refl)

  answer_round-Passed :
      (r : Round Json) (l : Looping w turn) (a : Await (Unit {0}) (Answering w turn.tools))
      → Passed (length l.requests) (answer_round w turn r l a)
  unfolding answer_round outcome
  answer_round-Passed r l (ready u a) = conclude-Passed a.results a.aborted _
  answer_round-Passed r l (failed x a) = (refl, refl)
  answer_round-Passed r l (Await.stopped a) = (refl, refl)

  take_round-Passed :
      (r : Round Json) (l : Looping w turn) → Passed (length l.requests) (take_round w turn r l)
  unfolding take_round outcome
  take_round-Passed r l =
      if_elim (Passed (length l.requests)) (not (any (λ b. not (is_thinking b)) r.blocks)) _ _
        (λ _.
          if_elim (Passed (length l.requests)) (ends_on_user w turn l.produced) _ _
            (λ _. (refl, refl)) (λ _. (refl, refl)))
        (λ _.
          if_elim (Passed (length l.requests)) (w.stops l.state) _ _ (λ _. (refl, refl))
            (λ _. answer_round-Passed r l (answer_calls w turn.tools r.blocks l.state)))

  after_stream-Passed :
      (l : Looping w turn) (a : Await (Round Json) w.State)
      → Passed (suc (length l.requests)) (after_stream w turn l a)
  unfolding after_stream note_round outcome
  after_stream-Passed l (ready r s) =
      take_round-Passed r (note_round w turn r (after_request w turn l s))
  after_stream-Passed l (failed x s) = (refl, refl)
  after_stream-Passed l (Await.stopped s) = (refl, refl)

  plan_with-requests :
      (c : Option Compaction) (l : Looping w turn) → (plan_with w turn c l).requests ≡ l.requests
  unfolding plan_with
  plan_with-requests none l = refl
  plan_with-requests (some policy) l = refl

  plan-requests : (l : Looping w turn) → (plan w turn l).requests ≡ l.requests
  unfolding plan
  plan-requests l =
      if_elim (λ (k : Looping w turn). k.requests ≡ l.requests) l.measured _ _
        (λ _. plan_with-requests turn.limits.compaction l) (λ _. refl)

  pass-Passed : (l : Looping w turn) → Passed (suc (length l.requests)) (pass w turn l)
  unfolding pass mark_sent
  pass-Passed l =
      let p = mark_sent w turn (plan w turn l) in
      subst (λ rs. Passed (suc (length rs)) (after_stream w turn p (streamed w turn p)))
        (plan-requests l) (after_stream-Passed p (streamed w turn p))

  Over-after :
      (n k : ℕ) (p : Pass Json w.State)
      → Passed (suc k) p
      → ((l : Looping w turn) → Over (n + length l.requests) (run_rounds w turn n l))
      → Over
          (suc n + k)
          (elim p [ again l ↦ run_rounds w turn n l | done o l ↦ done o l | fault e l ↦ fault e l ])
  Over-after n k (again l) (e, f) more =
      let z : n + length l.requests ≡ suc n + k = omega (arith, e) in
      subst (λ m. Over m (run_rounds w turn n l)) z (more l)
  Over-after n k (done o l) (e, f) more = (refl, omega (arith, e), inl f)
  Over-after n k (fault x l) (e, f) more = (refl, omega (arith, e), inl f)

  run_rounds-Over :
      (n : ℕ) (l : Looping w turn) → Over (n + length l.requests) (run_rounds w turn n l)
  unfolding run_rounds outcome
  run_rounds-Over zero l = (refl, omega arith, inr (omega arith))
  run_rounds-Over (suc n) l =
      Over-after n (length l.requests) (pass w turn l) (pass-Passed l) (run_rounds-Over n)

  -- However long its streams are and whatever the gate and the tools say, a turn comes to an outcome or
  -- an error, behind at most `max_rounds` requests; it ends on the round limit only behind that many.
  pub run_turn_until-Over :
      (s : w.State)
      → let r = run_turn_until w turn s in
        (is_over r ≡ true)
        × (length (requests_of r) ≤ turn.limits.max_rounds)
        × ((ran_out r ≡ false) ⊎ (length (requests_of r) ≡ turn.limits.max_rounds))
  unfolding run_turn_until
  run_turn_until-Over s =
      let z : turn.limits.max_rounds + 0 ≡ turn.limits.max_rounds = omega arith in
      subst (λ n. Over n (run_rounds w turn turn.limits.max_rounds (start w turn s))) z
        (run_rounds-Over turn.limits.max_rounds (start w turn s))
