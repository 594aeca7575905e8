-- ===== src/Turn/Answer/Exactly.antt =====
-- Every call of a round is answered, and reported, once and in order.
use sandbx.Common.{
  Bool, true, List, [], ◌∷◌, ◌++◌, ◌≡◌, refl, ap, sym, ◌∙◌, Option, none, some, Bytes, arith, all,
  all-append, Bool-cases, inl, inr,
}
use mathlib.Core.List.{append-nil, append_assoc}
use sandbx.Prompt.{ContentBlock, tool_use, tool_result, is_result}
use sandbx.Prompt.Conversation.{call_ids, result_ids, result_ids-append, call_ids-append}
use sandbx.Tools.{BuiltinTool, from_name, offers}
use sandbx.Turn.{
  unknown, not_offered, ran, denied, errored, ToolCall, ApprovalDecision, allow, deny, abort,
  Settled, Finished, output, error, panicked, World, Await, ready, failed,
}
use sandbx.Turn.Answer.{
  settling, Action, told, Answering, answer, answer_run, verdict, obey, answer_tool, answer_block,
  answer_from, answer_calls, begin,
}

-- The ids reported to the gate, oldest first.
abbrev pub told_ids : {Json : Type 0} → List (Action Json) → List Bytes
told_ids [] = []
told_ids (told s ∷ rest) = told_ids rest ++ s.id ∷ []
told_ids (_ ∷ rest) = told_ids rest

module _ {Json : Type 0} (w : World Json) (offered : List BuiltinTool) where
  abbrev Adds : List Bytes → Answering w offered → Answering w offered → Type 0
  Adds ids a a' =
      (result_ids a'.results ≡ result_ids a.results ++ ids)
      × (all is_result a'.results ≡ all is_result a.results)
      × (told_ids a'.actions ≡ told_ids a.actions ++ ids)

  abbrev Ensures :
      List Bytes → Answering w offered → Await (Unit {0}) (Answering w offered) → Type 0
  Ensures ids a (ready _ a') = Adds ids a a'
  Ensures ids a (failed e a') = Unit {0}
  Ensures ids a (Await.stopped a') = Unit {0}

  answer-Adds :
      (a : Answering w offered) (s : Settled Json) (content : Bytes) (e : Option Bool)
      → Adds (s.id ∷ []) a (answer w offered a s (tool_result s.id content e))
  unfolding answer
  answer-Adds a s content e = (result_ids-append a.results _, rw all-append (ground arith), refl)

  answer_run-Ensures :
      (n : Bytes) (c : ToolCall Json) (f : Finished) (a : Answering w offered)
      → Ensures (c.id ∷ []) a (answer_run w offered n c f a)
  unfolding answer_run
  answer_run-Ensures n c (output content) a = answer-Adds a (settling n c ran) _ _
  answer_run-Ensures n c (error e) a = answer-Adds a (settling n c (errored e)) _ _
  answer_run-Ensures n c panicked a = tt
  answer_run-Ensures n c Finished.stopped a = tt

  obey-Ensures :
      (n : Bytes) (c : ToolCall Json) (d : ApprovalDecision) (a : Answering w offered)
      → Ensures (c.id ∷ []) a (obey w offered n c (d, a))
  unfolding obey
  obey-Ensures n c allow a = answer_run-Ensures n c (w.execute c a.state).0 _
  obey-Ensures n c (deny r) a = answer-Adds a (settling n c (denied r)) _ _
  obey-Ensures n c (abort r) a = answer-Adds a (settling n c (denied r)) _ _

  verdict-Ensures :
      (n : Bytes) (c : ToolCall Json) (stopped_by : Option Bytes) (a : Answering w offered)
      → Ensures (c.id ∷ []) a (obey w offered n c (verdict w offered stopped_by c a))
  unfolding verdict
  verdict-Ensures n c none a = obey-Ensures n c (w.approve c a.state).0 _
  verdict-Ensures n c (some r) a = obey-Ensures n c (deny r) a

  answer_tool-Ensures :
      (n id : Bytes) (input : Json) (t : Option BuiltinTool) (a : Answering w offered)
      → Ensures (id ∷ []) a (answer_tool w offered n id input t a)
  unfolding answer_tool
  answer_tool-Ensures n id input none a =
      answer-Adds a (record { name = n; id = id; tool = none; input = input; outcome = unknown }) _
        _
  answer_tool-Ensures n id input (some t) a = elim (Bool-cases (offers offered t)) [
    | inl h ↦ rw h (verdict-Ensures n (record { tool = t; id = id; input = input }) a.aborted a)
    | inr h ↦
        rw h
          (answer-Adds a (settling n (record { tool = t; id = id; input = input }) not_offered) _ _)
  ]

  answer_block-Ensures :
      (b : ContentBlock Json) (a : Answering w offered)
      → Ensures (call_ids (b ∷ [])) a (answer_block w offered b a)
  unfolding answer_block
  answer_block-Ensures (tool_use id n input) a = answer_tool-Ensures n id input (from_name n) a
  answer_block-Ensures _ a = (sym (append-nil _), refl, sym (append-nil _))

  Adds-append :
      (ids more : List Bytes) (a b c : Answering w offered)
      → Adds ids a b
      → Adds more b c
      → Adds (ids ++ more) a c
  Adds-append ids more a b c p q = (
    q.0 ∙ ap (λ l. l ++ more) p.0 ∙ append_assoc (result_ids a.results) ids more,
    q.1 ∙ p.1,
    q.2 ∙ ap (λ l. l ++ more) p.2 ∙ append_assoc (told_ids a.actions) ids more,
  )

  Ensures-append :
      (ids more : List Bytes) (a b : Answering w offered)
      (r : Await (Unit {0}) (Answering w offered))
      → Adds ids a b
      → Ensures more b r
      → Ensures (ids ++ more) a r
  Ensures-append ids more a b (ready u c) p q = Adds-append ids more a b c p q
  Ensures-append ids more a b (failed e c) p q = tt
  Ensures-append ids more a b (Await.stopped c) p q = tt

  Ensures-bind :
      (ids more : List Bytes) (a : Answering w offered) (r : Await (Unit {0}) (Answering w offered))
      (bs : List (ContentBlock Json))
      → Ensures ids a r
      → ((b : Answering w offered) → Ensures more b (answer_from w offered bs b))
      → Ensures (ids ++ more) a (elim r [
        | ready _ b ↦ answer_from w offered bs b
        | failed e b ↦ failed e b
        | Await.stopped b ↦ Await.stopped b
      ])
  Ensures-bind ids more a (ready u b) bs p k = Ensures-append ids more a b _ p (k b)
  Ensures-bind ids more a (failed e c) bs p k = tt
  Ensures-bind ids more a (Await.stopped c) bs p k = tt

  answer_from-Ensures :
      (bs : List (ContentBlock Json)) (a : Answering w offered)
      → Ensures (call_ids bs) a (answer_from w offered bs a)
  unfolding answer_from
  answer_from-Ensures [] a = (sym (append-nil _), refl, sym (append-nil _))
  answer_from-Ensures (b ∷ bs) a = rw (call_ids-append (b ∷ []) bs) (
      Ensures-bind (call_ids (b ∷ [])) (call_ids bs) a (answer_block w offered b a) bs
        (answer_block-Ensures b a) (answer_from-Ensures bs))

  -- When a round's calls are answered, there is one result for each call, in the order of the calls
  -- and under its id, nothing else among the results, and one report to the gate for each call, in
  -- that order.
  pub answer_calls-exactly :
      (blocks : List (ContentBlock Json)) (s : w.State) (a : Answering w offered)
      → answer_calls w offered blocks s ≡ ready tt a
      → (result_ids a.results ≡ call_ids blocks)
        × (all is_result a.results ≡ true)
        × (told_ids a.actions ≡ call_ids blocks)
  answer_calls-exactly blocks s a e = rw e at (answer_from-Ensures blocks (begin w offered s))
