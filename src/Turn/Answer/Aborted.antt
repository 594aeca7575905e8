-- ===== src/Turn/Answer/Aborted.antt =====
-- An abort always leaves a result behind it.
use sandbx.Common.{
  true, false, List, [], ◌∷◌, ◌++◌, ◌≡◌, refl, inl, inr, Option, none, some, Bytes, Bool-cases,
  is_some, is_empty,
}
use sandbx.Prompt.{ContentBlock, tool_use}
use sandbx.Tools.{BuiltinTool, from_name, offers}
use sandbx.Turn.{
  ToolCall, ApprovalDecision, allow, deny, abort, Finished, output, error, panicked, World, Await,
  ready, failed,
}
use sandbx.Turn.Answer.{
  Answering, begin, answer_run, verdict, obey, answer_tool, answer_block, answer_from, answer_calls,
}

module _ {Json : Type 0} (w : World Json) (offered : List BuiltinTool) where
  abbrev Kept : Answering w offered → Type 0
  Kept a = is_some a.aborted ≡ true → is_empty a.results ≡ false

  abbrev Leaves : Await (Unit {0}) (Answering w offered) → Type 0
  Leaves (ready u a) = Kept a
  Leaves (failed e a) = Unit {0}
  Leaves (Await.stopped a) = Unit {0}

  not_empty_concat :
      (xs : List (ContentBlock Json)) (x : ContentBlock Json) → is_empty (xs ++ x ∷ []) ≡ false
  not_empty_concat [] x = refl
  not_empty_concat (y ∷ xs) x = refl

  answer_run-Leaves :
      (n : Bytes) (c : ToolCall Json) (f : Finished) (a : Answering w offered)
      → Leaves (answer_run w offered n c f a)
  unfolding answer_run
  answer_run-Leaves n c (output content) a = λ _. not_empty_concat a.results _
  answer_run-Leaves n c (error e) a = λ _. not_empty_concat a.results _
  answer_run-Leaves n c panicked a = tt
  answer_run-Leaves n c Finished.stopped a = tt

  obey-Leaves :
      (n : Bytes) (c : ToolCall Json) (d : ApprovalDecision) (a : Answering w offered)
      → Leaves (obey w offered n c (d, a))
  unfolding obey
  obey-Leaves n c allow a = answer_run-Leaves n c (w.execute c a.state).0 _
  obey-Leaves n c (deny r) a = λ _. not_empty_concat a.results _
  obey-Leaves n c (abort r) a = λ _. not_empty_concat a.results _

  answer_tool-Leaves :
      (n id : Bytes) (input : Json) (t : Option BuiltinTool) (a : Answering w offered)
      → Leaves (answer_tool w offered n id input t a)
  unfolding answer_tool
  answer_tool-Leaves n id input none a = λ _. not_empty_concat a.results _
  answer_tool-Leaves n id input (some t) a =
      let c : ToolCall Json = record { tool = t; id = id; input = input } in
      elim (Bool-cases (offers offered t)) [
        | inl h ↦ rw h (obey-Leaves n c (verdict w offered a.aborted c a).0 _)
        | inr h ↦ rw h (λ _. not_empty_concat a.results _)
      ]

  answer_block-Leaves :
      (b : ContentBlock Json) (a : Answering w offered)
      → Kept a
      → Leaves (answer_block w offered b a)
  unfolding answer_block
  answer_block-Leaves (tool_use id n input) a k = answer_tool-Leaves n id input (from_name n) a
  answer_block-Leaves _ a k = k

  Leaves-bind :
      (r : Await (Unit {0}) (Answering w offered)) (bs : List (ContentBlock Json))
      → Leaves r
      → ((a : Answering w offered) → Kept a → Leaves (answer_from w offered bs a))
      → Leaves (elim r [
        | ready _ a ↦ answer_from w offered bs a
        | failed e a ↦ failed e a
        | Await.stopped a ↦ Await.stopped a
      ])
  Leaves-bind (ready u a) bs v k = k a v
  Leaves-bind (failed e a) bs v k = tt
  Leaves-bind (Await.stopped a) bs v k = tt

  answer_from-Leaves :
      (bs : List (ContentBlock Json)) (a : Answering w offered)
      → Kept a
      → Leaves (answer_from w offered bs a)
  unfolding answer_from
  answer_from-Leaves [] a k = k
  answer_from-Leaves (b ∷ bs) a k =
      Leaves-bind (answer_block w offered b a) bs (answer_block-Leaves b a k)
        (λ a' k'. answer_from-Leaves bs a' k')

  pub answer_calls-aborted :
      (blocks : List (ContentBlock Json)) (s : w.State) (a : Answering w offered)
      → answer_calls w offered blocks s ≡ ready tt a
      → is_some a.aborted ≡ true
      → is_empty a.results ≡ false
  answer_calls-aborted blocks s a e =
      rw e at (answer_from-Leaves blocks (begin w offered s) (λ h. cc))
