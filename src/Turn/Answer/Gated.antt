-- ===== src/Turn/Answer/Gated.antt =====
-- No tool runs that the gate has not just allowed.
use sandbx.Common.{
  Bool, true, false, List, [], ◌∷◌, ◌≡◌, refl, sym, ap, ◌∙◌, ◌⊎◌, inl, inr, Option, none, some,
  Bytes, Bool-cases, is_some,
}
use sandbx.Prompt.{ContentBlock, tool_use}
use sandbx.Tools.{BuiltinTool, from_name, offers}
use sandbx.Turn.{
  ToolCall, ApprovalDecision, allow, deny, abort, Finished, output, error, panicked, World, Await,
  ready, failed,
}
use sandbx.Turn.Answer.{
  Action, asked, executed, told, Answering, answer_run, verdict, obey, answer_tool, answer_block,
  answer_from, answer_calls,
}

-- Whether the gate has given up, in a record that is newest first.
abbrev pub has_abort : {Json : Type 0} → List (Action Json) → Bool
has_abort [] = false
has_abort (asked c (abort r) ∷ rest) = true
has_abort (_ ∷ rest) = has_abort rest

-- The newest action is the gate's leave for the call.
abbrev pub JustAllowed : {Json : Type 0} → ToolCall Json → List (Action Json) → Type 0
JustAllowed c (asked c' allow ∷ rest) = c' ≡ c
JustAllowed c _ = ⊥

-- Every question and its answer satisfy `P`, and the question is about a tool that was offered, asked
-- of a gate that has not given up; every run directly follows the gate's leave for that very call.
abbrev pub Guarded :
    {Json : Type 0}
    → (ToolCall Json → ApprovalDecision → Type 0)
    → List BuiltinTool
    → List (Action Json)
    → Type 0
Guarded P offered [] = Unit {0}
Guarded P offered (told s ∷ rest) = Guarded P offered rest
Guarded P offered (asked c d ∷ rest) =
    P c d × (offers offered c.tool ≡ true) × (has_abort rest ≡ false) × Guarded P offered rest
Guarded P offered (executed c ∷ rest) = JustAllowed c rest × Guarded P offered rest

-- The call is one of the blocks, under its id and arguments, with the tool that its name resolves to.
abbrev pub Requested : {Json : Type 0} → List (ContentBlock Json) → ToolCall Json → Type 0
Requested [] c = ⊥
Requested (tool_use id n input ∷ bs) c =
    ((c.id ≡ id) × (c.input ≡ input) × (from_name n ≡ some c.tool)) ⊎ Requested bs c
Requested (_ ∷ bs) c = Requested bs c

module _ {Json : Type 0} (w : World Json) (offered : List BuiltinTool)
    (P : ToolCall Json → ApprovalDecision → Type 0) where
  abbrev pub Inv : Answering w offered → Type 0
  Inv a = Guarded P offered a.actions × (is_some a.aborted ≡ has_abort a.actions)

  -- Whatever state the gate is asked in.
  abbrev pub Answered : ToolCall Json → Type 0
  Answered c = (s : w.State) → P c (w.approve c s).0

  abbrev pub Leaves : Await (Unit {0}) (Answering w offered) → Type 0
  Leaves (ready u a) = Inv a
  Leaves (failed e a) = Inv a
  Leaves (Await.stopped a) = Inv a

  answer_run-Leaves :
      (n : Bytes) (c : ToolCall Json) (f : Finished) (a : Answering w offered)
      → Inv a
      → Leaves (answer_run w offered n c f a)
  unfolding answer_run
  answer_run-Leaves n c (output content) a v = v
  answer_run-Leaves n c (error e) a v = v
  answer_run-Leaves n c panicked a v = v
  answer_run-Leaves n c Finished.stopped a v = v

  not_aborted : (a : Answering w offered) → a.aborted ≡ none → Inv a → has_abort a.actions ≡ false
  not_aborted a q v = sym v.1 ∙ ap is_some q

  ask-Leaves :
      (n : Bytes) (c : ToolCall Json) (d : ApprovalDecision) (a : Answering w offered) (s : w.State)
      → P c d
      → offers offered c.tool ≡ true
      → a.aborted ≡ none
      → Inv a
      → Leaves (obey w offered n c (d, record a { actions = asked c d ∷ a.actions; state = s }))
  unfolding obey
  ask-Leaves n c allow a s p o q v =
      answer_run-Leaves n c (w.execute c s).0 _ ((refl, (p, o, not_aborted a q v, v.0)), v.1)
  ask-Leaves n c (deny r) a s p o q v = ((p, o, not_aborted a q v, v.0), v.1)
  ask-Leaves n c (abort r) a s p o q v = ((p, o, not_aborted a q v, v.0), refl)

  verdict-Leaves :
      (n : Bytes) (c : ToolCall Json) (stopped_by : Option Bytes) (a : Answering w offered)
      → a.aborted ≡ stopped_by
      → Answered c
      → offers offered c.tool ≡ true
      → Inv a
      → Leaves (obey w offered n c (verdict w offered stopped_by c a))
  unfolding obey
  verdict-Leaves n c none a q p o v =
      unfold verdict in ask-Leaves n c (w.approve c a.state).0 a _ (p a.state) o q v
  verdict-Leaves n c (some r) a q p o v = unfold verdict in v

  answer_tool-Leaves :
      (n id : Bytes) (input : Json) (t : Option BuiltinTool) (a : Answering w offered)
      → ((t' : BuiltinTool) → t ≡ some t' → Answered (record { tool = t'; id = id; input = input }))
      → Inv a
      → Leaves (answer_tool w offered n id input t a)
  unfolding answer_tool
  answer_tool-Leaves n id input none a p v = v
  answer_tool-Leaves n id input (some t) a p v = elim (Bool-cases (offers offered t)) [
    | inl h ↦ rw h (
        verdict-Leaves n (record { tool = t; id = id; input = input }) a.aborted a refl (p t refl) h
          v)
    | inr h ↦ rw h v
  ]

  -- What the gate may say of every call among the blocks satisfies `P`.
  abbrev pub Calls : List (ContentBlock Json) → Type 0
  Calls [] = Unit {0}
  Calls (tool_use id n input ∷ bs) =
      ((t : BuiltinTool)
        → from_name n ≡ some t
        → Answered (record { tool = t; id = id; input = input }))
      × Calls bs
  Calls (_ ∷ bs) = Calls bs

  answer_block-Leaves :
      (b : ContentBlock Json) (a : Answering w offered)
      → Calls (b ∷ [])
      → Inv a
      → Leaves (answer_block w offered b a)
  unfolding answer_block
  answer_block-Leaves (tool_use id n input) a p v =
      answer_tool-Leaves n id input (from_name n) a p.0 v
  answer_block-Leaves _ a p v = v

  Leaves-bind :
      (r : Await (Unit {0}) (Answering w offered)) (bs : List (ContentBlock Json))
      → Leaves r
      → ((a : Answering w offered) → Inv a → Leaves (answer_from w offered bs a))
      → Leaves (elim r [
        | ready _ a ↦ answer_from w offered bs a
        | failed e a ↦ failed e a
        | Await.stopped a ↦ Await.stopped a
      ])
  Leaves-bind (ready u a) bs v k = k a v
  Leaves-bind (failed e a) bs v k = v
  Leaves-bind (Await.stopped a) bs v k = v

  Calls-cons :
      (b : ContentBlock Json) (bs : List (ContentBlock Json))
      → Calls (b ∷ bs)
      → Calls (b ∷ []) × Calls bs
  Calls-cons (tool_use id n input) bs c = ((c.0, tt), c.1)
  Calls-cons _ bs c = (tt, c)

  answer_from-Leaves :
      (bs : List (ContentBlock Json)) (a : Answering w offered)
      → Calls bs
      → Inv a
      → Leaves (answer_from w offered bs a)
  unfolding answer_from
  answer_from-Leaves [] a p v = v
  answer_from-Leaves (b ∷ bs) a p v =
      let (q, more) = Calls-cons b bs p in
      Leaves-bind (answer_block w offered b a) bs (answer_block-Leaves b a q v)
        (λ a' v'. answer_from-Leaves bs a' more v')

module _ {Json : Type 0} (w : World Json) (offered : List BuiltinTool) where
  abbrev pub ByBlock : List (ContentBlock Json) → ToolCall Json → ApprovalDecision → Type 0
  ByBlock bs c d = Requested bs c

  pub Calls-all :
      (P : ToolCall Json → ApprovalDecision → Type 0) (bs : List (ContentBlock Json))
      → ((c : ToolCall Json) (s : w.State) → P c (w.approve c s).0)
      → Calls w offered P bs
  Calls-all P [] f = tt
  Calls-all P (tool_use id n input ∷ bs) f = ((λ t e s. f _ s), Calls-all P bs f)
  Calls-all P (_ ∷ bs) f = Calls-all P bs f

  Calls-map :
      (P Q : ToolCall Json → ApprovalDecision → Type 0) (bs : List (ContentBlock Json))
      → ((c : ToolCall Json) (d : ApprovalDecision) → P c d → Q c d)
      → Calls w offered P bs
      → Calls w offered Q bs
  Calls-map P Q [] f c = tt
  Calls-map P Q (tool_use id n input ∷ bs) f c =
      ((λ t e s. f _ _ (c.0 t e s)), Calls-map P Q bs f c.1)
  Calls-map P Q (_ ∷ bs) f c = Calls-map P Q bs f c

  Calls-Requested : (bs : List (ContentBlock Json)) → Calls w offered (ByBlock bs) bs
  Calls-Requested [] = tt
  Calls-Requested (tool_use id n input ∷ bs) = (
    (λ t e s. inl (refl, refl, e)),
    Calls-map (ByBlock bs) (ByBlock (tool_use id n input ∷ bs)) bs (λ c d r. inr r)
        (Calls-Requested bs),
  )
  Calls-Requested (_ ∷ bs) = Calls-Requested bs

  -- What the gate says of any call satisfies `P`, so what it was heard to say does.
  pub answer_calls-Heard :
      (P : ToolCall Json → ApprovalDecision → Type 0) (blocks : List (ContentBlock Json))
      (s : w.State)
      → ((c : ToolCall Json) (t : w.State) → P c (w.approve c t).0)
      → Leaves w offered P (answer_calls w offered blocks s)
  answer_calls-Heard P blocks s f =
      answer_from-Leaves w offered P blocks _ (Calls-all P blocks f) (tt, refl)

  -- However the answering of a round ends, whether it is answered in full, stopped or ended by a
  -- panic: each tool that ran was just allowed by the gate for that call; the gate was asked only of
  -- calls that the round made, with the tool that the call's name resolves to, which was offered;
  -- and never after it gave up.
  pub answer_calls-Guarded :
      (blocks : List (ContentBlock Json)) (s : w.State)
      → Leaves w offered (ByBlock blocks) (answer_calls w offered blocks s)
  answer_calls-Guarded blocks s =
      answer_from-Leaves w offered (ByBlock blocks) blocks _ (Calls-Requested blocks) (tt, refl)
