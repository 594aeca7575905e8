-- ===== src/Cli/Gate/Argv.antt =====
-- What the arguments of a run let its tools do.
use sandbx.Common.{
  true, not, List, [], ◌∷◌, ◌≡◌, refl, subst, ◌⊎◌, inl, inr, none, some, if_elim, if◌then◌else◌,
  Bool-cases, not-false,
}
use sandbx.Tools.{BuiltinTool, offers}
use sandbx.Turn.{ToolCall, ApprovalDecision, allow, deny, abort, World, Turn}
use sandbx.Turn.Answer.{Action, asked, executed, told}
use sandbx.Turn.Answer.Gated.{Guarded, JustAllowed}
use sandbx.Turn.Run.{run_turn_until}
use sandbx.Turn.Run.Heard.{EachGuarded, actions_of, run_turn_until-Heard}
use sandbx.Cli.Gate.{only_reads, Allowed, approves, Values, Operator, ArgvGate, approve, gated}

-- A tool that only reads, or one that the flag names; the bare flag names them all.
abbrev pub Consented : Allowed → BuiltinTool → Type 0
Consented allowed t =
    (only_reads t ≡ true)
    ⊎ (allowed ≡ some [])
    ⊎ ((named : List BuiltinTool) × (allowed ≡ some named) × (offers named t ≡ true))

approves-Consented :
    (allowed : Allowed) (t : BuiltinTool) → approves allowed t ≡ true → Consented allowed t
unfolding approves
approves-Consented none t e = elim (Bool-cases (only_reads t)) [ inl r ↦ inl r | inr r ↦ cc ]
approves-Consented (some []) t e = inr (inl refl)
approves-Consented (some (n ∷ ns)) t e = elim (Bool-cases (only_reads t)) [
  | inl r ↦ inl r
  | inr r ↦
      inr (inr (n ∷ ns, refl, subst (λ b. (if b then true else offers (n ∷ ns) t) ≡ true) r e))
]

-- Every tool that ran satisfies `Q`.
abbrev pub Ran : {Json : Type 0} → (BuiltinTool → Type 0) → List (Action Json) → Type 0
Ran Q [] = Unit {0}
Ran Q (executed c ∷ rest) = Q c.tool × Ran Q rest
Ran Q (_ ∷ rest) = Ran Q rest

abbrev pub EachRan : {Json : Type 0} → (BuiltinTool → Type 0) → List (List (Action Json)) → Type 0
EachRan Q [] = Unit {0}
EachRan Q (actions ∷ rounds) = Ran Q actions × EachRan Q rounds

module _ {Json : Type 0} (P : ToolCall Json → ApprovalDecision → Type 0) (Q : BuiltinTool → Type 0)
    (offered : List BuiltinTool) (allowed-Q : (c : ToolCall Json) → P c allow → Q c.tool) where
  just-Q :
      (c : ToolCall Json) (rest : List (Action Json))
      → JustAllowed c rest
      → Guarded P offered rest
      → Q c.tool
  just-Q c (asked c' allow ∷ rest) j g = subst (λ d. Q d.tool) j (allowed-Q c' g.0)
  just-Q c [] j g = absurd j
  just-Q c (asked c' (deny r) ∷ rest) j g = absurd j
  just-Q c (asked c' (abort r) ∷ rest) j g = absurd j
  just-Q c (executed c' ∷ rest) j g = absurd j
  just-Q c (told s ∷ rest) j g = absurd j

  Guarded-Ran : (actions : List (Action Json)) → Guarded P offered actions → Ran Q actions
  Guarded-Ran [] g = tt
  Guarded-Ran (executed c ∷ rest) g = (just-Q c rest g.0 g.1, Guarded-Ran rest g.1)
  Guarded-Ran (asked c d ∷ rest) g = Guarded-Ran rest g.3
  Guarded-Ran (told s ∷ rest) g = Guarded-Ran rest g

  pub EachGuarded-EachRan :
      (rounds : List (List (Action Json))) → EachGuarded P offered rounds → EachRan Q rounds
  EachGuarded-EachRan [] g = tt
  EachGuarded-EachRan (actions ∷ rounds) g =
      (Guarded-Ran actions g.0, EachGuarded-EachRan rounds g.1)

module _ {Json T : Type 0} (values : Values Json) (operator : Operator Json T)
    (allowed : Allowed) where
  abbrev ByArgv : ToolCall Json → ApprovalDecision → Type 0
  ByArgv c d = d ≡ allow → Consented allowed c.tool

  approve-ByArgv :
      (c : ToolCall Json) (g : ArgvGate T) → ByArgv c (approve values operator allowed c g).0
  unfolding approve
  approve-ByArgv c g =
      if_elim (λ (r : ApprovalDecision × ArgvGate T). ByArgv c r.0) (not (approves allowed c.tool))
        _ _ (λ _ e. cc)
        (λ e _. approves-Consented allowed c.tool (not-false (approves allowed c.tool) e))

  -- However a turn goes and whatever the operator answers, a tool that ran is one that only reads, or
  -- one that the arguments approved: by the bare flag, or by its name.
  pub run_turn_until-Consented :
      (w : World Json) (turn : Turn Json) (s : w.State × ArgvGate T)
      → EachRan
          (Consented allowed)
          (actions_of (run_turn_until (gated values operator allowed w) turn s))
  run_turn_until-Consented w turn s =
      EachGuarded-EachRan ByArgv (Consented allowed) turn.tools (λ c p. p refl) _
        (run_turn_until-Heard (gated values operator allowed w) turn ByArgv
          (λ c t. approve-ByArgv c t.1) s)
