-- ===== src/Cli/Gate.antt =====
-- crates/sandbx-cli/src/agent_gate.rs: which tools a run approved, and the line about each call. What
-- `serde_json` and the `Debug` of a duration give is the record `Values`, and the operator's terminal
-- is the record `Operator`.
pub mod Argv
pub mod Lines
use sandbx.Common.{
  ℕ, Bool, true, false, not, ◌&&◌, List, [], ◌∷◌, ◌++◌, map, any, retain, Option, none, some, Bytes,
  codes, if◌then◌else◌,
}
use sandbx.Tools.{
  BuiltinTool, bash, RiskLevel, read_only, all_tools, name, risk, offers, ToolError, denied,
  bad_input, failed, timed_out,
}
use sandbx.Turn.{ToolCall, ApprovalDecision, allow, deny, Outcome, Settled, World, Opened, Finished}
use sandbx.Cli.Spelling.{stripped, printable}

abbrev pub only_reads : BuiltinTool → Bool
only_reads t = elim (risk t) [ read_only ↦ true | _ ↦ false ]

-- `--allow-tool`: absent, bare, or a list.
abbrev pub Allowed : Type 0
Allowed = Option (List BuiltinTool)

abbrev named_by : Allowed → BuiltinTool → Bool
named_by none t = false
named_by (some []) t = true
named_by (some (n ∷ ns)) t = offers (n ∷ ns) t

unfoldable pub approves : Allowed → BuiltinTool → Bool
approves allowed t = if only_reads t then true else named_by allowed t

unfoldable pub approved_tools : Allowed → List Bytes
approved_tools allowed = map name (retain (approves allowed) all_tools)

unfoldable pub asks_about_anything : Allowed → Bool
asks_about_anything allowed = any (λ t. not (only_reads t) && approves allowed t) all_tools

pub record Values (Json : Type 0) : Type 0 where
  pub field : Bytes → Json → Option Json
  pub as_str : Json → Option Bytes
  pub to_string : Json → Bytes
  pub debug : ℕ → Bytes

module _ {Json : Type 0} (values : Values Json) where
  abbrev text_of : Json → Bytes
  text_of value = elim (values.as_str value) [ none ↦ values.to_string value | some t ↦ t ]

  abbrev key_of : BuiltinTool → Bytes
  key_of bash = codes "command"
  key_of _ = codes "path"

  abbrev shown_value : Option Json → Option Bytes
  shown_value none = none
  shown_value (some value) = some (printable (text_of value))

  -- What one call is about.
  abbrev subject : BuiltinTool → Json → Option Bytes
  subject t input = shown_value (values.field (key_of t) input)

  abbrev with_subject : Bytes → Option Bytes → Bytes
  with_subject n none = n
  with_subject n (some s) = n ++ codes " " ++ s

  unfoldable pub describe : BuiltinTool → Json → Bytes
  describe t input = with_subject (name t) (subject t input)

  abbrev became : Outcome → Bytes
  became Outcome.ran = codes " — ran"
  became Outcome.unknown = codes " — no tool answers to that name"
  became Outcome.not_offered = codes " — not offered this turn"
  became (Outcome.denied reason) = codes " — refused: " ++ printable reason
  became (Outcome.errored (denied s reason)) =
      codes " — refused by the policy: " ++ printable reason
  became (Outcome.errored (bad_input detail)) = codes " — bad arguments: " ++ printable detail
  became (Outcome.errored (failed s detail)) = codes " — failed: " ++ printable detail
  became (Outcome.errored (timed_out s after)) =
      codes " — timed out after " ++ values.debug after ++ codes " and was killed"

  abbrev head : Option BuiltinTool → Settled Json → Bytes
  head none call = printable call.name
  head (some t) call = describe t call.input

  unfoldable pub report : Settled Json → Bytes
  report call = head call.tool call ++ became call.outcome

  unfoldable pub line : Settled Json → Bytes
  line call = codes "sandbx: " ++ stripped (report call)

-- The operator, as the gate reaches them.
pub record Operator (Json T : Type 0) : Type 0 where
  pub ask : ToolCall Json → T → ApprovalDecision × T
  pub report_line : Bytes → T → T

-- What the gate writes to: the terminal of `--approve call`, or stderr.
pub record ArgvGate (T : Type 0) : Type 0 where
  pub terminal : Option T
  pub stderr : List Bytes

abbrev pub not_approved : Bytes → Bytes
not_approved n =
    codes "the `"
    ++ n
    ++ codes "` tool is not approved for this run: "
    ++ codes "it runs only when sandbx is started with `--allow-tool "
    ++ n
    ++ codes "`"

module _ {Json T : Type 0} (values : Values Json) (operator : Operator Json T)
    (allowed : Allowed) where
  abbrev asking : ToolCall Json → ArgvGate T → ApprovalDecision × ArgvGate T
  asking c g = elim g.terminal [
    | none ↦ (allow, g)
    | some t ↦ let (d, t') = operator.ask c t in (d, record g { terminal = some t' })
  ]

  unfoldable pub approve : ToolCall Json → ArgvGate T → ApprovalDecision × ArgvGate T
  approve c g =
      if not (approves allowed c.tool)
      then (deny (not_approved (name c.tool)), g)
      else if only_reads c.tool
      then (allow, g)
      else asking c g

  unfoldable pub settled : Settled Json → ArgvGate T → ArgvGate T
  settled call g = elim g.terminal [
    | none ↦ record g { stderr = g.stderr ++ line values call ∷ [] }
    | some t ↦ record g { terminal = some (operator.report_line (line values call) t) }
  ]

  -- The turn loop's world, with this gate for its gate.
  abbrev pub gated : World Json → World Json
  gated w = record {
    State = w.State × ArgvGate T;
    stops = λ s. w.stops s.0;
    open_stream = λ p s. let (o, t) = w.open_stream p s.0 in (o, (t, s.1));
    observe = λ e s. (w.observe e s.0, s.1);
    approve = λ c s. let (d, g) = approve c s.1 in (d, (s.0, g));
    settled = λ call s. (s.0, settled call s.1);
    execute = λ c s. let (f, t) = w.execute c s.0 in (f, (t, s.1));
    error_text = w.error_text;
    describe = w.describe;
    schema = w.schema;
  }
