-- ===== src/Cli/Gate/Lines.antt =====
-- What an operator reads of a call.
use sandbx.Common.{ℕ, true, ◌++◌, ◌≡◌, refl, ap, Bytes, codes, all, Option, none, some}
use sandbx.Text.{is_control, invisible, line_separator, is_plain}
use sandbx.Tools.{
  BuiltinTool, read, write, bash, edit, ls, grep, find, name, denied, bad_input, failed, timed_out,
}
use sandbx.Turn.{Outcome, Settled}
use sandbx.Cli.Spelling.{stripped, printable}
use sandbx.Cli.Spelling.Plain.{append-plain, printable-plain, stripped-plain, stripped_keeps}
use sandbx.Cli.Gate.{
  Values, with_subject, shown_value, text_of, describe, became, head, report, line,
}

name-plain : (t : BuiltinTool) → all is_plain (name t) ≡ true
unfolding name is_control invisible line_separator
name-plain read = refl
name-plain write = refl
name-plain bash = refl
name-plain edit = refl
name-plain ls = refl
name-plain grep = refl
name-plain find = refl

framed-plain :
    (words t : Bytes) → all is_plain words ≡ true → all is_plain (words ++ printable t) ≡ true
framed-plain words t h = append-plain words (printable t) h (printable-plain t)

module _ {Json : Type 0} (values : Values Json) where
  with_subject-plain :
      (t : BuiltinTool) (value : Option Json)
      → all is_plain (with_subject values (name t) (shown_value values value)) ≡ true
  unfolding is_control invisible line_separator
  with_subject-plain t none = name-plain t
  with_subject-plain t (some v) =
      framed-plain (name t ++ codes " ") (text_of values v)
        (append-plain (name t) (codes " ") (name-plain t) refl)

  head-plain :
      (o : Option BuiltinTool) (call : Settled Json) → all is_plain (head values o call) ≡ true
  unfolding describe
  head-plain none call = printable-plain call.name
  head-plain (some t) call = with_subject-plain t (values.field _ call.input)

  became-plain :
      (debug-plain : (n : ℕ) → all is_plain (values.debug n) ≡ true) (o : Outcome)
      → all is_plain (became values o) ≡ true
  unfolding is_control invisible line_separator
  became-plain q Outcome.ran = refl
  became-plain q Outcome.unknown = refl
  became-plain q Outcome.not_offered = refl
  became-plain q (Outcome.denied reason) = framed-plain (codes " — refused: ") reason refl
  became-plain q (Outcome.errored (denied s reason)) =
      framed-plain (codes " — refused by the policy: ") reason refl
  became-plain q (Outcome.errored (bad_input detail)) =
      framed-plain (codes " — bad arguments: ") detail refl
  became-plain q (Outcome.errored (failed s detail)) =
      framed-plain (codes " — failed: ") detail refl
  became-plain q (Outcome.errored (timed_out s after)) =
      append-plain (codes " — timed out after ") (values.debug after ++ codes " and was killed")
        refl (append-plain (values.debug after) (codes " and was killed") (q after) refl)

  -- Whatever a call was named and given, and whatever came of it, the line about it rewrites nothing of
  -- the terminal: no control character, nothing invisible, no separator of lines.
  line-plain : (call : Settled Json) → all is_plain (line values call) ≡ true
  unfolding line is_control invisible line_separator
  line-plain call =
      append-plain (codes "sandbx: ") (stripped (report values call)) refl
        (stripped-plain (report values call))

  -- Where the `Debug` of a duration is plain text, the strip at the sink takes nothing from what the
  -- fields were spelled to: the line is the report as it was composed.
  line-report :
      (debug-plain : (n : ℕ) → all is_plain (values.debug n) ≡ true) (call : Settled Json)
      → line values call ≡ codes "sandbx: " ++ report values call
  unfolding line report
  line-report q call = ap (◌++◌ (codes "sandbx: ")) (
      stripped_keeps _ (
        append-plain (head values call.tool call) (became values call.outcome)
          (head-plain call.tool call) (became-plain q call.outcome)))
