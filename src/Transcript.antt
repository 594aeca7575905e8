-- ===== src/Transcript.antt =====
-- crates/sandbx-tui-transcript/src/transcript.rs, and the rows of view.rs: what the screen shows of a
-- turn. A string is the list of its code points.
pub mod Marks
pub mod Notes
mod Tests
use sandbx.Common.{
  ℕ, zero, suc, Bool, true, false, not, ◌||◌, ◌&&◌, ◌==◌, List, [], ◌∷◌, ◌++◌, any, Option, none,
  some, or_else, Bytes, codes, if◌then◌else◌, is_empty,
}
use sandbx.Event.{AgentEvent, text, thinking, usage, stop}
use sandbx.Text.{is_control, invisible, line_separator}

pub data Kind : Type 0 where
  prompt answer reasoning note : Kind

pub record Entry : Type 0 where
  pub kind : Kind
  pub content : Bytes

pub record Tokens : Type 0 where
  pub input : Option ℕ
  pub output : Option ℕ

pub record Transcript : Type 0 where
  pub entries : List Entry
  -- `Reasoning::Shown`.
  pub shows_reasoning : Bool
  pub rounds : ℕ
  pub tokens : Tokens

-- U+2502.
abbrev pub gutter_mark : ℕ
gutter_mark = 0x2502

abbrev forgeable_marks : List ℕ
forgeable_marks =
    gutter_mark ∷ 0x2503 ∷ 0x2506 ∷ 0x2507 ∷ 0x250a ∷ 0x250b ∷ 0x254e ∷ 0x254f ∷ 0x2551 ∷ 0x2575
    ∷ 0x2577 ∷ 0x2579 ∷ 0x257b ∷ 0x257d ∷ 0x257f ∷ 0x239c ∷ 0x239f ∷ 0x23a2 ∷ 0x23a5 ∷ 0x23aa
    ∷ 0x23ae ∷ 0x23b8 ∷ 0x23b9 ∷ 0x23d0 ∷ 0x00a6 ∷ 0x01c0 ∷ 0x01c1 ∷ 0x05c0 ∷ 0x2016 ∷ 0x2223
    ∷ 0x2225 ∷ 0x258f ∷ 0x2595 ∷ 0x2758 ∷ 0xfe31 ∷ 0xfe32 ∷ 0xfe33 ∷ 0xff5c ∷ 0xffdc ∷ 0xffe8
    ∷ 0x030d ∷ 0x030e ∷ 0x0329 ∷ 0x0348 ∷ 0x20d2 ∷ 0x20d3 ∷ 0x20e6 ∷ []

unfoldable pub forgeable : ℕ → Bool
forgeable c = any (λ m. m == c) forgeable_marks

-- The arms of the match in `printable`.
unfoldable pub cell : ℕ → Bytes
cell c =
    if c == 10
    then 10 ∷ []
    else if line_separator c
    then 10 ∷ []
    else if c == 9
    then codes "    "
    else if is_control c || invisible c || forgeable c
    then 0xfffd ∷ []
    else c ∷ []

unfoldable pub printable_text : Bytes → Bytes
printable_text [] = []
printable_text (c ∷ cs) = cell c ++ printable_text cs

abbrev pub same_kind : Kind → Kind → Bool
same_kind prompt prompt = true
same_kind answer answer = true
same_kind reasoning reasoning = true
same_kind note note = true
same_kind _ _ = false

-- `match self.entries.last_mut()`.
unfoldable pub extended : Kind → Bytes → List Entry → List Entry
extended kind t [] = record { kind = kind; content = t } ∷ []
extended kind t (e ∷ []) =
    if same_kind e.kind kind
    then record e { content = e.content ++ t } ∷ []
    else e ∷ record { kind = kind; content = t } ∷ []
extended kind t (e ∷ f ∷ es) = e ∷ extended kind t (f ∷ es)

unfoldable pub append_delta : Bytes → Kind → Transcript → Transcript
append_delta delta kind s =
    if is_empty delta
    then s
    else record s { entries = extended kind (printable_text delta) s.entries }

-- `Transcript::new`.
unfoldable pub opened : Bytes → Bool → Transcript
opened p shows = record {
  entries = record { kind = prompt; content = printable_text p } ∷ [];
  shows_reasoning = shows;
  rounds = 0;
  tokens = record { input = none; output = none };
}

-- `Transcript::event`.
unfoldable pub fold_event : {Json : Type 0} → AgentEvent Json → Transcript → Transcript
fold_event (text delta) s = append_delta delta answer s
fold_event (thinking delta) s = if s.shows_reasoning then append_delta delta reasoning s else s
fold_event (stop reason) s = record s { rounds = suc s.rounds }
fold_event (usage i o w r) s = record s {
  tokens = record { input = or_else i s.tokens.input; output = or_else o s.tokens.output };
}
fold_event _ s = s

-- `replace('\n', "\\n")`.
unfoldable pub spell_breaks : Bytes → Bytes
spell_breaks [] = []
spell_breaks (c ∷ cs) = if c == 10 then 92 ∷ 110 ∷ spell_breaks cs else c ∷ spell_breaks cs

abbrev pub note_text : Bytes → Bytes
note_text line = spell_breaks (printable_text line)

-- `Transcript::note`.
unfoldable pub add_note : Bytes → Transcript → Transcript
add_note line s = record s {
  entries = s.entries ++ record { kind = note; content = note_text line } ∷ [];
}

-- `gutter`.
unfoldable pub gutter : Kind → ℕ → Bytes
gutter note n = gutter_mark ∷ 32 ∷ []
gutter prompt zero = codes "> "
gutter _ n = codes "  "

-- `split('\n')`: the first piece, and the others.
abbrev pub split_rows : Bytes → Bytes × List Bytes
split_rows [] = ([], [])
split_rows (c ∷ cs) =
    let (first, others) = split_rows cs in
    if c == 10 then ([], first ∷ others) else (c ∷ first, others)

abbrev pub with_gutters : Kind → ℕ → List Bytes → List Bytes
with_gutters kind n [] = []
with_gutters kind n (row ∷ rows) = (gutter kind n ++ row) ∷ with_gutters kind (suc n) rows

abbrev pub entry_rows : Entry → List Bytes
entry_rows e = let (first, others) = split_rows e.content in with_gutters e.kind 0 (first ∷ others)

-- The entries behind the first, each behind a blank row.
unfoldable pub more_rows : List Entry → List Bytes
more_rows [] = []
more_rows (e ∷ es) = [] ∷ (entry_rows e ++ more_rows es)

-- `rows`, less the style of each.
unfoldable pub rows : List Entry → List Bytes
rows [] = []
rows (e ∷ es) = entry_rows e ++ more_rows es
