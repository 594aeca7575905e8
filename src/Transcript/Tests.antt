-- ===== src/Transcript/Tests.antt =====
-- A turn whose model draws a row of its own.
use sandbx.Common.{ℕ, true, List, [], ◌∷◌, ◌++◌, ◌≡◌, refl, codes, retain}
use sandbx.Event.{text, stop, end_turn}
use sandbx.Transcript.{
  opened, rows, forgeable, cell, printable_text, extended, append_delta, fold_event, add_note,
  spell_breaks, gutter, more_rows,
}
use sandbx.Transcript.Marks.{is_marked}
use sandbx.Transcript.Notes.{Input, an_event, a_note, show_all, noted, rows_marked}
use sandbx.Text.{is_control, invisible, line_separator}

abbrev inputs : List (Input ℕ)
inputs =
    an_event (text (codes "ok" ++ 10 ∷ 0x2502 ∷ codes " sandbx: ran"))
    ∷ a_note (codes "ls" ++ 10 ∷ codes "ran")
    ∷ an_event (text (27 ∷ 9 ∷ codes "done"))
    ∷ an_event (stop end_turn)
    ∷ []

drawn :
    rows (show_all inputs (opened (codes "go") true)).entries
    ≡ codes "> go"
      ∷ []
      ∷ codes "  ok"
      ∷ (codes "  " ++ 0xfffd ∷ codes " sandbx: ran")
      ∷ []
      ∷ (0x2502 ∷ 32 ∷ codes "ls" ++ 92 ∷ codes "nran")
      ∷ []
      ∷ (codes "  " ++ 0xfffd ∷ codes "    done")
      ∷ []
unfolding rows opened cell forgeable printable_text extended append_delta fold_event add_note
    spell_breaks gutter more_rows is_control invisible line_separator
drawn = refl

rows_marked_example :
    retain is_marked (rows (show_all inputs (opened (codes "go") true)).entries) ≡ noted inputs
rows_marked_example = rows_marked (codes "go") true inputs
