-- ===== src/Cli/Spelling.antt =====
-- crates/sandbx-cli/src/error_line.rs, and the spelling of fields in agent_gate.rs: text that a model or
-- a server chose, as one line of a terminal.
pub mod Plain
pub mod RoundTrip
use sandbx.Common.{
  ℕ, zero, suc, Bool, true, false, ◌&&◌, List, [], ◌∷◌, ◌++◌, codes, Bytes, ◌==◌, ◌||◌,
  if◌then◌else◌, map, is_empty, not,
}
use sandbx.Text.{is_control, invisible, line_separator}

-- U+FFFD.
abbrev pub replacement : ℕ
replacement = 65533

-- `char::escape_unicode`, of the two characters it is called on.
abbrev pub escape_unicode : ℕ → Bytes
escape_unicode c = 92 ∷ (if c == 8232 then codes "u{2028}" else codes "u{2029}")

-- The arms of the match in `push_spelled`.
unfoldable pub spell : ℕ → Bytes
spell c =
    if c == 10
    then 92 ∷ 110 ∷ []
    else if c == 9
    then 92 ∷ 116 ∷ []
    else if c == 92
    then 92 ∷ 92 ∷ []
    else if line_separator c
    then escape_unicode c
    else if is_control c || invisible c
    then replacement ∷ []
    else c ∷ []

-- What `push_spelled` pushes.
unfoldable pub spelled : Bytes → Bytes
spelled [] = []
spelled (c ∷ cs) = spell c ++ spelled cs

unfoldable pub replaced : ℕ → ℕ
replaced c = if is_control c || invisible c || line_separator c then replacement else c

abbrev pub stripped : Bytes → Bytes
stripped t = map replaced t

-- `SUBJECT_CAP`.
abbrev pub subject_cap : ℕ
subject_cap = 512

-- Of a text, its first `n` characters, and whether there are more.
abbrev pub head_of : ℕ → Bytes → Bytes × Bool
head_of zero t = ([], not (is_empty t))
head_of (suc n) [] = ([], false)
head_of (suc n) (c ∷ cs) = let (h, more) = head_of n cs in (c ∷ h, more)

-- `printable`, its mark a U+2026.
unfoldable pub printable : Bytes → Bytes
printable t =
    let (h, more) = head_of subject_cap t in if more then spelled h ++ 8230 ∷ [] else spelled h

abbrev pub starts_with : Bytes → Bytes → Bool
starts_with s [] = true
starts_with [] (d ∷ ds) = false
starts_with (c ∷ cs) (d ∷ ds) = (c == d) && starts_with cs ds

-- `str::contains`.
abbrev pub contains_text : Bytes → Bytes → Bool
contains_text [] t = is_empty t
contains_text (c ∷ cs) t = starts_with (c ∷ cs) t || contains_text cs t

-- The loop of `error_line`, over the texts that following `source()` gives.
unfoldable pub causes_line : Bytes → List Bytes → Bytes
causes_line parent [] = []
causes_line parent (text ∷ causes) =
    let rest = causes_line text causes in
    (if contains_text parent text then [] else codes ": " ++ spelled text) ++ rest

unfoldable pub error_line : Bytes → List Bytes → Bytes
error_line error causes = spelled error ++ causes_line error causes
