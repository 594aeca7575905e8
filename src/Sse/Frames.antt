-- ===== src/Sse/Frames.antt =====
-- What the framing of a byte stream comes to, byte by byte, with no word of chunks or buffers.
use sandbx.Common.{
  ℕ, ◌+◌, Bool, true, false, not, ◌&&◌, ◌||◌, leb, ◌==◌, List, [], ◌∷◌, ◌++◌, Bytes, if◌then◌else◌,
  is_empty, length,
}
use sandbx.Sse.{
  Item, ok, err, malformed_event, transport, Chunk, bytes, broken, newline, parse_event, trim_cr,
}

-- The bytes of a stream, up to where it breaks, and whether it does.
abbrev pub total : List Chunk → Bytes
total [] = []
total (bytes c ∷ chunks) = c ++ total chunks
total (broken ∷ chunks) = []

abbrev pub breaks : List Chunk → Bool
breaks [] = false
breaks (bytes c ∷ chunks) = breaks chunks
breaks (broken ∷ chunks) = true

module _ (is_utf8 : Bytes → Bool) (broke : Bool) where
  -- The stream is over, behind these lines of an event.
  abbrev pub open_event : List Bytes → List Item
  open_event lines =
      if broke
      then err transport ∷ []
      else if is_empty lines
      then []
      else ok (parse_event lines) ∷ []

  -- A line is over: an empty one closes the event, if there is one.
  abbrev pub after_line : List Bytes → Bytes → List Item → List Item → List Item
  after_line lines line fresh more =
      if not (is_utf8 line)
      then err malformed_event ∷ []
      else if is_empty line
      then (if is_empty lines then fresh else ok (parse_event lines) ∷ fresh)
      else more

  -- The items of a stream, behind the lines of an event and the start of a line.
  unfoldable pub frames : List Bytes → Bytes → Bytes → List Item
  frames lines start [] =
      if is_empty start || broke
      then open_event lines
      else after_line lines (trim_cr start) (open_event [])
          (open_event (lines ++ trim_cr start ∷ []))
  frames lines start (c ∷ cs) =
      let fresh = frames [] [] cs in
      let more = frames (lines ++ trim_cr start ∷ []) [] cs in
      let on = frames lines (start ++ c ∷ []) cs in
      if c == newline then after_line lines (trim_cr start) fresh more else on

abbrev pub grown : ℕ → Bytes → ℕ
grown size line = if is_empty line then 0 else size + length line

-- No event takes more than `cap` bytes, the line that is begun among them.
unfoldable pub fits : ℕ → ℕ → Bytes → Bytes → Bool
fits cap size start [] = leb (size + length start) cap
fits cap size start (c ∷ cs) =
    let rest =
      fits cap (if c == newline then grown size (trim_cr start) else size)
        (if c == newline then [] else start ++ c ∷ []) cs in
    leb (size + length start) cap && rest
