-- ===== src/Sse.antt =====
-- crates/sandbx-sse/src/lib.rs: the bytes of a response, in chunks, framed into events. A string is the
-- list of its bytes; what bytes are UTF-8 is a parameter.
pub mod Frames
mod Lines
mod Scan
pub mod Chunks
mod Tests
use sandbx.Common.{
  ℕ, zero, suc, ◌+◌, ◌-◌, ◌*◌, Bool, true, false, not, ltb, ◌==◌, List, [], ◌∷◌, ◌++◌, Option, none,
  some, Bytes, codes, if◌then◌else◌, is_empty, length, drop, last?, split_once,
}
use sandbx.Core.Policy.{begins_space}

pub data StreamError : Type 0 where
  malformed_event transport : StreamError

pub data Item : Type 0 where
  ok : Bytes → Item
  err : StreamError → Item

-- What polling the byte stream gives; after the last it has ended.
pub data Chunk : Type 0 where
  bytes : Bytes → Chunk
  broken : Chunk

pub record TokenizerState : Type 0 where
  pub chunks : List Chunk
  pub buf : Bytes
  pub scanned : ℕ
  pub done : Bool

abbrev pub newline : ℕ
newline = 10

abbrev pub max_event_bytes : ℕ
max_event_bytes = 4 * 1024 * 1024

-- `str::strip_prefix` and `str::trim_start`: a space goes with the bytes behind its first.
abbrev strip_str : Bytes → Bytes → Option Bytes
strip_str s [] = some s
strip_str [] (d ∷ ds) = none
strip_str (c ∷ cs) (d ∷ ds) = let rest = strip_str cs ds in if c == d then rest else none

abbrev bytes_behind : ℕ → ℕ
bytes_behind c = if ltb c 0x80 then 0 else if ltb c 0xE0 then 1 else 2

trim_from : ℕ → Bytes → Bytes
trim_from n [] = []
trim_from (suc n) (c ∷ cs) = trim_from n cs
trim_from zero (c ∷ cs) =
    let rest = trim_from (bytes_behind c) cs in if begins_space c cs then rest else c ∷ cs

data_of : List Bytes → List Bytes
unfolding trim_from
data_of [] = []
data_of (line ∷ lines) =
    let rest = data_of lines in
    elim (strip_str line (codes "data:")) [ none ↦ rest | some d ↦ trim_from 0 d ∷ rest ]

abbrev joined : List Bytes → Bytes
joined [] = []
joined (s ∷ []) = s
joined (s ∷ t ∷ ss) = s ++ newline ∷ joined (t ∷ ss)

unfoldable pub parse_event : List Bytes → Bytes
unfolding data_of
parse_event lines = joined (data_of lines)

abbrev but_last : Bytes → Bytes
but_last [] = []
but_last (c ∷ []) = []
but_last (c ∷ d ∷ cs) = c ∷ but_last (d ∷ cs)

abbrev is_cr : Option ℕ → Bool
is_cr none = false
is_cr (some c) = c == 13

-- A line without its carriage return.
unfoldable pub trim_cr : Bytes → Bytes
trim_cr line = if is_cr (last? line) then but_last line else line

abbrev pub take : ℕ → Bytes → Bytes
take zero s = []
take (suc n) [] = []
take (suc n) (c ∷ cs) = c ∷ take n cs

-- The next line of the buffer, looked for behind what was scanned, and what is left.
unfoldable pub next_line : ℕ → Bytes → Option (Bytes × Bytes)
next_line scanned buf = elim (split_once newline (drop scanned buf)) [
  | none ↦ none
  | some (line, rest) ↦ some (take scanned buf ++ line, rest)
]

-- What the scan of the buffer comes to: an event with the buffer behind it, an error, or the lines and
-- the bytes of an event that is not complete, with what is left of the buffer.
pub data Scanned : Type 0 where
  event : Bytes → Bytes → Scanned
  fault : Scanned
  partial : List Bytes → ℕ → Bytes → Scanned

abbrev pub ended : List Chunk → TokenizerState
ended chunks = record { chunks = chunks; buf = []; scanned = 0; done = true }

abbrev pub failing : StreamError → List Chunk → Option (Item × TokenizerState)
failing e chunks = some (err e, ended chunks)

-- What sits behind the last newline is a line that was never terminated.
abbrev pub terminated : Bytes → Bytes
terminated buf = if is_empty buf then buf else buf ++ newline ∷ []

-- What becomes of a line: it is in error, is skipped, closes the event, or is pushed.
pub data LineFate : Type 0 where
  bad blank closes pushed : LineFate

module _ (is_utf8 : Bytes → Bool) (cap : ℕ) where
  unfoldable pub line_fate : List Bytes → ℕ → Bytes → LineFate
  line_fate lines size line =
      if not (is_utf8 line)
      then bad
      else if is_empty line
      then (if is_empty lines then blank else closes)
      else if ltb cap (size + length line)
      then bad
      else pushed

  unfoldable pub scan : ℕ → List Bytes → ℕ → ℕ → Bytes → Scanned
  scan zero lines size scanned buf = partial lines size buf
  scan (suc fuel) lines size scanned buf = elim (next_line scanned buf) [
    | none ↦ partial lines size buf
    | some (line, rest) ↦ elim (line_fate lines size (trim_cr line)) [
      | bad ↦ fault
      | blank ↦ scan fuel lines size 0 rest
      | closes ↦ event (parse_event lines) rest
      | pushed ↦ scan fuel (lines ++ trim_cr line ∷ []) (size + length (trim_cr line)) 0 rest
    ]
  ]

  -- Each pass of the scan takes a byte, so this is enough.
  abbrev pub scan_all : List Bytes → ℕ → ℕ → Bytes → Scanned
  scan_all lines size scanned buf = scan (suc (length buf)) lines size scanned buf

  -- The stream has ended: the lines that are left are an event that was not closed.
  unfoldable pub drain_last : Scanned → Option (Item × TokenizerState)
  drain_last (event d rest) =
      some (ok d, record { chunks = []; buf = rest; scanned = 0; done = true })
  drain_last fault = failing malformed_event []
  drain_last (partial lines size buf) =
      if ltb cap (size + length buf)
      then failing malformed_event []
      else if is_empty lines
      then none
      else some (
        ok (parse_event lines),
        record { chunks = []; buf = buf; scanned = length buf; done = true },
      )

  -- The loop of `next_event`, behind a scan.
  unfoldable pub pull : Scanned → List Chunk → Option (Item × TokenizerState)
  unfolding drain_last scan
  pull (event d rest) chunks =
      some (ok d, record { chunks = chunks; buf = rest; scanned = 0; done = false })
  pull fault chunks = failing malformed_event chunks
  pull (partial lines size buf) [] =
      if ltb cap (size + length buf)
      then failing malformed_event []
      else drain_last (scan_all lines size (length buf) (terminated buf))
  pull (partial lines size buf) (broken ∷ chunks) =
      if ltb cap (size + length buf)
      then failing malformed_event (broken ∷ chunks)
      else failing transport chunks
  pull (partial lines size buf) (bytes c ∷ chunks) =
      let rest = pull (scan_all lines size (length buf) (buf ++ c)) chunks in
      if ltb cap (size + length buf) then failing malformed_event (bytes c ∷ chunks) else rest

  unfoldable pub next_event : TokenizerState → Option (Item × TokenizerState)
  unfolding pull
  next_event t = if t.done then none else pull (scan_all [] 0 t.scanned t.buf) t.chunks

  -- `tokenize`, as its first polls give it.
  unfoldable pub tokenize_from : ℕ → TokenizerState → List Item
  unfolding next_event
  tokenize_from zero t = []
  tokenize_from (suc polls) t = elim (next_event t) [
    | none ↦ []
    | some (item, t') ↦ item ∷ tokenize_from polls t'
  ]

  unfoldable pub tokenize : ℕ → List Chunk → List Item
  unfolding tokenize_from
  tokenize polls chunks =
      tokenize_from polls (record { chunks = chunks; buf = []; scanned = 0; done = false })
