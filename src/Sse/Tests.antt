-- ===== src/Sse/Tests.antt =====
-- The tokenizer on a response that is cut inside a line.
use sandbx.Common.{Bool, true, List, [], ◌∷◌, ◌++◌, Bytes, codes, ◌≡◌, refl, arith}
use sandbx.Sse.{
  ok, err, malformed_event, transport, Chunk, bytes, broken, parse_event, trim_cr, next_line,
  line_fate, scan, drain_last, pull, next_event, tokenize_from, tokenize, max_event_bytes,
}
use sandbx.Sse.Frames.{total, breaks, frames, fits}
use sandbx.Sse.Chunks.{tokenize-frames}

abbrev ascii : Bytes → Bool
ascii s = true

-- Two events, the first with two lines of data; the second is never closed.
abbrev whole : Bytes
whole =
    codes "data: a"
    ++ 13 ∷ 10 ∷ codes "data:b"
    ++ 10 ∷ 10 ∷ 10 ∷ codes ": note"
    ++ 10 ∷ codes "data: c"

abbrev cut : List Chunk
cut =
    bytes (codes "data: a" ++ 13 ∷ [])
    ∷ bytes (10 ∷ codes "data:b" ++ 10 ∷ [])
    ∷ bytes (10 ∷ 10 ∷ codes ": no")
    ∷ bytes (codes "te" ++ 10 ∷ codes "data: c")
    ∷ []

tokens :
    tokenize ascii max_event_bytes 40 cut ≡ ok (codes "a" ++ 10 ∷ codes "b") ∷ ok (codes "c") ∷ []
unfolding tokenize tokenize_from next_event pull drain_last scan line_fate next_line trim_cr
    parse_event
tokens = refl

breaks_off :
    tokenize ascii max_event_bytes 40 (bytes (codes "data: a") ∷ broken ∷ []) ≡ err transport ∷ []
unfolding tokenize tokenize_from next_event pull drain_last scan line_fate next_line trim_cr
    parse_event
breaks_off = refl

-- A cap that the cut exceeds: the carriage return of a line counts until its newline is there.
cap_counts_cr : tokenize ascii 2 9 (bytes (codes "ab" ++ 13 ∷ 10 ∷ 10 ∷ []) ∷ []) ≡ ok [] ∷ []
unfolding tokenize tokenize_from next_event pull drain_last scan line_fate next_line trim_cr
    parse_event
cap_counts_cr = refl

cap_counts_cut_cr :
    tokenize ascii 2 9 (bytes (codes "ab" ++ 13 ∷ []) ∷ bytes (10 ∷ 10 ∷ []) ∷ [])
    ≡ err malformed_event ∷ []
unfolding tokenize tokenize_from next_event pull drain_last scan line_fate next_line trim_cr
    parse_event
cap_counts_cut_cr = refl

cut_fits : fits max_event_bytes 0 [] (total cut) ≡ true
unfolding fits trim_cr
cut_fits = refl

tokenize-frames_example :
    tokenize ascii max_event_bytes 40 cut ≡ frames ascii (breaks cut) [] [] (total cut)
tokenize-frames_example = tokenize-frames ascii max_event_bytes 40 cut (omega arith) cut_fits
