-- ===== src/Text.antt =====
-- crates/sandbx-text/src/lib.rs: what text may not carry to a terminal. Here, and where text is drawn
-- or printed, a string is the list of its code points.
use sandbx.Common.{ℕ, Bool, ◌||◌, ◌&&◌, not, ◌==◌, ltb}

abbrev pub within : ℕ → ℕ → ℕ → Bool
within low high c = not (ltb c low) && not (ltb high c)

-- `char::is_control`: the category Cc.
unfoldable pub is_control : ℕ → Bool
is_control c = ltb c 32 || within 127 159 c

unfoldable pub invisible : ℕ → Bool
invisible c =
    c == 173
    || c == 847
    || c == 1564
    || c == 1757
    || c == 1807
    || c == 2274
    || c == 6158
    || c == 12644
    || c == 65279
    || c == 65440
    || c == 69821
    || c == 69837
    || within 1536 1541 c
    || within 2192 2193 c
    || within 4447 4448 c
    || within 8203 8207 c
    || within 8234 8238 c
    || within 8288 8292 c
    || within 8294 8303 c
    || within 65024 65039 c
    || within 65529 65531 c
    || within 113824 113827 c
    || within 119155 119162 c
    || within 78896 78911 c
    || within 917504 917631 c
    || within 917760 917999 c

unfoldable pub line_separator : ℕ → Bool
line_separator c = c == 8232 || c == 8233

-- Nothing that rewrites or breaks the line around it.
abbrev pub is_plain : ℕ → Bool
is_plain c = not (is_control c || invisible c || line_separator c)
