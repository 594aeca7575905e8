-- ===== src/Sse/Scan.antt =====
-- What a scan of the buffer leaves is framed like the buffer.
use sandbx.Common.{
  ℕ, zero, suc, ◌+◌, ◌≤◌, ◌<◌, Bool, true, false, ltb, List, [], ◌∷◌, ◌++◌, none, some, Bytes,
  is_empty, length, split_once, ◌≡◌, refl, sym, ap, ◌∙◌, arith, Bool-cases, Option-cases, inl, inr,
  length-append, subst,
}
use mathlib.Core.List.{append_assoc}
use sandbx.Sse.{
  ok, err, malformed_event, newline, parse_event, trim_cr, take, next_line, Scanned, event, fault,
  partial, LineFate, bad, blank, closes, pushed, line_fate, scan,
}
use sandbx.Sse.Frames.{after_line, frames, grown, fits}
use sandbx.Sse.Lines.{
  plain, split_once-none, split_once-some, next_line-split_once, trim_cr-length, frames-line,
  fits-line,
}

-- An event without lines has no bytes.
abbrev pub Zero : List Bytes → ℕ → Type 0
Zero lines size = is_empty lines ≡ true → size ≡ 0

pub is_empty-append : (lines : List Bytes) (l : Bytes) → is_empty (lines ++ l ∷ []) ≡ false
is_empty-append [] l = refl
is_empty-append (k ∷ lines) l = refl

module _ (is_utf8 : Bytes → Bool) (cap : ℕ) (broke : Bool) where
  -- The scan is right about a buffer with more behind it.
  abbrev pub Keeps : List Bytes → Bytes → Bytes → Scanned → Type 0
  Keeps lines buf more (event d rest) =
      (frames is_utf8 broke lines [] (buf ++ more)
        ≡ ok d ∷ frames is_utf8 broke [] [] (rest ++ more))
      × (fits cap 0 [] (rest ++ more) ≡ true)
      × (length rest < length buf)
  Keeps lines buf more fault =
      frames is_utf8 broke lines [] (buf ++ more) ≡ err malformed_event ∷ []
  Keeps lines buf more (partial lines' size' buf') =
      (frames is_utf8 broke lines [] (buf ++ more) ≡ frames is_utf8 broke lines' [] (buf' ++ more))
      × (fits cap size' [] (buf' ++ more) ≡ true)
      × (plain buf' ≡ true)
      × (length buf' ≤ length buf)
      × Zero lines' size'

  Keeps-trans :
      (lines lines' : List Bytes) (buf rest more : Bytes) (r : Scanned)
      → frames is_utf8 broke lines [] (buf ++ more) ≡ frames is_utf8 broke lines' [] (rest ++ more)
      → length rest ≤ length buf
      → Keeps lines' rest more r
      → Keeps lines buf more r
  Keeps-trans lines lines' buf rest more (event d x) e l (f, t, s) = (e ∙ f, t, omega arith)
  Keeps-trans lines lines' buf rest more fault e l k = e ∙ k
  Keeps-trans lines lines' buf rest more (partial ls n b) e l (f, t, q, s, z) =
      (e ∙ f, t, q, omega arith, z)

  -- What a line's fate says of the line, where it is within the cap.
  abbrev pub Fated : List Bytes → Bytes → LineFate → Type 0
  Fated lines line bad = is_utf8 line ≡ false
  Fated lines line blank = (is_utf8 line ≡ true) × (is_empty line ≡ true) × (is_empty lines ≡ true)
  Fated lines line closes =
      (is_utf8 line ≡ true) × (is_empty line ≡ true) × (is_empty lines ≡ false)
  Fated lines line pushed = (is_utf8 line ≡ true) × (is_empty line ≡ false)

  pub line_fate-Fated :
      (lines : List Bytes) (size : ℕ) (line : Bytes)
      → ltb cap (size + length line) ≡ false
      → Fated lines line (line_fate is_utf8 cap lines size line)
  unfolding line_fate
  line_fate-Fated lines size line c = elim (Bool-cases (is_utf8 line)) [
    | inl u ↦ elim (Bool-cases (is_empty line)) [
      | inl e ↦ elim (Bool-cases (is_empty lines)) [
        | inl k ↦ rw u (rw e (rw k (u, e, k)))
        | inr k ↦ rw u (rw e (rw k (u, e, k)))
      ]
      | inr e ↦ rw u (rw e (rw c (u, e)))
    ]
    | inr u ↦ rw u u
  ]

  -- A line that was taken from the buffer, and the scan behind it.
  module _ (lines : List Bytes) (size : ℕ) (buf more line r : Bytes) (fuel : ℕ)
      (z : Zero lines size) (shorter : length r < length buf)
      (framed : frames is_utf8 broke lines [] (buf ++ more)
        ≡ after_line is_utf8 broke lines line
            (frames is_utf8 broke [] [] (r ++ more))
            (frames is_utf8 broke (lines ++ line ∷ []) [] (r ++ more)))
      (fitted : fits cap (grown size line) [] (r ++ more) ≡ true)
      (ih : (ls : List Bytes) (n : ℕ)
        → Zero ls n
        → fits cap n [] (r ++ more) ≡ true
        → Keeps ls r more (scan is_utf8 cap fuel ls n 0 r)) where
    abbrev then_scan : LineFate → Scanned
    then_scan bad = fault
    then_scan blank = scan is_utf8 cap fuel lines size 0 r
    then_scan closes = event (parse_event lines) r
    then_scan pushed = scan is_utf8 cap fuel (lines ++ line ∷ []) (size + length line) 0 r

    blank_framed :
        (ls : List Bytes)
        → is_utf8 line ≡ true
        → is_empty line ≡ true
        → is_empty ls ≡ true
        → after_line is_utf8 broke ls line
            (frames is_utf8 broke [] [] (r ++ more))
            (frames is_utf8 broke (ls ++ line ∷ []) [] (r ++ more))
          ≡ frames is_utf8 broke ls [] (r ++ more)
    blank_framed [] u e k = rw u (rw e refl)
    blank_framed (l ∷ ls) u e k = cc k

    fate-Keeps : (fate : LineFate) → Fated lines line fate → Keeps lines buf more (then_scan fate)
    fate-Keeps bad u = framed ∙ rw u refl
    fate-Keeps blank (u, e, k) =
        let none_yet : size ≡ 0 = z k in
        Keeps-trans lines lines buf r more _ (framed ∙ blank_framed lines u e k) (omega arith)
          (ih lines size z (rw none_yet (rw e at fitted)))
    fate-Keeps closes (u, e, k) = (framed ∙ rw u (rw e (rw k refl)), rw e at fitted, shorter)
    fate-Keeps pushed (u, e) =
        Keeps-trans lines (lines ++ line ∷ []) buf r more _ (framed ∙ rw u (rw e refl))
          (omega arith)
          (ih (lines ++ line ∷ []) (size + length line)
            (λ t. absurd (ground (arith, t, is_empty-append lines line))) (rw e at fitted))

  scan-none :
      (fuel : ℕ) (lines : List Bytes) (size scanned : ℕ) (buf : Bytes)
      → next_line scanned buf ≡ none
      → scan is_utf8 cap (suc fuel) lines size scanned buf ≡ partial lines size buf
  unfolding scan
  scan-none fuel lines size scanned buf e = rw (e, scan) refl

  pub scan-some :
      (fuel : ℕ) (lines : List Bytes) (size scanned : ℕ) (buf l r : Bytes)
      → next_line scanned buf ≡ some (l, r)
      → scan is_utf8 cap (suc fuel) lines size scanned buf
        ≡ elim (line_fate is_utf8 cap lines size (trim_cr l)) [
          | bad ↦ fault
          | blank ↦ scan is_utf8 cap fuel lines size 0 r
          | closes ↦ event (parse_event lines) r
          | pushed ↦ scan is_utf8 cap fuel (lines ++ trim_cr l ∷ []) (size + length (trim_cr l)) 0 r
        ]
  unfolding scan
  scan-some fuel lines size scanned buf l r e = rw (e, scan) refl

  -- The scan is right if it has a pass for each byte, and what was scanned holds no newline.
  pub scan-Keeps :
      (fuel : ℕ) (lines : List Bytes) (size scanned : ℕ) (buf more : Bytes)
      → length buf < fuel
      → plain (take scanned buf) ≡ true
      → Zero lines size
      → fits cap size [] (buf ++ more) ≡ true
      → Keeps lines buf more (scan is_utf8 cap fuel lines size scanned buf)
  scan-Keeps zero lines size scanned buf more l p z f = absurd (omega arith)
  scan-Keeps (suc fuel) lines size scanned buf more l p z f =
      let looked : next_line scanned buf ≡ split_once newline buf =
        next_line-split_once scanned buf p in
      elim (Option-cases (split_once newline buf)) [
        | inl e ↦
            subst (Keeps lines buf more) (sym (scan-none fuel lines size scanned buf (looked ∙ e)))
              (refl, f, split_once-none buf e, omega arith, z)
        | inr ((a, r), e) ↦
            let (q, cut) = split_once-some buf a r e in
            let whole : buf ++ more ≡ a ++ newline ∷ (r ++ more) =
              ap (λ (b : Bytes). b ++ more) cut ∙ append_assoc a (newline ∷ r) more in
            let (within, fitted) = fits-line cap size [] a (r ++ more) q (rw whole at f) in
            let size_of : length buf ≡ length a + length (newline ∷ r) =
              ap length cut ∙ length-append a (newline ∷ r) in
            let fated : Fated lines (trim_cr a) (line_fate is_utf8 cap lines size (trim_cr a)) =
              line_fate-Fated lines size (trim_cr a) (ground (arith, within, trim_cr-length a)) in
            subst (Keeps lines buf more)
              (sym (scan-some fuel lines size scanned buf a r (looked ∙ e)))
              (fate-Keeps lines size buf more (trim_cr a) r fuel z (omega arith)
                (ap (frames is_utf8 broke lines []) whole
                  ∙ frames-line is_utf8 broke lines [] a (r ++ more) q)
                fitted (λ ls n zn fn. scan-Keeps fuel ls n 0 r more (omega arith) refl zn fn)
                (line_fate is_utf8 cap lines size (trim_cr a)) fated)
      ]
