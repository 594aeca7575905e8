-- ===== src/Sse/Chunks.antt =====
-- However a response is cut into chunks, the tokenizer gives its frames.
use sandbx.Common.{
  ℕ, zero, suc, ◌+◌, ◌≤◌, ◌<◌, Bool, true, false, ltb, List, [], ◌∷◌, ◌++◌, Option, none, some,
  Bytes, if◌then◌else◌, length, ◌≡◌, ◌⊎◌, refl, sym, ap, ◌∙◌, arith, subst, Option-cases, inl, inr,
  length-append,
}
use mathlib.Core.List.{append_assoc, append-nil}
use sandbx.Sse.{
  Item, err, transport, Chunk, bytes, broken, TokenizerState, newline, parse_event, trim_cr, take,
  next_line, Scanned, event, fault, partial, LineFate, bad, blank, closes, pushed, line_fate, scan,
  scan_all, drain_last, terminated, pull, next_event, tokenize_from, tokenize,
}
use sandbx.Sse.Frames.{total, breaks, open_event, after_line, frames, fits}
use sandbx.Sse.Lines.{
  plain, next_line-split_once, trim_cr-length, frames-tail, fits-tail, split_once-behind,
}
use sandbx.Sse.Scan.{Keeps, Fated, line_fate-Fated, scan-Keeps, scan-some}

take-length : (s t : Bytes) → take (length s) (s ++ t) ≡ s
take-length [] t = refl
take-length (c ∷ cs) t = ap (◌∷◌ c) (take-length cs t)

module _ (is_utf8 : Bytes → Bool) (cap : ℕ) where
  -- What a tokenizer has still to give, and how many bytes it has.
  abbrev rest_of : TokenizerState → List Item
  rest_of t =
      if t.done then [] else frames is_utf8 (breaks t.chunks) [] [] (t.buf ++ total t.chunks)

  abbrev held : TokenizerState → ℕ
  held t = length t.buf + length (total t.chunks)

  abbrev Ready : ℕ → TokenizerState → Type 0
  Ready m t =
      (t.done ≡ true)
      ⊎ ((t.done ≡ false)
          × (t.scanned ≡ 0)
          × (fits cap 0 [] (t.buf ++ total t.chunks) ≡ true)
          × (held t < m))

  -- An item is the first of the frames, and the state it comes with has the others.
  abbrev Pulled : List Item → ℕ → Option (Item × TokenizerState) → Type 0
  Pulled fs m none = fs ≡ []
  Pulled fs m (some (i, t)) = (fs ≡ i ∷ rest_of t) × Ready m t

  Ready-mono : (m m' : ℕ) (t : TokenizerState) → m ≤ m' → Ready m t → Ready m' t
  Ready-mono m m' t l (inl d) = inl d
  Ready-mono m m' t l (inr (d, s, f, h)) = inr (d, s, f, omega arith)

  Pulled-trans :
      (fs fs' : List Item) (m m' : ℕ) (r : Option (Item × TokenizerState))
      → fs' ≡ fs
      → m ≤ m'
      → Pulled fs m r
      → Pulled fs' m' r
  Pulled-trans fs fs' m m' none e l p = e ∙ p
  Pulled-trans fs fs' m m' (some (i, t)) e l (p, q) = (e ∙ p, Ready-mono m m' t l q)

  scan-nil :
      (fuel : ℕ) (lines : List Bytes) (size : ℕ)
      → scan is_utf8 cap fuel lines size 0 [] ≡ partial lines size []
  unfolding scan next_line
  scan-nil zero lines size = refl
  scan-nil (suc fuel) lines size = refl

  -- The end of a stream that did not break, behind the last of its lines.
  drain_nil :
      (lines : List Bytes) (size m : ℕ)
      → size ≤ cap
      → Pulled (open_event is_utf8 false lines) m (drain_last is_utf8 cap (partial lines size []))
  unfolding drain_last
  drain_nil [] size m l = let within : ltb cap (size + 0) ≡ false = ground arith in rw within refl
  drain_nil (k ∷ lines) size m l =
      let within : ltb cap (size + 0) ≡ false = ground arith in rw within (refl, inl refl)

  next_line-terminated :
      (b : Bytes) → plain b ≡ true → next_line (length b) (b ++ newline ∷ []) ≡ some (b, [])
  next_line-terminated b p =
      next_line-split_once (length b) (b ++ newline ∷ []) (rw (take-length b (newline ∷ [])) p)
      ∙ split_once-behind b (newline ∷ []) p
      ∙ ap (λ (s : Bytes). some (s, [])) (append-nil b)

  fate-Pulled :
      (fuel : ℕ) (lines : List Bytes) (size m : ℕ) (line : Bytes) (fate : LineFate)
      → size + length line ≤ cap
      → Fated is_utf8 cap false lines line fate
      → Pulled
          (after_line is_utf8 false lines line
            (open_event is_utf8 false [])
            (open_event is_utf8 false (lines ++ line ∷ [])))
          m
          (drain_last is_utf8 cap (elim fate [
            | bad ↦ fault
            | blank ↦ scan is_utf8 cap fuel lines size 0 []
            | closes ↦ event (parse_event lines) []
            | pushed ↦ scan is_utf8 cap fuel (lines ++ line ∷ []) (size + length line) 0 []
          ]))
  unfolding drain_last
  fate-Pulled fuel lines size m line bad l u = rw u (refl, inl refl)
  fate-Pulled fuel [] size m line blank l (u, e, k) =
      rw (scan-nil fuel [] size) (rw u (rw e (drain_nil [] size m (omega arith))))
  fate-Pulled fuel (x ∷ lines) size m line blank l (u, e, k) = cc k
  fate-Pulled fuel lines size m line closes l (u, e, k) = rw u (rw e (rw k (refl, inl refl)))
  fate-Pulled fuel lines size m line pushed l (u, e) =
      rw (scan-nil fuel (lines ++ line ∷ []) (size + length line))
        (rw u (rw e (drain_nil (lines ++ line ∷ []) (size + length line) m l)))

  last-Pulled :
      (lines : List Bytes) (size m : ℕ) (b : Bytes)
      → plain b ≡ true
      → size + length b ≤ cap
      → Pulled
          (frames is_utf8 false lines b [])
          m
          (drain_last is_utf8 cap (scan_all is_utf8 cap lines size (length b) (terminated b)))
  unfolding frames
  last-Pulled lines size m [] p l =
      rw (scan-nil 1 lines size) (drain_nil lines size m (omega arith))
  last-Pulled lines size m (c ∷ cs) p l =
      let b : Bytes = c ∷ cs in
      let fuel = length (b ++ newline ∷ []) in
      let within : size + length (trim_cr b) ≤ cap = omega (arith, trim_cr-length b) in
      rw
        (scan-some is_utf8 cap false fuel lines size (length b) (b ++ newline ∷ []) b []
          (next_line-terminated b p))
        (fate-Pulled fuel lines size m (trim_cr b) (line_fate is_utf8 cap lines size (trim_cr b))
          within (line_fate-Fated is_utf8 cap false lines size (trim_cr b) (ground arith)))

  within_cap :
      (lines : List Bytes) (size : ℕ) (b more : Bytes)
      → plain b ≡ true
      → fits cap size [] (b ++ more) ≡ true
      → ltb cap (size + length b) ≡ false
  within_cap lines size b more p f =
      let room : size + length b ≤ cap = fits-tail cap size [] b more p f in ground arith

  frames-broke :
      (lines : List Bytes) (b : Bytes) → frames is_utf8 true lines b [] ≡ err transport ∷ []
  unfolding frames
  frames-broke lines [] = refl
  frames-broke lines (c ∷ cs) = refl

  pull-Pulled :
      (r : Scanned) (chunks : List Chunk) (lines : List Bytes) (buf : Bytes)
      → Keeps is_utf8 cap (breaks chunks) lines buf (total chunks) r
      → Pulled
          (frames is_utf8 (breaks chunks) lines [] (buf ++ total chunks))
          (length buf + length (total chunks))
          (pull is_utf8 cap r chunks)
  unfolding pull
  pull-Pulled (event d rest) chunks lines buf (f, t, s) = (f, inr (refl, refl, t, omega arith))
  pull-Pulled fault chunks lines buf k = (k, inl refl)
  pull-Pulled (partial ls n b) [] lines buf (f, t, p, s, z) = rw (within_cap ls n b [] p t) (
      Pulled-trans (frames is_utf8 false ls b []) _ _ _ _
        (f ∙ ap (frames is_utf8 false ls []) (append-nil b) ∙ frames-tail is_utf8 false ls [] b p)
        (omega arith) (last-Pulled ls n 0 b p (fits-tail cap n [] b [] p t)))
  pull-Pulled (partial ls n b) (broken ∷ chunks) lines buf (f, t, p, s, z) =
      rw (within_cap ls n b [] p t) (
        f
            ∙ ap (frames is_utf8 true ls []) (append-nil b)
            ∙ frames-tail is_utf8 true ls [] b p
            ∙ frames-broke ls b,
        inl refl,
      )
  pull-Pulled (partial ls n b) (bytes c ∷ chunks) lines buf (f, t, p, s, z) =
      let joined : (b ++ c) ++ total chunks ≡ b ++ (c ++ total chunks) =
        append_assoc b c (total chunks) in
      let fitting : fits cap n [] ((b ++ c) ++ total chunks) ≡ true = rw joined t in
      let scanned : plain (take (length b) (b ++ c)) ≡ true = rw (take-length b c) p in
      rw (within_cap ls n b (c ++ total chunks) p t) (
        Pulled-trans (frames is_utf8 (breaks chunks) ls [] ((b ++ c) ++ total chunks)) _ _ _ _
          (f ∙ ap (frames is_utf8 (breaks chunks) ls []) (sym joined))
          (omega (arith, length-append b c, length-append c (total chunks)))
          (pull-Pulled (scan_all is_utf8 cap ls n (length b) (b ++ c)) chunks ls (b ++ c) (
            scan-Keeps is_utf8 cap (breaks chunks) (suc (length (b ++ c))) ls n (length b) (b ++ c)
              (total chunks) (omega arith) scanned z fitting)))

  next_event-Pulled :
      (t : TokenizerState) (m : ℕ)
      → Ready m t
      → Pulled (rest_of t) (held t) (next_event is_utf8 cap t)
  unfolding next_event
  next_event-Pulled t m (inl d) = rw d refl
  next_event-Pulled t m (inr (d, s, f, h)) = rw d (
      rw s (
        pull-Pulled (scan_all is_utf8 cap [] 0 0 t.buf) t.chunks [] t.buf (
          scan-Keeps is_utf8 cap (breaks t.chunks) (suc (length t.buf)) [] 0 0 t.buf
            (total t.chunks) (omega arith) refl (λ e. refl) f)))

  tokenize_from-none :
      (k : ℕ) (t : TokenizerState)
      → next_event is_utf8 cap t ≡ none
      → tokenize_from is_utf8 cap (suc k) t ≡ []
  unfolding tokenize_from
  tokenize_from-none k t e = rw (e, tokenize_from) refl

  tokenize_from-some :
      (k : ℕ) (t t' : TokenizerState) (i : Item)
      → next_event is_utf8 cap t ≡ some (i, t')
      → tokenize_from is_utf8 cap (suc k) t ≡ i ∷ tokenize_from is_utf8 cap k t'
  unfolding tokenize_from
  tokenize_from-some k t t' i e = rw (e, tokenize_from) refl

  next_event-done : (t : TokenizerState) → t.done ≡ true → next_event is_utf8 cap t ≡ none
  unfolding next_event
  next_event-done t d = rw d refl

  tokenize_from-rest :
      (k m : ℕ) (t : TokenizerState) → Ready m t → m ≤ k → tokenize_from is_utf8 cap k t ≡ rest_of t
  unfolding tokenize_from
  tokenize_from-rest zero m t (inl d) l = rw d refl
  tokenize_from-rest zero m t (inr (d, s, f, h)) l = absurd (omega arith)
  tokenize_from-rest (suc k) m t (inl d) l =
      tokenize_from-none k t (next_event-done t d) ∙ rw d refl
  tokenize_from-rest (suc k) m t (inr (d, s, f, h)) l =
      let r : Ready m t = inr (d, s, f, h) in
      elim (Option-cases (next_event is_utf8 cap t)) [
        | inl e ↦
            let pulled : Pulled (rest_of t) (held t) none =
              subst (Pulled (rest_of t) (held t)) e (next_event-Pulled t m r) in
            tokenize_from-none k t e ∙ sym pulled
        | inr ((i, t'), e) ↦
            let pulled : Pulled (rest_of t) (held t) (some (i, t')) =
              subst (Pulled (rest_of t) (held t)) e (next_event-Pulled t m r) in
            tokenize_from-some k t t' i e
            ∙ ap (◌∷◌ i) (tokenize_from-rest k (held t) t' pulled.1 (omega arith))
            ∙ sym pulled.0
      ]

  -- Where no event of a response takes more than `cap` bytes, polling its tokenizer more often than it
  -- has bytes gives its frames, byte by byte, and then nothing: they do not depend on how the response
  -- was cut into chunks, and a response that breaks ends in the one transport error.
  pub tokenize-frames :
      (polls : ℕ) (chunks : List Chunk)
      → length (total chunks) < polls
      → fits cap 0 [] (total chunks) ≡ true
      → tokenize is_utf8 cap polls chunks ≡ frames is_utf8 (breaks chunks) [] [] (total chunks)
  unfolding tokenize
  tokenize-frames polls chunks l f =
      tokenize_from-rest polls polls
        (record { chunks = chunks; buf = []; scanned = 0; done = false })
        (inr (refl, refl, f, omega arith)) (omega arith)
