-- ===== src/Turn/Accumulate/Content.antt =====
-- What a drained stream leaves in the blocks of its round.
use sandbx.Common.{
  ℕ, List, [], ◌∷◌, ◌++◌, ◌≡◌, refl, sym, ap, ◌∙◌, Option, none, some, Bytes, arith,
}
use mathlib.Core.List.{append-nil, append_assoc}
use sandbx.Compact.{PromptUsage}
use sandbx.Event.{
  text, thinking, thinking_block, redacted_thinking, tool_call_requested, usage, stop,
}
use sandbx.Prompt.{ContentBlock}
use sandbx.Prompt.Conversation.{call_ids, result_ids, call_ids-append, result_ids-append}
use sandbx.Turn.{Poll, event, failure, elapsed, World, Await, ready, failed}
use sandbx.Turn.Accumulate.{Round, Draft, empty_draft, flush, flush_push, accumulate}

module _ {Json : Type 0} where
  -- The prose of the blocks, in order.
  abbrev pub prose : List (ContentBlock Json) → Bytes
  prose [] = []
  prose (ContentBlock.text t ∷ bs) = t ++ prose bs
  prose (_ ∷ bs) = prose bs

  -- The text that arrives before the stop event.
  abbrev pub deltas : List (Poll Json) → Bytes
  deltas (event (text t) ∷ ps) = t ++ deltas ps
  deltas (event (stop _) ∷ ps) = []
  deltas (event _ ∷ ps) = deltas ps
  deltas _ = []

  -- The ids of the calls that arrive before the stop event.
  abbrev pub requested : List (Poll Json) → List Bytes
  requested (event (tool_call_requested id _ _) ∷ ps) = id ∷ requested ps
  requested (event (stop _) ∷ ps) = []
  requested (event _ ∷ ps) = requested ps
  requested _ = []

  -- The last counts reported before the stop event, or those held.
  abbrev pub last_usage : Option PromptUsage → List (Poll Json) → Option PromptUsage
  last_usage u (event (usage input output cache_write cache_read) ∷ ps) =
      last_usage
        (some (record {
          input_tokens = input;
          cache_read_tokens = cache_read;
          cache_write_tokens = cache_write;
        }))
        ps
  last_usage u (event (stop _) ∷ ps) = u
  last_usage u (event _ ∷ ps) = last_usage u ps
  last_usage u _ = u

  prose-append : (xs ys : List (ContentBlock Json)) → prose (xs ++ ys) ≡ prose xs ++ prose ys
  prose-append [] ys = refl
  prose-append (ContentBlock.text t ∷ xs) ys =
      ap (◌++◌ t) (prose-append xs ys) ∙ sym (append_assoc t (prose xs) (prose ys))
  prose-append (_ ∷ xs) ys = prose-append xs ys

  abbrev Flushed : Draft Json → Draft Json → Type 0
  Flushed d f =
      (prose f.blocks ≡ prose d.blocks ++ d.pending)
      × (f.pending ≡ [])
      × (call_ids f.blocks ≡ call_ids d.blocks)
      × (result_ids f.blocks ≡ result_ids d.blocks)
      × (f.usage ≡ d.usage)

  flush-Flushed : (d : Draft Json) → Flushed d (flush d)
  flush-Flushed d = ground (
    arith,
    append-nil (prose d.blocks),
    append-nil d.pending,
    append-nil (call_ids d.blocks),
    append-nil (result_ids d.blocks),
    prose-append d.blocks (ContentBlock.text d.pending ∷ []),
    call_ids-append d.blocks (ContentBlock.text d.pending ∷ []),
    result_ids-append d.blocks (ContentBlock.text d.pending ∷ []),
  )

  -- A block that is neither prose nor a result, pushed behind what was pending.
  push-prose :
      (d : Draft Json) (b : ContentBlock Json) (rest : Bytes)
      → prose (b ∷ []) ≡ []
      → prose (flush_push d b).blocks ++ ((flush_push d b).pending ++ rest)
        ≡ prose d.blocks ++ (d.pending ++ rest)
  push-prose d b rest e =
      let f = flush-Flushed d in
      rw (prose-append (flush d).blocks (b ∷ []), e, f.0, f.1) (simp (append-nil, append_assoc))

  push-calls :
      (d : Draft Json) (b : ContentBlock Json) (rest : List Bytes)
      → call_ids (flush_push d b).blocks ++ rest ≡ call_ids d.blocks ++ (call_ids (b ∷ []) ++ rest)
  push-calls d b rest =
      let f = flush-Flushed d in
      rw (call_ids-append (flush d).blocks (b ∷ []), f.2) (append_assoc (call_ids d.blocks) _ rest)

  push-results :
      (d : Draft Json) (b : ContentBlock Json)
      → result_ids (b ∷ []) ≡ []
      → result_ids (flush_push d b).blocks ≡ result_ids d.blocks
  push-results d b e =
      let f = flush-Flushed d in
      rw (result_ids-append (flush d).blocks (b ∷ []), e, f.3) (append-nil (result_ids d.blocks))

  module _ {State : Type 0} where
    abbrev Comes :
        Bytes → List Bytes → List Bytes → Option PromptUsage → Await (Round Json) State → Type 0
    Comes p c q u (ready r s) =
        (prose r.blocks ≡ p) × (call_ids r.blocks ≡ c) × (result_ids r.blocks ≡ q) × (r.usage ≡ u)
    Comes p c q u (failed e s) = Unit {0}
    Comes p c q u (Await.stopped s) = Unit {0}

    abbrev Content : Draft Json → List (Poll Json) → Await (Round Json) State → Type 0
    Content d ps =
        Comes (prose d.blocks ++ (d.pending ++ deltas ps)) (call_ids d.blocks ++ requested ps)
          (result_ids d.blocks) (last_usage d.usage ps)

    retarget :
        (p p' : Bytes) (c c' q q' : List Bytes) (u u' : Option PromptUsage)
        (r : Await (Round Json) State)
        → p ≡ p'
        → c ≡ c'
        → q ≡ q'
        → u ≡ u'
        → Comes p c q u r
        → Comes p' c' q' u' r
    retarget p p' c c' q q' u u' (ready r s) a b e f h = (h.0 ∙ a, h.1 ∙ b, h.2 ∙ e, h.3 ∙ f)
    retarget p p' c c' q q' u u' (failed x s) a b e f h = tt
    retarget p p' c c' q q' u u' (Await.stopped s) a b e f h = tt

    -- The case of a block that is pushed.
    pushed :
        (d : Draft Json) (b : ContentBlock Json) (ps : List (Poll Json))
        (r : Await (Round Json) State)
        → prose (b ∷ []) ≡ []
        → result_ids (b ∷ []) ≡ []
        → Content (flush_push d b) ps r
        → Comes
            (prose d.blocks ++ (d.pending ++ deltas ps))
            (call_ids d.blocks ++ (call_ids (b ∷ []) ++ requested ps))
            (result_ids d.blocks)
            (last_usage d.usage ps)
            r
    pushed d b ps r e f h =
        retarget _ _ _ _ _ _ _ _ r (push-prose d b (deltas ps) e) (push-calls d b (requested ps))
          (push-results d b f) (ap (λ u. last_usage u ps) (flush-Flushed d).4) h

  module _ (w : World Json) (t : ℕ) where
    accumulate-Content :
        (ps : List (Poll Json)) (d : Draft Json) (s : w.State)
        → Content d ps (accumulate w t ps d s)
    unfolding accumulate
    accumulate-Content [] d s = tt
    accumulate-Content (failure e ∷ ps) d s = tt
    accumulate-Content (elapsed ∷ ps) d s = tt
    accumulate-Content (Poll.stopped ∷ ps) d s = tt
    accumulate-Content (event (text x) ∷ ps) d s =
        retarget _ _ _ _ _ _ _ _ (accumulate w t ps (record d { pending = d.pending ++ x }) _)
          (ap (◌++◌ (prose d.blocks)) (append_assoc d.pending x (deltas ps))) refl refl refl
          (accumulate-Content ps (record d { pending = d.pending ++ x }) _)
    accumulate-Content (event (thinking x) ∷ ps) d s = accumulate-Content ps d _
    accumulate-Content (event (thinking_block x sig) ∷ ps) d s =
        let b = ContentBlock.thinking x sig in
        pushed d b ps (accumulate w t ps (flush_push d b) _) refl refl
          (accumulate-Content ps (flush_push d b) _)
    accumulate-Content (event (redacted_thinking x) ∷ ps) d s =
        let b = ContentBlock.redacted_thinking x in
        pushed d b ps (accumulate w t ps (flush_push d b) _) refl refl
          (accumulate-Content ps (flush_push d b) _)
    accumulate-Content (event (tool_call_requested id n input) ∷ ps) d s =
        let b = ContentBlock.tool_use id n input in
        pushed d b ps (accumulate w t ps (flush_push d b) _) refl refl
          (accumulate-Content ps (flush_push d b) _)
    accumulate-Content (event (usage i o cw cr) ∷ ps) d s = accumulate-Content ps _ _
    accumulate-Content (event (stop r) ∷ ps) d s =
        let f = flush-Flushed d in
        (
          f.0 ∙ ap (◌++◌ (prose d.blocks)) (sym (append-nil d.pending)),
          f.2 ∙ sym (append-nil _),
          f.3,
          f.4,
        )

    -- A round that streamed to its stop holds all the text that came before the stop and all the
    -- calls, each in the order that it came in, and no result, with the last counts reported.
    pub accumulate-content :
        (ps : List (Poll Json)) (s s' : w.State) (r : Round Json)
        → accumulate w t ps empty_draft s ≡ ready r s'
        → (prose r.blocks ≡ deltas ps)
          × (call_ids r.blocks ≡ requested ps)
          × (result_ids r.blocks ≡ [])
          × (r.usage ≡ last_usage none ps)
    accumulate-content ps s s' r e = rw e at (accumulate-Content ps empty_draft s)
