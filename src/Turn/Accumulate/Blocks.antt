-- ===== src/Turn/Accumulate/Blocks.antt =====
-- The blocks of a round, as the events of its stream describe them.
use sandbx.Common.{ℕ, List, [], ◌∷◌, ◌++◌, ◌≡◌, refl, sym, ap, ◌∙◌, Option, none, some, Bytes}
use mathlib.Core.List.{append-nil, append_assoc}
use sandbx.Compact.{PromptUsage}
use sandbx.Event.{
  AgentEvent, StopReason, text, thinking, thinking_block, redacted_thinking, tool_call_requested,
  usage, stop,
}
use sandbx.Prompt.{ContentBlock}
use sandbx.Turn.{Poll, event, failure, elapsed, World, Await, ready, failed}
use sandbx.Turn.Accumulate.{Round, Draft, empty_draft, flush, flush_push, accumulate}
use sandbx.Turn.Accumulate.Content.{last_usage}

module _ {Json : Type 0} where
  -- Text in front of blocks is one block with text that they open on, and none if it is empty.
  abbrev pub joined : Bytes → List (ContentBlock Json) → List (ContentBlock Json)
  joined [] bs = bs
  joined (c ∷ t) (ContentBlock.text u ∷ bs) = ContentBlock.text ((c ∷ t) ++ u) ∷ bs
  joined (c ∷ t) bs = ContentBlock.text (c ∷ t) ∷ bs

  -- The blocks that the events ahead of the stop stand for: a run of text is one of them, and a call
  -- or a thought is one, with all that it came with.
  abbrev pub described : List (Poll Json) → List (ContentBlock Json)
  described (event (text t) ∷ ps) = joined t (described ps)
  described (event (tool_call_requested id name input) ∷ ps) =
      ContentBlock.tool_use id name input ∷ described ps
  described (event (thinking_block t signature) ∷ ps) =
      ContentBlock.thinking t signature ∷ described ps
  described (event (redacted_thinking blob) ∷ ps) =
      ContentBlock.redacted_thinking blob ∷ described ps
  described (event (stop _) ∷ ps) = []
  described (event _ ∷ ps) = described ps
  described _ = []

  -- The reason of the first stop.
  abbrev pub reason_of : List (Poll Json) → Option StopReason
  reason_of (event (stop r) ∷ ps) = some r
  reason_of (event _ ∷ ps) = reason_of ps
  reason_of _ = none

  -- The events up to the first stop, which is the last.
  abbrev pub heard : List (Poll Json) → List (AgentEvent Json)
  heard (event (stop r) ∷ ps) = stop r ∷ []
  heard (event e ∷ ps) = e ∷ heard ps
  heard _ = []

  joined-append :
      (t u : Bytes) (bs : List (ContentBlock Json)) → joined (t ++ u) bs ≡ joined t (joined u bs)
  joined-append [] u bs = refl
  joined-append (c ∷ t) [] [] = rw (append-nil t) refl
  joined-append (c ∷ t) [] (ContentBlock.text v ∷ bs) = rw (append-nil t) refl
  joined-append (c ∷ t) [] (ContentBlock.thinking v s ∷ bs) = rw (append-nil t) refl
  joined-append (c ∷ t) [] (ContentBlock.redacted_thinking v ∷ bs) = rw (append-nil t) refl
  joined-append (c ∷ t) [] (ContentBlock.tool_use i n v ∷ bs) = rw (append-nil t) refl
  joined-append (c ∷ t) [] (ContentBlock.tool_result i n v ∷ bs) = rw (append-nil t) refl
  joined-append (c ∷ t) (d ∷ u) [] = refl
  joined-append (c ∷ t) (d ∷ u) (ContentBlock.text v ∷ bs) =
      ap (λ x. ContentBlock.text (c ∷ x) ∷ bs) (append_assoc t (d ∷ u) v)
  joined-append (c ∷ t) (d ∷ u) (ContentBlock.thinking v s ∷ bs) = refl
  joined-append (c ∷ t) (d ∷ u) (ContentBlock.redacted_thinking v ∷ bs) = refl
  joined-append (c ∷ t) (d ∷ u) (ContentBlock.tool_use i n v ∷ bs) = refl
  joined-append (c ∷ t) (d ∷ u) (ContentBlock.tool_result i n v ∷ bs) = refl

  -- What a draft comes to, with these blocks behind it.
  abbrev rest_of : Draft Json → List (ContentBlock Json) → List (ContentBlock Json)
  rest_of d bs = d.blocks ++ joined d.pending bs

  module _ {State : Type 0} (observe : AgentEvent Json → State → State) where
    abbrev pub observed : List (AgentEvent Json) → State → State
    observed [] s = s
    observed (e ∷ es) s = observed es (observe e s)

    -- A round that is made is made of these.
    abbrev Made :
        List (ContentBlock Json)
        → Option PromptUsage
        → Option StopReason
        → State
        → Await (Round Json) State
        → Type 0
    Made bs u o t (ready r s) = (r.blocks ≡ bs) × (r.usage ≡ u) × (some r.reason ≡ o) × (s ≡ t)
    Made bs u o t (failed e s) = Unit {0}
    Made bs u o t (Await.stopped s) = Unit {0}

    abbrev Builds : Draft Json → List (Poll Json) → State → Await (Round Json) State → Type 0
    Builds d ps s =
        Made (rest_of d (described ps)) (last_usage d.usage ps) (reason_of ps)
          (observed (heard ps) s)

    remade :
        (bs cs : List (ContentBlock Json)) (u v : Option PromptUsage) (o : Option StopReason)
        (t : State) (r : Await (Round Json) State)
        → bs ≡ cs
        → u ≡ v
        → Made bs u o t r
        → Made cs v o t r
    remade bs cs u v o t (ready r s) e f h = (h.0 ∙ e, h.1 ∙ f, h.2, h.3)
    remade bs cs u v o t (failed x s) e f h = tt
    remade bs cs u v o t (Await.stopped s) e f h = tt

  pushed_behind :
      (d : Draft Json) (pending : Bytes) (b : ContentBlock Json) (bs : List (ContentBlock Json))
      → ((c : ℕ) (t : Bytes) → joined (c ∷ t) (b ∷ bs) ≡ ContentBlock.text (c ∷ t) ∷ b ∷ bs)
      → rest_of (flush_push (record d { pending = pending }) b) bs
        ≡ d.blocks ++ joined pending (b ∷ bs)
  pushed_behind d [] b bs apart = append_assoc d.blocks (b ∷ []) bs
  pushed_behind d (c ∷ t) b bs apart =
      append_assoc (d.blocks ++ ContentBlock.text (c ∷ t) ∷ []) (b ∷ []) bs
      ∙ append_assoc d.blocks (ContentBlock.text (c ∷ t) ∷ []) (b ∷ bs)
      ∙ ap (◌++◌ d.blocks) (sym (apart c t))

  flushed :
      (d : Draft Json) (pending : Bytes)
      → (flush (record d { pending = pending })).blocks ≡ d.blocks ++ joined pending []
  flushed d [] = sym (append-nil d.blocks)
  flushed d (c ∷ t) = refl

  flush-usage :
      (d : Draft Json) (pending : Bytes) → (flush (record d { pending = pending })).usage ≡ d.usage
  flush-usage d [] = refl
  flush-usage d (c ∷ t) = refl

  module _ (w : World Json) (stream_timeout : ℕ) where
    Builds-behind :
        (d : Draft Json) (b : ContentBlock Json) (ps : List (Poll Json)) (s : w.State)
        (r : Await (Round Json) w.State)
        → ((c : ℕ) (t : Bytes)
            → joined (c ∷ t) (b ∷ described ps) ≡ ContentBlock.text (c ∷ t) ∷ b ∷ described ps)
        → Builds w.observe (flush_push d b) ps s r
        → Made w.observe
            (rest_of d (b ∷ described ps))
            (last_usage d.usage ps)
            (reason_of ps)
            (observed w.observe (heard ps) s)
            r
    Builds-behind d b ps s r apart h =
        remade w.observe _ _ _ _ _ _ r (pushed_behind d d.pending b (described ps) apart)
          (ap (λ u. last_usage u ps) (flush-usage d d.pending)) h

    accumulate-Builds :
        (ps : List (Poll Json)) (d : Draft Json) (s : w.State)
        → Builds w.observe d ps s (accumulate w stream_timeout ps d s)
    unfolding accumulate
    accumulate-Builds [] d s = tt
    accumulate-Builds (failure e ∷ ps) d s = tt
    accumulate-Builds (elapsed ∷ ps) d s = tt
    accumulate-Builds (Poll.stopped ∷ ps) d s = tt
    accumulate-Builds (event (text x) ∷ ps) d s =
        let d' : Draft Json = record d { pending = d.pending ++ x } in
        let s' = w.observe (text x) s in
        remade w.observe _ _ _ _ _ _ (accumulate w stream_timeout ps d' s')
          (ap (◌++◌ d.blocks) (joined-append d.pending x (described ps))) refl
          (accumulate-Builds ps d' s')
    accumulate-Builds (event (thinking x) ∷ ps) d s = accumulate-Builds ps d _
    accumulate-Builds (event (thinking_block x g) ∷ ps) d s =
        let b = ContentBlock.thinking x g in
        Builds-behind d b ps _ (accumulate w stream_timeout ps (flush_push d b) _) (λ c t. refl)
          (accumulate-Builds ps (flush_push d b) _)
    accumulate-Builds (event (redacted_thinking x) ∷ ps) d s =
        let b = ContentBlock.redacted_thinking x in
        Builds-behind d b ps _ (accumulate w stream_timeout ps (flush_push d b) _) (λ c t. refl)
          (accumulate-Builds ps (flush_push d b) _)
    accumulate-Builds (event (tool_call_requested id n input) ∷ ps) d s =
        let b = ContentBlock.tool_use id n input in
        Builds-behind d b ps _ (accumulate w stream_timeout ps (flush_push d b) _) (λ c t. refl)
          (accumulate-Builds ps (flush_push d b) _)
    accumulate-Builds (event (usage i o cw cr) ∷ ps) d s = accumulate-Builds ps _ _
    accumulate-Builds (event (stop r) ∷ ps) d s =
        (flushed d d.pending, flush-usage d d.pending, refl, refl)

    -- A round that streamed to its stop holds exactly the blocks that the events ahead of the stop
    -- stand for, in their order: every call with its id, name and input, every thought with its
    -- signature, and each run of text between them as one block, in its place. It has the counts
    -- reported last and the reason of the stop, and every event up to the stop was observed, once
    -- and in order.
    pub accumulate-described :
        (ps : List (Poll Json)) (s s' : w.State) (r : Round Json)
        → accumulate w stream_timeout ps empty_draft s ≡ ready r s'
        → (r.blocks ≡ described ps)
          × (r.usage ≡ last_usage none ps)
          × (some r.reason ≡ reason_of ps)
          × (s' ≡ observed w.observe (heard ps) s)
    accumulate-described ps s s' r e = rw e at (accumulate-Builds ps empty_draft s)
