-- ===== src/Wire/Round.antt =====
-- The stream of a client, as the turn loop polls it, accumulated into a round.
use sandbx.Common.{
  any, not, Bool, false, ℕ, true, List, [], ◌∷◌, ◌++◌, ◌≡◌, refl, sym, ap, map, ◌∙◌, arith,
}
use sandbx.Event.{
  StopReason, text, thinking, thinking_block, redacted_thinking, tool_call_requested, usage, stop,
}
use sandbx.Turn.{Poll, event, failure, World, Await, ready}
use sandbx.Turn.Accumulate.{Round, Draft, empty_draft, accumulate, absorb}
use sandbx.Turn.Accumulate.Content.{prose, deltas, accumulate-content}
use sandbx.Wire.{Serde, Item, ok, err, Raw}
use sandbx.Wire.Items.{finishes, one_end}
use sandbx.Wire.Ends.{event_stream-finishes}
use sandbx.Wire.Prose.{said, spoken, event_stream-said}
use sandbx.Wire.Stream.{event_stream}

abbrev pub is_ready : {A State : Type 0} → Await A State → Bool
is_ready (ready a s) = true
is_ready _ = false

module _ {Json : Type 0} where
  abbrev pub poll : Item Json → Poll Json
  poll (ok e) = event e
  poll (err e) = failure e

  one_end-finishes : (xs : List (Item Json)) → one_end xs ≡ true → finishes xs ≡ true
  one_end-finishes [] e = cc e
  one_end-finishes (x ∷ []) e = rw e refl
  one_end-finishes (x ∷ y ∷ ys) e = cc e

  nothing_behind :
      (reason : StopReason) (xs : List (Item Json))
      → finishes (ok (stop reason) ∷ xs) ≡ true
      → xs ≡ []
  nothing_behind reason [] e = refl
  nothing_behind reason (x ∷ xs) e = cc e

  abbrev pub is_err : Item Json → Bool
  is_err (ok e) = false
  is_err (err e) = true

  module _ (w : World Json) (stream_timeout : ℕ) where
    deltas-said :
        (xs : List (Item Json)) (d : Draft Json) (s s' : w.State) (r : Round Json)
        → finishes xs ≡ true
        → accumulate w stream_timeout (map poll xs) d s ≡ ready r s'
        → deltas (map poll xs) ≡ said xs
    unfolding accumulate absorb
    deltas-said [] d s s' r f e = cc
    deltas-said (err x ∷ xs) d s s' r f e = cc e
    deltas-said (ok (text t) ∷ xs) d s s' r f e = ap (◌++◌ t) (deltas-said xs _ _ s' r f e)
    deltas-said (ok (thinking t) ∷ xs) d s s' r f e = deltas-said xs _ _ s' r f e
    deltas-said (ok (thinking_block t g) ∷ xs) d s s' r f e = deltas-said xs _ _ s' r f e
    deltas-said (ok (redacted_thinking b) ∷ xs) d s s' r f e = deltas-said xs _ _ s' r f e
    deltas-said (ok (tool_call_requested i n j) ∷ xs) d s s' r f e = deltas-said xs _ _ s' r f e
    deltas-said (ok (usage i o c h) ∷ xs) d s s' r f e =
        deltas-said xs _ _ s' r (one_end-finishes xs (ground arith)) e
    deltas-said (ok (stop reason) ∷ xs) d s s' r f e = sym (ap said (nothing_behind reason xs f))

    accumulate_ready :
        (xs : List (Item Json)) (d : Draft Json) (s : w.State)
        → finishes xs ≡ true
        → is_ready (accumulate w stream_timeout (map poll xs) d s) ≡ not (any is_err xs)
    unfolding accumulate absorb
    accumulate_ready [] d s f = cc
    accumulate_ready (err x ∷ xs) d s f = refl
    accumulate_ready (ok (text t) ∷ xs) d s f = accumulate_ready xs _ _ f
    accumulate_ready (ok (thinking t) ∷ xs) d s f = accumulate_ready xs _ _ f
    accumulate_ready (ok (thinking_block t g) ∷ xs) d s f = accumulate_ready xs _ _ f
    accumulate_ready (ok (redacted_thinking b) ∷ xs) d s f = accumulate_ready xs _ _ f
    accumulate_ready (ok (tool_call_requested i n j) ∷ xs) d s f = accumulate_ready xs _ _ f
    accumulate_ready (ok (usage i o c h) ∷ xs) d s f =
        accumulate_ready xs _ _ (one_end-finishes xs (ground arith))
    accumulate_ready (ok (stop reason) ∷ xs) d s f =
        sym (ap (λ ys. not (any is_err ys)) (nothing_behind reason xs f))

    -- Whatever the frames, the events that a client's stream gives make a round exactly if there is no
    -- error among them: none is lost for want of a stop, and none is made of a broken stream.
    pub accumulate-is_ready :
        (serde : Serde Json) (raws : List Raw) (s : w.State)
        → is_ready (accumulate w stream_timeout (map poll (event_stream serde raws)) empty_draft s)
          ≡ not (any is_err (event_stream serde raws))
    accumulate-is_ready serde raws s =
        accumulate_ready (event_stream serde raws) empty_draft s (event_stream-finishes serde raws)

    -- Where a round is made of the events that a client's stream gives, its prose is the text of the
    -- stream's frames, up to the one that ends it.
    pub accumulate-event_stream :
        (serde : Serde Json) (raws : List Raw) (s s' : w.State) (r : Round Json)
        → accumulate w stream_timeout (map poll (event_stream serde raws)) empty_draft s
          ≡ ready r s'
        → prose r.blocks ≡ spoken serde raws
    accumulate-event_stream serde raws s s' r e =
        (accumulate-content w stream_timeout _ s s' r e).0
        ∙ deltas-said (event_stream serde raws) empty_draft s s' r
            (event_stream-finishes serde raws) e
        ∙ event_stream-said serde raws
