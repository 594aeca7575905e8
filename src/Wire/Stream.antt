-- ===== src/Wire/Stream.antt =====
-- `event_stream`: the frames drained through the state, one item at a time as `unfold` asks for them,
-- and all at once.
use sandbx.Common.{
  Bool, true, false, List, [], ◌∷◌, ◌++◌, ◌≡◌, refl, ap, Option, none, some, if◌then◌else◌, Entries,
  if_elim,
}
use mathlib.Core.List.{append-nil}
use sandbx.Event.{StopReason}
use sandbx.Wire.{
  RawUsage, Serde, OpenBlock, Item, Raw, WireState, no_usage, take_raw, run_out, push_usage,
  reported,
}

module _ {Json : Type 0} (serde : Serde Json) where
  abbrev pub Next : Type 0
  Next = Option (Item Json × List Raw × WireState Json)

  abbrev popped : List (Item Json) → List Raw → WireState Json → Next → Next
  popped [] raws s otherwise = otherwise
  popped (item ∷ rest) raws s otherwise = some (item, raws, record s { pending = rest })

  -- One call of `next_agent_event`.
  unfoldable pub next_agent_event : List Raw → WireState Json → Next
  next_agent_event [] s =
      let t = run_out serde s in
      popped s.pending [] s (if s.ended then none else popped t.pending [] t none)
  next_agent_event (raw ∷ raws) s =
      let rest = next_agent_event raws (take_raw serde raw s) in
      popped s.pending (raw ∷ raws) s (if s.ended then none else rest)

  abbrev pub cleared : WireState Json → WireState Json
  cleared s = record s { pending = [] }

  -- What the calls give until the first `None`.
  unfoldable pub drained : List Raw → WireState Json → List (Item Json)
  drained [] s = s.pending ++ (if s.ended then [] else (run_out serde (cleared s)).pending)
  drained (raw ∷ raws) s =
      let rest = drained raws (take_raw serde raw (cleared s)) in
      s.pending ++ (if s.ended then [] else rest)

  abbrev pub fresh : WireState Json
  fresh = record { blocks = []; usage = no_usage; stop_reason = none; pending = []; ended = false }

  unfoldable pub event_stream : List Raw → List (Item Json)
  event_stream raws = drained raws fresh

  abbrev pub unfolded : Next → List (Item Json)
  unfolded none = []
  unfolded (some (item, raws, s)) = item ∷ drained raws s

  pub push_usage-ended : (s : WireState Json) → (push_usage serde s).ended ≡ s.ended
  unfolding push_usage
  push_usage-ended s =
      if_elim (λ (t : WireState Json). t.ended ≡ s.ended) (reported s.usage) _ _ (λ _. refl)
        (λ _. refl)

  popped_ended :
      (xs : List (Item Json)) (t : WireState Json)
      → t.ended ≡ true
      → unfolded (popped xs [] t none) ≡ xs
  unfolding drained
  popped_ended [] t e = refl
  popped_ended (x ∷ xs) t e = ap (◌∷◌ x) (rw e (append-nil xs))

  unfolded_fields :
      (raws : List Raw) (b : Entries OpenBlock) (u : RawUsage) (r : Option StopReason)
      (p : List (Item Json)) (e : Bool)
      → let s : WireState Json = record {
        blocks = b;
        usage = u;
        stop_reason = r;
        pending = p;
        ended = e;
      } in
        unfolded (next_agent_event raws s) ≡ drained raws s
  unfolding next_agent_event drained
  unfolded_fields [] b u r (item ∷ p) e = refl
  unfolded_fields (raw ∷ raws) b u r (item ∷ p) e = refl
  unfolded_fields [] b u r [] true = refl
  unfolded_fields (raw ∷ raws) b u r [] true = refl
  unfolded_fields [] b u r [] false = popped_ended _ _ (
      push_usage-ended
        (record { blocks = b; usage = u; stop_reason = r; pending = []; ended = true }))
  unfolded_fields (raw ∷ raws) b u r [] false =
      let t =
        take_raw serde raw
          (record { blocks = b; usage = u; stop_reason = r; pending = []; ended = false }) in
      unfolded_fields raws t.blocks t.usage t.stop_reason t.pending t.ended

  -- A call gives the first of what is drained, and leaves the rest to be drained.
  pub unfolded-next_agent_event :
      (raws : List Raw) (s : WireState Json) → unfolded (next_agent_event raws s) ≡ drained raws s
  unfolded-next_agent_event raws s =
      unfolded_fields raws s.blocks s.usage s.stop_reason s.pending s.ended
