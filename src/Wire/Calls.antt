-- ===== src/Wire/Calls.antt =====
-- `event_stream` as its reader has it: `next_agent_event` called again and again.
use sandbx.Common.{
  ℕ, zero, suc, true, List, [], ◌∷◌, ◌≡◌, refl, ap, ◌∙◌, Option, none, some, length, Option-cases,
  inl, inr,
}
use sandbx.Wire.{Serde, Item, Raw, WireState}
use sandbx.Wire.Items.{finishes}
use sandbx.Wire.Ends.{event_stream-finishes}
use sandbx.Wire.Stream.{next_agent_event, drained, event_stream, fresh, unfolded-next_agent_event}

module _ {Json : Type 0} (serde : Serde Json) where
  abbrev behind : Item Json → Option (List (Item Json)) → Option (List (Item Json))
  behind item none = none
  behind item (some items) = some (item ∷ items)

  -- The items that so many calls give, if the last of them gives `None`.
  unfoldable pub drawn : ℕ → List Raw → WireState Json → Option (List (Item Json))
  drawn zero raws s = none
  drawn (suc calls) raws s = elim (next_agent_event serde raws s) [
    | none ↦ some []
    | some (item, raws', s') ↦ behind item (drawn calls raws' s')
  ]

  drawn-drained :
      (xs : List (Item Json)) (raws : List Raw) (s : WireState Json)
      → drained serde raws s ≡ xs
      → drawn (suc (length xs)) raws s ≡ some xs
  unfolding drawn
  drawn-drained [] raws s e =
      let u = unfolded-next_agent_event serde raws s ∙ e in
      elim (Option-cases (next_agent_event serde raws s)) [
        | inl n ↦ rw (n, drawn) refl
        | inr ((item, raws', s'), n) ↦ cc (rw n at u)
      ]
  drawn-drained (x ∷ xs) raws s e =
      let u = unfolded-next_agent_event serde raws s ∙ e in
      elim (Option-cases (next_agent_event serde raws s)) [
        | inl n ↦ cc (rw n at u)
        | inr ((item, raws', s'), n) ↦
            let both : item ∷ drained serde raws' s' ≡ x ∷ xs = rw n at u in
            rw (n, drawn)
              (rw (drawn-drained xs raws' s' (cc both)) (ap (λ k. some (k ∷ xs)) (cc both)))
      ]

  -- Whatever the frames, the reader that calls `next_agent_event` until it gives `None` comes to that
  -- end, after as many calls as there are events and one more, and is given the stream of events, item
  -- by item, which finishes as a turn does: content, the counts at most once, one stop or one error.
  pub drawn-event_stream :
      (raws : List Raw)
      → (drawn (suc (length (event_stream serde raws))) raws (fresh serde)
          ≡ some (event_stream serde raws))
        × (finishes (event_stream serde raws) ≡ true)
  unfolding event_stream
  drawn-event_stream raws =
      (drawn-drained _ raws (fresh serde) refl, event_stream-finishes serde raws)
