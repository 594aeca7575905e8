-- ===== src/Keys/Order.antt =====
-- In whatever order the two threads come to send.
use sandbx.Common.{
  Bool, true, false, ◌||◌, List, [], ◌∷◌, any, ◌≡◌, refl, ap, ◌∙◌, none, some, if◌then◌else◌, arith,
}
use sandbx.Keys.{
  Seen, by_press, by_hangup, interrupts, stopped, pressed, Polled, hung, eintr, failed, ReadPass,
  Update, press, hang_up, read_updates, hangup_updates, apply, apply_all, unseen,
}

-- The sends of two threads, each in its own order, as one sequence.
pub data Interleaving : List Update → List Update → List Update → Type 0 where
  both_done : Interleaving [] [] []
  from_read :
      (u : Update) {xs ys zs : List Update}
      → Interleaving xs ys zs
      → Interleaving (u ∷ xs) ys (u ∷ zs)
  from_hangup :
      (u : Update) {xs ys zs : List Update}
      → Interleaving xs ys zs
      → Interleaving xs (u ∷ ys) (u ∷ zs)

-- A press that interrupts.
abbrev pub is_stop : Update → Bool
is_stop (press k) = interrupts k
is_stop hang_up = false

abbrev pub is_hangup : Update → Bool
is_hangup (press k) = false
is_hangup hang_up = true

any-Interleaving :
    (p : Update → Bool) (xs ys zs : List Update)
    → Interleaving xs ys zs
    → any p zs ≡ (any p xs || any p ys)
any-Interleaving p _ _ _ both_done = refl
any-Interleaving p _ _ _ (from_read u {xs} {ys} {zs} i) =
    ground (arith, any-Interleaving p xs ys zs i)
any-Interleaving p _ _ _ (from_hangup u {xs} {ys} {zs} i) =
    ground (arith, any-Interleaving p xs ys zs i)

apply_all-seen :
    (us : List Update) (s : Seen)
    → ((apply_all us s).stop ≡ (s.stop || any is_stop us))
      × ((apply_all us s).gone ≡ (s.gone || any is_hangup us))
unfolding apply pressed
apply_all-seen [] s = (ground arith, ground arith)
apply_all-seen (press k ∷ us) s =
    let (a, b) = apply_all-seen us (apply (press k) s) in (a ∙ ground arith, b)
apply_all-seen (hang_up ∷ us) s =
    let (a, b) = apply_all-seen us (apply hang_up s) in (a, b ∙ ground arith)

-- The watching thread sends no press.
never_pressed : (os : List Polled) → any is_stop (hangup_updates os) ≡ false
unfolding hangup_updates
never_pressed [] = refl
never_pressed (hung true ∷ os) = refl
never_pressed (hung false ∷ os) = refl
never_pressed (eintr ∷ os) = never_pressed os
never_pressed (failed ∷ os) = refl

-- However the sends of the reading thread and of the watching thread fall between each other, and
-- however far both have come: the turn is stopped by a press exactly if the reading thread sent a key
-- that interrupts, whatever came before or behind it; if it sent none, by a hangup exactly if
-- either thread saw one; and otherwise not at all.
pub stopped-Interleaving :
    (ps : List ReadPass) (qs : List Polled) (zs : List Update)
    → Interleaving (read_updates ps) (hangup_updates qs) zs
    → stopped (apply_all zs unseen) ≡ (
        if any is_stop (read_updates ps)
        then some by_press
        else if any is_hangup (read_updates ps) || any is_hangup (hangup_updates qs)
        then some by_hangup
        else none)
unfolding stopped
stopped-Interleaving ps qs zs i =
    let (a, b) = apply_all-seen zs unseen in
    let stop : (apply_all zs unseen).stop ≡ any is_stop (read_updates ps) =
      a
      ∙ any-Interleaving is_stop _ _ zs i
      ∙ ap (◌||◌ (any is_stop (read_updates ps))) (never_pressed qs)
      ∙ ground arith in
    let gone = b ∙ any-Interleaving is_hangup _ _ zs i in rw (stop, gone) refl
