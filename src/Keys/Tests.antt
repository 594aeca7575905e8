-- ===== src/Keys/Tests.antt =====
-- A ctrl-c that is read while the other thread sees a hangup.
use sandbx.Common.{true, false, List, [], ◌∷◌, any, ◌≡◌, refl, some, none, if◌then◌else◌, ◌||◌}
use sandbx.Keys.{
  KeyEvent, char, ReadPass, hung, eintr, key, nothing, Update, press, hang_up, read_updates,
  hangup_updates, by_press, by_hangup, stopped, apply_all, unseen, interrupts, pressed, apply,
}
use sandbx.Keys.Order.{
  Interleaving, both_done, from_read, from_hangup, is_stop, is_hangup, stopped-Interleaving,
}

abbrev ctrl_c : KeyEvent
ctrl_c = record { code = char 99; control = true; is_press = true }

abbrev plain_c : KeyEvent
plain_c = record { code = char 99; control = false; is_press = true }

abbrev passes : List ReadPass
passes =
    record { polled = hung false; sourced = key plain_c; closed = false }
    ∷ record { polled = eintr; sourced = nothing; closed = false }
    ∷ record { polled = hung false; sourced = key ctrl_c; closed = false }
    ∷ record { polled = hung true; sourced = nothing; closed = false }
    ∷ []

abbrev sent : List Update
sent = press plain_c ∷ hang_up ∷ press ctrl_c ∷ hang_up ∷ []

one_order : Interleaving (read_updates passes) (hangup_updates (hung true ∷ [])) sent
unfolding read_updates hangup_updates
one_order =
    from_read (press plain_c)
      (from_hangup hang_up (from_read (press ctrl_c) (from_read hang_up both_done)))

pressed_first : stopped (apply_all sent unseen) ≡ some by_press
unfolding stopped apply pressed interrupts
pressed_first = refl

stopped-Interleaving_example : stopped (apply_all sent unseen) ≡ (
    if any is_stop (read_updates passes)
    then some by_press
    else if any is_hangup (read_updates passes) || any is_hangup (hangup_updates (hung true ∷ []))
    then some by_hangup
    else none)
stopped-Interleaving_example = stopped-Interleaving passes (hung true ∷ []) sent one_order
