-- ===== src/Transcript/Notes.antt =====
-- What the events and the notes of a turn add to the rows with the mark.
use sandbx.Common.{
  Bool, true, false, List, [], ◌∷◌, ◌++◌, all, all-append, retain, ◌≡◌, refl, sym, ap, ◌∙◌, Bytes,
  if_elim, is_empty, &&_true,
}
use mathlib.Core.List.{append-nil, append_assoc}
use sandbx.Event.{
  AgentEvent, text, thinking, thinking_block, redacted_thinking, tool_call_requested, usage, stop,
}
use sandbx.Transcript.{
  Kind, prompt, answer, reasoning, note, Entry, Transcript, gutter_mark, printable_text, same_kind,
  extended, append_delta, opened, fold_event, note_text, add_note, rows,
}
use sandbx.Transcript.Marks.{
  within_text, is_note, note_rows, sound_as, is_sound, marks, is_marked, printable-within,
  spell_breaks-draws, rows-marks,
}

same_marks :
    (k kind : Kind) (t u : Bytes)
    → same_kind k kind ≡ true
    → is_note kind ≡ false
    → note_rows k (t ++ u) ≡ note_rows k t
unfolding is_note
same_marks note note t u s n = cc n
same_marks note prompt t u s n = cc s
same_marks note answer t u s n = cc s
same_marks note reasoning t u s n = cc s
same_marks prompt kind t u s n = refl
same_marks answer kind t u s n = refl
same_marks reasoning kind t u s n = refl

same_sound :
    (k kind : Kind) (t u : Bytes)
    → same_kind k kind ≡ true
    → is_note kind ≡ false
    → sound_as k t ≡ true
    → all within_text u ≡ true
    → sound_as k (t ++ u) ≡ true
unfolding is_note
same_sound note note t u s n a b = cc n
same_sound note prompt t u s n a b = cc s
same_sound note answer t u s n a b = cc s
same_sound note reasoning t u s n a b = cc s
same_sound prompt kind t u s n a b = rw (all-append, a, b)
same_sound answer kind t u s n a b = rw (all-append, a, b)
same_sound reasoning kind t u s n a b = rw (all-append, a, b)

new_sound :
    (kind : Kind) (u : Bytes)
    → is_note kind ≡ false
    → all within_text u ≡ true
    → sound_as kind u ≡ true
unfolding is_note
new_sound note u n b = cc n
new_sound prompt u n b = b
new_sound answer u n b = b
new_sound reasoning u n b = b

new_marks : (kind : Kind) (u : Bytes) → is_note kind ≡ false → note_rows kind u ≡ []
unfolding is_note
new_marks note u n = cc n
new_marks prompt u n = refl
new_marks answer u n = refl
new_marks reasoning u n = refl

-- Sound entries, with just these marks.
abbrev Shows : List Entry → List Bytes → Type 0
Shows es ms = (all is_sound es ≡ true) × (marks es ≡ ms)

Shows-cons :
    (e : Entry) (es : List Entry) (ms : List Bytes)
    → is_sound e ≡ true
    → Shows es ms
    → Shows (e ∷ es) (note_rows e.kind e.content ++ ms)
Shows-cons e es ms s (a, m) = (rw (s, a) refl, ap (◌++◌ (note_rows e.kind e.content)) m)

extended-Shows :
    (kind : Kind) (u : Bytes) (es : List Entry)
    → is_note kind ≡ false
    → all within_text u ≡ true
    → all is_sound es ≡ true
    → Shows (extended kind u es) (marks es)
unfolding extended
extended-Shows kind u [] n b a = (rw (new_sound kind u n b) refl, rw (new_marks kind u n) refl)
extended-Shows kind u (e ∷ []) n b a =
    let (s, _) = &&_true (is_sound e) true a in
    if_elim (λ es. Shows es (marks (e ∷ []))) (same_kind e.kind kind) _ _
      (λ q. (
        rw (same_sound e.kind kind e.content u q n s b) refl,
        rw (same_marks e.kind kind e.content u q n) refl,
      ))
      (λ q.
        Shows-cons e (record { kind = kind; content = u } ∷ []) [] s
          (rw (new_sound kind u n b) refl, rw (new_marks kind u n) refl))
extended-Shows kind u (e ∷ f ∷ es) n b a =
    let (s, ss) = &&_true (is_sound e) (all is_sound (f ∷ es)) a in
    Shows-cons e (extended kind u (f ∷ es)) (marks (f ∷ es)) s
      (extended-Shows kind u (f ∷ es) n b ss)

append_delta-Shows :
    (delta : Bytes) (kind : Kind) (s : Transcript)
    → is_note kind ≡ false
    → all is_sound s.entries ≡ true
    → Shows (append_delta delta kind s).entries (marks s.entries)
unfolding append_delta
append_delta-Shows delta kind s n a =
    if_elim (λ (t : Transcript). Shows t.entries (marks s.entries)) (is_empty delta) _ _
      (λ _. (a, refl))
      (λ _. extended-Shows kind (printable_text delta) s.entries n (printable-within delta) a)

fold_event-Shows :
    {Json : Type 0} (e : AgentEvent Json) (s : Transcript)
    → all is_sound s.entries ≡ true
    → Shows (fold_event e s).entries (marks s.entries)
unfolding fold_event is_note
fold_event-Shows (text delta) s a = append_delta-Shows delta answer s refl a
fold_event-Shows (thinking delta) s a =
    if_elim (λ (t : Transcript). Shows t.entries (marks s.entries)) s.shows_reasoning _ _
      (λ _. append_delta-Shows delta reasoning s refl a) (λ _. (a, refl))
fold_event-Shows (thinking_block t g) s a = (a, refl)
fold_event-Shows (redacted_thinking t) s a = (a, refl)
fold_event-Shows (tool_call_requested i n j) s a = (a, refl)
fold_event-Shows (usage i o w r) s a = (a, refl)
fold_event-Shows (stop reason) s a = (a, refl)

-- What comes to the screen while a turn runs.
pub data Input (Json : Type 0) : Type 0 where
  an_event : AgentEvent Json → Input Json
  a_note : Bytes → Input Json

abbrev pub show_all : {Json : Type 0} → List (Input Json) → Transcript → Transcript
show_all [] s = s
show_all (an_event e ∷ is) s = show_all is (fold_event e s)
show_all (a_note l ∷ is) s = show_all is (add_note l s)

-- A row for each note.
abbrev pub noted : {Json : Type 0} → List (Input Json) → List Bytes
noted [] = []
noted (an_event e ∷ is) = noted is
noted (a_note l ∷ is) = (gutter_mark ∷ 32 ∷ note_text l) ∷ noted is

marks-append : (es fs : List Entry) → marks (es ++ fs) ≡ marks es ++ marks fs
marks-append [] fs = refl
marks-append (e ∷ es) fs =
    ap (◌++◌ (note_rows e.kind e.content)) (marks-append es fs)
    ∙ sym (append_assoc (note_rows e.kind e.content) (marks es) (marks fs))

add_note-Shows :
    (l : Bytes) (s : Transcript)
    → all is_sound s.entries ≡ true
    → Shows (add_note l s).entries (marks s.entries ++ (gutter_mark ∷ 32 ∷ note_text l) ∷ [])
unfolding add_note
add_note-Shows l s a = (
  rw (all-append, a, spell_breaks-draws (printable_text l) (printable-within l)),
  marks-append s.entries (record { kind = note; content = note_text l } ∷ []),
)

show_all-Shows :
    {Json : Type 0} (is : List (Input Json)) (s : Transcript)
    → all is_sound s.entries ≡ true
    → Shows (show_all is s).entries (marks s.entries ++ noted is)
show_all-Shows [] s a = (a, sym (append-nil (marks s.entries)))
show_all-Shows (an_event e ∷ is) s a =
    let (b, m) = fold_event-Shows e s a in
    let (c, n) = show_all-Shows is (fold_event e s) b in (c, n ∙ ap (λ ms. ms ++ noted is) m)
show_all-Shows (a_note l ∷ is) s a =
    let (b, m) = add_note-Shows l s a in
    let (c, n) = show_all-Shows is (add_note l s) b in
    (c, n ∙ ap (λ ms. ms ++ noted is) m ∙ append_assoc (marks s.entries) _ (noted is))

-- Whatever the prompt says and the model streams, the rows with the mark that says sandbx wrote them are
-- one for each note that sandbx wrote, in their order, and no other.
pub rows_marked :
    {Json : Type 0} (p : Bytes) (shows : Bool) (is : List (Input Json))
    → retain is_marked (rows (show_all is (opened p shows)).entries) ≡ noted is
unfolding opened
rows_marked p shows is =
    let (a, m) = show_all-Shows is (opened p shows) (rw (printable-within p) refl) in
    rows-marks _ a ∙ m
