-- ===== src/Session/Store/Torn.antt =====
-- A transcript whose last append did not finish.
use sandbx.Common.{true, false, List, [], ◌∷◌, ◌++◌, ◌≡◌, refl, subst, ◌∙◌, Option, some, Bytes}
use sandbx.Session.{Message, user}
use sandbx.Session.Record.{Record, message, replayed, ok, Body, fold, fold_rest, take_record}
use sandbx.Session.Record.Replay.{fold_rest-good, fold-append}
use sandbx.Session.Shape.{asks_only}
use sandbx.Session.Shape.Append.{resumable-prompt}
use sandbx.Session.Store.{
  failed, unresumable, Session, resume, replay, vet_history, write_lines, ◌>>=◌,
}
use sandbx.Session.Store.Durable.{IsDurable, granting}

module _ {Json : Type 0} (parse : Bytes → Option (Record Json)) (print : Record Json → Bytes) where
  -- The transcript of `s`, with the start of a further line behind it.
  abbrev pub torn_behind : Session Json → Bytes → Body
  torn_behind s partial = record { lines = s.file.lines ++ partial ∷ []; torn = true }

  durable_lines :
      (s : Session Json)
      → IsDurable parse print s
      → fold parse (record { lines = s.file.lines; torn = false })
        ≡ ok (replayed s.messages s.accounting)
  durable_lines s d =
      subst
        (λ x.
          fold parse (record { lines = s.file.lines; torn = x })
          ≡ ok (replayed s.messages s.accounting))
        d.whole d.replays

  module _ (s : Session Json) (partial y : Bytes) (ys : List Bytes) where
    -- The file with a write behind the partial line.
    abbrev pub written_onto : Body
    written_onto = write_lines (y ∷ ys) (torn_behind s partial)

  prompt_refused :
      (ms : List (Message Json)) (m : Message Json)
      → m.role ≡ user
      → asks_only m ≡ true
      → vet_history (ms ++ m ∷ []) ≡ failed unresumable
  unfolding vet_history
  prompt_refused [] m u a = rw (resumable-prompt [] m u a) refl
  prompt_refused (x ∷ ms) m u a = rw (resumable-prompt (x ∷ ms) m u a) refl

  prompt-replays :
      (s : Session Json) (m : Message Json)
      → parse (print (message m)) ≡ some (message m)
      → IsDurable parse print s
      → fold parse (record { lines = s.file.lines ++ print (message m) ∷ []; torn = false })
        ≡ ok (take_record (message m) (replayed s.messages s.accounting))
  prompt-replays s m q d =
      fold-append parse false s.file.lines _ _ (durable_lines s d)
      ∙ fold_rest-good parse false _ (print (message m)) [] _ (message m) q refl
      ∙ unfold fold_rest in refl

  -- An append that got no further than its prompt's line costs the conversation: `resume` refuses the
  -- transcript, which ends on a prompt.
  resume_prompt_only :
      (s : Session Json) (m : Message Json)
      → IsDurable parse print s
      → parse (print (message m)) ≡ some (message m)
      → m.role ≡ user
      → asks_only m ≡ true
      → resume parse (
          granting parse print
            (record { lines = s.file.lines ++ print (message m) ∷ []; torn = false }))
        ≡ failed unresumable
  unfolding resume
  resume_prompt_only s m d q u a =
      rw (prompt-replays s m q d, replay) (rw (prompt_refused s.messages m u a, ◌>>=◌) refl)
