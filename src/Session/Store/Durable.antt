-- ===== src/Session/Store/Durable.antt =====
-- What a session holds in memory is what its file replays to, turn after turn.
use mathlib.Core.List.{append-nil, append_assoc}
use sandbx.Common.{
  ℕ, ◌+◌, Bool, true, false, not, List, [], ◌∷◌, ◌++◌, map, ◌≡◌, refl, sym, ap, ◌∙◌, subst, ◌⊎◌,
  inl, inr, Option, none, some, Bytes, arith, length, if◌then◌else◌,
}
use sandbx.Session.{Message, CompletedTurn}
use sandbx.Session.Record.{
  Header, version, Accounting, Record, header, message, turn, Replayed, replayed, ok, Body, absorb,
  fold, fold_rest, take_record,
}
use sandbx.Session.Record.Replay.{fold_rest-good, fold-append, fold_header}
use sandbx.Session.Shape.Append.{IsStored, append-IsStored}
use sandbx.Session.Store.{
  SessionError, Result, done, failed, ◌>>=◌, ◌>>◌, refuse_if, opened, Disk, Session, resume, replay,
  vet_history, vet_turn, turn_accounting, turn_records, glue, write_lines, append, append_all,
  create,
}

module _ {Json : Type 0} (parse : Bytes → Option (Record Json)) (print : Record Json → Bytes) where
  pub record IsDurable (s : Session Json) : Type 0 where
    pub replays : fold parse s.file ≡ ok (replayed s.messages s.accounting)
    pub whole : s.file.torn ≡ false
    pub stored : (s.messages ≡ []) ⊎ IsStored s.messages

  abbrev cleared : List (Message Json) → Accounting → Accounting
  cleared [] a = a
  cleared (m ∷ ms) a = record a { stop = none }

  cleared_twice :
      (m : Message Json) (ms : List (Message Json)) (a : Accounting)
      → cleared ms (record a { stop = none }) ≡ cleared (m ∷ ms) a
  cleared_twice m [] a = refl
  cleared_twice m (n ∷ ms) a = refl

  absorb-cleared :
      (t : CompletedTurn Json) (ms : List (Message Json)) (a : Accounting)
      → t.messages ≡ ms
      → absorb (cleared ms a) (turn_accounting t) ≡ absorb a (turn_accounting t)
  unfolding absorb
  absorb-cleared t [] a e = refl
  absorb-cleared t (m ∷ ms) a e = rw e refl

  -- Each of these records is read back from its line as it was.
  abbrev pub ReadBack : List (Record Json) → Type 0
  ReadBack [] = Unit {0}
  ReadBack (r ∷ rs) = (parse (print r) ≡ some r) × ReadBack rs

  -- So are all that a session writes for these turns.
  abbrev pub AllReadBack : List (CompletedTurn Json) → Type 0
  AllReadBack [] = Unit {0}
  AllReadBack (t ∷ ts) = ReadBack (turn_records t) × AllReadBack ts

  fold_rest-turn :
      (ms : List (Message Json)) (a : Accounting) (index : ℕ) (r : Replayed Json)
      → ReadBack (map message ms ++ turn a ∷ [])
      → fold_rest parse false index (map print (map message ms ++ turn a ∷ [])) r
        ≡ ok (replayed (r.messages ++ ms) (absorb (cleared ms r.accounting) a))
  fold_rest-turn [] a index r q =
      fold_rest-good parse false index (print (turn a)) [] r (turn a) q.0 refl
      ∙ unfold fold_rest in
        ap (λ ms. ok (replayed ms (absorb r.accounting a))) (sym (append-nil r.messages))
  fold_rest-turn (m ∷ ms) a index r q =
      fold_rest-good parse false index _ _ r (message m) q.0 refl
      ∙ fold_rest-turn ms a (index + 1) (take_record (message m) r) q.1
      ∙ rw (append_assoc r.messages (m ∷ []) ms, cleared_twice m ms r.accounting)

  abbrev next : CompletedTurn Json → Session Json → Session Json
  next t s = record s {
    messages = s.messages ++ t.messages;
    accounting = absorb s.accounting (turn_accounting t);
    file = write_lines (map print (turn_records t)) s.file;
  }

  unit_cases : (r : Result (Unit {0})) → (r ≡ done tt) ⊎ ((e : SessionError) × (r ≡ failed e))
  unit_cases (done u) = inl refl
  unit_cases (failed e) = inr (e, refl)

  -- What `append` has checked and done where it succeeds.
  append_done :
      (written : Bool) (t : CompletedTurn Json) (s s' : Session Json)
      → append print written t s ≡ done s'
      → (vet_turn s.messages t.messages ≡ done tt) × (s' ≡ next t s)
  unfolding append
  append_done written t s s' e = elim (unit_cases (vet_turn s.messages t.messages)) [
    | inr (x, v) ↦ cc (rw (v, ◌>>=◌) at e)
    | inl v ↦ (v, go written (rw (v, ◌>>=◌) at e))
  ]
    where
      go :
          (b : Bool)
          → (refuse_if (not b) SessionError.io >> done (next t s)) ≡ done s'
          → s' ≡ next t s
      go true h = cc h
      go false h = cc h

  vet_turn_done :
      (stored batch : List (Message Json))
      → (stored ≡ []) ⊎ IsStored stored
      → vet_turn stored batch ≡ done tt
      → (stored ++ batch ≡ []) ⊎ IsStored (stored ++ batch)
  unfolding vet_turn
  vet_turn_done stored [] s e = rw (append-nil stored) s
  vet_turn_done stored (y ∷ ys) s e =
      inr (append-IsStored stored y ys s (ground arith) (ground arith) (ground arith))

  written_behind :
      (ys : List Bytes) (b : Body) (r : Replayed Json)
      → b.torn ≡ false
      → fold parse b ≡ ok r
      → fold parse (write_lines ys b) ≡ fold_rest parse false (length b.lines) ys r
  written_behind ys b r w e =
      ap
        (λ (x : Bool).
          fold parse
            (record { lines = if x then glue b.lines ys else b.lines ++ ys; torn = false }))
        w
      ∙ fold-append parse false b.lines ys r
          (subst (λ x. fold parse (record { lines = b.lines; torn = x }) ≡ ok r) w e)

  -- Adding a turn to a session that its file replays to gives one that its file replays to, with a
  -- history that `resume` takes, as long as `append` succeeds and the lines of the turn are read back.
  pub append-IsDurable :
      (written : Bool) (t : CompletedTurn Json) (s s' : Session Json)
      → ReadBack (turn_records t)
      → IsDurable s
      → append print written t s ≡ done s'
      → IsDurable s'
  append-IsDurable written t s s' q d e =
      let (v, n) = append_done written t s s' e in
      subst IsDurable (sym n) (record {
        replays =
            written_behind (map print (turn_records t)) s.file _ d.whole d.replays
            ∙ fold_rest-turn t.messages (turn_accounting t) _ _ q
            ∙ ap (λ a. ok (replayed (s.messages ++ t.messages) a))
                (absorb-cleared t t.messages s.accounting refl);
        whole = refl;
        stored = vet_turn_done s.messages t.messages d.stored v;
      })

  -- A history that `append` leaves passes the checks of `resume`.
  pub vet_history_stored :
      (ms : List (Message Json)) → (ms ≡ []) ⊎ IsStored ms → vet_history ms ≡ done tt
  unfolding vet_history
  vet_history_stored ms (inl e) = rw e refl
  vet_history_stored [] (inr v) = refl
  vet_history_stored (m ∷ ms) (inr v) = rw (v.resumes, v.alternates, v.opening) refl

  -- A file system that grants a session's file to this process, with mode `0600` in a directory of
  -- mode `0700`, and its text `b`.
  abbrev pub granting : Body → Disk
  granting b = record {
    euid = 1000;
    ruid = 1000;
    directory = opened (record { uid = 1000; mode = 0o700 });
    transcript = opened (record { owned = record { uid = 1000; mode = 0o600 }; body = b });
    reopened = opened tt;
  }

  -- Where the process may read it, a session whose file replays to it resumes as it was.
  pub resume_durable :
      (s : Session Json)
      → IsDurable s
      → resume parse (granting s.file) ≡ done (record s { shared_read = false })
  unfolding resume
  resume_durable s d =
      rw (d.replays, replay) (rw (vet_history_stored s.messages d.stored, ◌>>=◌) refl)

  bind_cases :
      (r : Result (Session Json)) (f : Session Json → Result (Session Json)) {s' : Session Json}
      → (r >>= f) ≡ done s'
      → (s : Session Json) × (r ≡ done s) × (f s ≡ done s')
  bind_cases (done s) f e = (s, refl, e)
  bind_cases (failed x) f e = cc

  pub append_all-IsDurable :
      (ts : List (CompletedTurn Json)) (s s' : Session Json)
      → AllReadBack ts
      → IsDurable s
      → append_all print ts s ≡ done s'
      → IsDurable s'
  unfolding append_all
  append_all-IsDurable [] s s' q d e = let same : s ≡ s' = cc e in subst IsDurable same d
  append_all-IsDurable (t ∷ ts) s s' q d e =
      let (u, a, more) = bind_cases (append print true t s) (append_all print ts) e in
      append_all-IsDurable ts u s' q.1 (append-IsDurable true t s u q.0 d a) more

  pub create-IsDurable :
      (h : Header)
      → parse (print (header h)) ≡ some (header h)
      → h.version ≡ version
      → IsDurable (create print h)
  unfolding create
  create-IsDurable h q v = record {
    replays = fold_header parse (print (header h)) h q v;
    whole = refl;
    stored = inl refl;
  }

  -- A conversation survives being left: whatever turns a new session takes, the session that
  -- `resume` reads back from its file holds the same messages and the same accounting, where each of
  -- the records written for the header and those turns is read back from its line as it was.
  pub resume-append_all :
      (h : Header) (ts : List (CompletedTurn Json)) (s : Session Json)
      → parse (print (header h)) ≡ some (header h)
      → AllReadBack ts
      → h.version ≡ version
      → append_all print ts (create print h) ≡ done s
      → resume parse (granting s.file) ≡ done (record s { shared_read = false })
  resume-append_all h ts s q qs v e =
      resume_durable s (append_all-IsDurable ts (create print h) s qs (create-IsDurable h q v) e)
