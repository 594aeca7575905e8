-- ===== src/Turn/Run/Legal.antt =====
-- Every request that a turn opens is a conversation that the API accepts, and so is what it hands back.
use sandbx.Common.{
  not-false, if_elim, is_empty, ℕ, zero, suc, true, false, not, List, [], ◌∷◌, ◌++◌, ◌≡◌, ◌≢◌, refl,
  sym, ap, ◌∙◌, subst, ◌⊎◌, inl, inr, Bytes, arith, Option, none, some, Bool-cases, is_some, length,
  all, any, AllIn-refl, all-append,
}
use sandbx.Compact.{Compaction, opens_a_request, plan_cut, window}
use sandbx.Compact.Cut.{plan_cut-opens}
use sandbx.Compact.Window.{window-IsConversation, window-ends, window-zero}
use sandbx.Prompt.{
  Role, user, assistant, is_user, ContentBlock, RequestMessage, is_thinking, is_result,
}
use sandbx.Prompt.Conversation.{
  call_ids, result_ids, Follows, IsConversation, end_role, end_calls, Follows-append,
  end_role-append, end_calls-append, call_ids-results,
}
use sandbx.Turn.{
  TurnStop, answered, round_limit, gate_aborted, interrupted, Opened, stream, refused, Await, ready,
  failed, World, Turn,
}
use sandbx.Turn.Accumulate.{Round}
use sandbx.Turn.Accumulate.Content.{accumulate-content}
use sandbx.Turn.Answer.{Answering, answer_calls}
use sandbx.Turn.Answer.Aborted.{answer_calls-aborted}
use sandbx.Turn.Answer.Exactly.{answer_calls-exactly}
use sandbx.Turn.Run.Strip.{
  has_no_thinking, Produced, drop_thinking-Produced, drop_thinking-no_thinking,
}
use sandbx.Turn.Run.{
  unwrap_or, drop_thinking, outcome, Request, Pass, again, done, fault, Looping, start, replan,
  plan_with, plan, kept_recent, mark_sent, deepened, request, drained, streamed, note_round,
  end_with, end_interrupted, push, conclude, after_calls, answer_round, ends_on_user, take_round,
  after_request, after_stream, pass, run_rounds, run_turn_until,
}

module _ {Json : Type 0} where
  -- A history that a turn may be run on: a conversation that waits for the model.
  pub record IsReady (h : List (RequestMessage Json)) : Type 0 where
    pub conversation : IsConversation h
    pub ends : end_role assistant h ≡ user
    pub leaves : end_calls [] h ≡ []

  abbrev pub LegalCut : List (RequestMessage Json) → ℕ → Type 0
  LegalCut h c = (c ≡ 0) ⊎ (opens_a_request h c ≡ true)

  window-IsReady :
      (h : List (RequestMessage Json)) (c : ℕ) → IsReady h → LegalCut h c → IsReady (window h c)
  window-IsReady h c v (inl z) = rw (z, window-zero h) v
  window-IsReady h c v (inr e) =
      let n = window-ends h c e in
      record {
        conversation = window-IsConversation h c v.conversation e;
        ends = n.0 ∙ v.ends;
        leaves = n.1 ∙ v.leaves;
      }

  join-IsConversation :
      (h ps : List (RequestMessage Json))
      → IsReady h
      → Follows user [] ps
      → IsConversation (h ++ ps)
  join-IsConversation h ps v f =
      Follows-append assistant [] h ps v.conversation (rw (v.ends, v.leaves) f)

  -- Every request opened is a conversation.
  abbrev pub Conversations : List (Request Json) → Type 0
  Conversations [] = Unit {0}
  Conversations (r ∷ rs) = IsConversation r.prompt.messages × Conversations rs

  solid-results :
      (bs : List (ContentBlock Json))
      → all is_result bs ≡ true
      → bs ≢ []
      → any (λ b. not (is_thinking b)) bs ≡ true
  solid-results [] h n = absurd (n refl)
  solid-results (b ∷ bs) h n = ground arith

  -- The model's reply, behind a user turn.
  reply-Produced :
      (ps : List (RequestMessage Json)) (bs : List (ContentBlock Json))
      → Produced user [] ps
      → any (λ b. not (is_thinking b)) bs ≡ true
      → result_ids bs ≡ []
      → Produced assistant (call_ids bs) (ps ++ record { role = assistant; content = bs } ∷ [])
  reply-Produced ps bs p solid no_results = record {
    follows =
        Follows-append user [] ps _ p.follows
          (rw (p.ends, p.leaves) ((λ e. cc), (λ e. cc (rw e at solid)), rw no_results tt, tt, tt));
    ends = end_role-append user ps _;
    leaves = end_calls-append [] ps _;
    solid = rw all-append (rw (p.solid, solid));
  }

  -- The results of a round, behind the reply that made the calls.
  results-Produced :
      (ps : List (RequestMessage Json)) (bs : List (ContentBlock Json)) (calls : List Bytes)
      → Produced assistant calls ps
      → all is_result bs ≡ true
      → bs ≢ []
      → result_ids bs ≡ calls
      → Produced user [] (ps ++ record { role = user; content = bs } ∷ [])
  results-Produced ps bs calls p results n e = record {
    follows =
        Follows-append user [] ps _ p.follows
          (rw (p.ends, p.leaves, e) ((λ q. cc), n, AllIn-refl calls, AllIn-refl calls, tt));
    ends = end_role-append user ps _;
    leaves = end_calls-append [] ps _ ∙ call_ids-results bs results;
    solid = rw all-append (rw (p.solid, solid-results bs results n));
  }

module _ {Json : Type 0} (w : World Json) (turn : Turn Json) (v : IsReady turn.history) where
  pub record Inv (l : Looping w turn) : Type 0 where
    pub produced : Produced user [] l.produced
    pub legal_cut : LegalCut turn.history l.cut
    pub requests : Conversations l.requests

  unwrap-LegalCut :
      (planned : Option ℕ) (c : ℕ)
      → ((p : ℕ) → planned ≡ some p → LegalCut turn.history p)
      → LegalCut turn.history c
      → LegalCut turn.history (unwrap_or planned c)
  unwrap-LegalCut none c f h = h
  unwrap-LegalCut (some p) c f h = f p refl

  replan-Inv : (policy : Compaction) (l : Looping w turn) → Inv l → Inv (replan w turn policy l)
  replan-Inv policy l i = record {
    produced = i.produced;
    legal_cut =
        unwrap-LegalCut
          (plan_cut turn.history (length l.produced) (kept_recent policy l.observed) l.floor) l.cut
          (λ p e. inr (plan_cut-opens turn.history _ _ _ e)) i.legal_cut;
    requests = i.requests;
  }

  plan_with-Inv :
      (policy : Option Compaction) (l : Looping w turn) → Inv l → Inv (plan_with w turn policy l)
  unfolding plan_with
  plan_with-Inv none l i = i
  plan_with-Inv (some policy) l i = replan-Inv policy l i

  plan-Inv : (l : Looping w turn) → Inv l → Inv (plan w turn l)
  unfolding plan
  plan-Inv l i = if_elim Inv l.measured _ l (λ e. plan_with-Inv turn.limits.compaction l i) (λ e. i)

  mark_sent-Inv : (l : Looping w turn) → Inv l → Inv (mark_sent w turn l)
  unfolding mark_sent
  mark_sent-Inv l i = record {
    produced = elim (Bool-cases (deepened l.sent_cut l.cut)) [
      | inl e ↦ rw e (drop_thinking-Produced user [] l.produced i.produced)
      | inr e ↦ rw e i.produced
    ];
    legal_cut = i.legal_cut;
    requests = i.requests;
  }

  after_request-Inv : (l : Looping w turn) (s : w.State) → Inv l → Inv (after_request w turn l s)
  after_request-Inv l s i = record {
    produced = i.produced;
    legal_cut = i.legal_cut;
    requests = (
      unfold request in
          join-IsConversation (window turn.history l.cut) l.produced
            (window-IsReady turn.history l.cut v i.legal_cut) i.produced.follows,
      i.requests,
    );
  }

  -- How a transcript ends, for each way that a turn ends.
  abbrev pub EndsAs : TurnStop → List (RequestMessage Json) → Type 0
  EndsAs answered ms = (ms ≡ []) ⊎ Produced assistant [] ms
  EndsAs (round_limit n) ms = Produced user [] ms
  EndsAs gate_aborted ms = Produced user [] ms
  EndsAs interrupted ms = Produced user [] ms

  -- What a pass, and a turn, comes to.
  abbrev pub Good : Pass Json w.State → Type 0
  Good (again l) = Inv l
  Good (done o l) =
      Conversations l.requests
      × IsConversation (turn.history ++ o.messages)
      × (has_no_thinking o.messages ≡ true)
      × EndsAs o.stop o.messages
  Good (fault e l) = Conversations l.requests

  end_interrupted-Good : (l : Looping w turn) → Inv l → Good (end_interrupted w turn l)
  unfolding outcome
  end_interrupted-Good l i =
      let p = drop_thinking-Produced user [] l.produced i.produced in
      (
        i.requests,
        join-IsConversation turn.history _ v p.follows,
        drop_thinking-no_thinking l.produced,
        p,
      )

  end_with-Good :
      (l : Looping w turn) (r : Role) (stop : TurnStop)
      → Produced r [] l.produced
      → Conversations l.requests
      → EndsAs stop (drop_thinking l.produced)
      → Good (end_with w turn l stop)
  unfolding outcome
  end_with-Good l r stop p c e =
      let q = drop_thinking-Produced r [] l.produced p in
      (c, join-IsConversation turn.history _ v q.follows, drop_thinking-no_thinking l.produced, e)

  conclude-Good :
      (bs : List (ContentBlock Json)) (aborted : Option Bytes) (l : Looping w turn)
      (calls : List Bytes)
      → Produced assistant calls l.produced
      → LegalCut turn.history l.cut
      → Conversations l.requests
      → all is_result bs ≡ true
      → result_ids bs ≡ calls
      → (is_some aborted ≡ true → is_empty bs ≡ false)
      → Good (conclude w turn bs aborted l)
  unfolding conclude
  conclude-Good [] none l calls p legal c results e kept =
      let q = subst (λ k. Produced assistant k l.produced) (sym e) p in
      end_with-Good l assistant answered q c
        (inr (drop_thinking-Produced assistant [] l.produced q))
  conclude-Good [] (some r) l calls p legal c results e kept = cc (kept refl)
  conclude-Good (b ∷ bs) none l calls p legal c results e kept = record {
    produced = results-Produced l.produced (b ∷ bs) calls p results (λ q. cc) e;
    legal_cut = legal;
    requests = c;
  }
  conclude-Good (b ∷ bs) (some r) l calls p legal c results e kept =
      let q = results-Produced l.produced (b ∷ bs) calls p results (λ q. cc) e in
      end_with-Good (push w turn user (b ∷ bs) l) user gate_aborted q c
        (drop_thinking-Produced user [] _ q)

  answer_round-Good :
      (r : Round Json) (l : Looping w turn) (a : Await (Unit {0}) (Answering w turn.tools))
      → answer_calls w turn.tools r.blocks l.state ≡ a
      → any (λ b. not (is_thinking b)) r.blocks ≡ true
      → result_ids r.blocks ≡ []
      → Inv l
      → Good (answer_round w turn r l a)
  unfolding answer_round
  answer_round-Good r l (ready u a) e solid none_yet i =
      let x = answer_calls-exactly w turn.tools r.blocks l.state a e in
      conclude-Good a.results a.aborted (push w turn assistant r.blocks (after_calls w turn l a))
        (call_ids r.blocks) (reply-Produced l.produced r.blocks i.produced solid none_yet)
        i.legal_cut i.requests x.1 x.0 (answer_calls-aborted w turn.tools r.blocks l.state a e)
  answer_round-Good r l (failed x a) e solid none_yet i = i.requests
  answer_round-Good r l (Await.stopped a) e solid none_yet i =
      end_interrupted-Good (after_calls w turn l a)
        (record { produced = i.produced; legal_cut = i.legal_cut; requests = i.requests })

  ends_on_user-end_role :
      (r : Role) (m : RequestMessage Json) (ms : List (RequestMessage Json))
      → ends_on_user w turn (m ∷ ms) ≡ is_user (end_role r (m ∷ ms))
  ends_on_user-end_role r m [] = refl
  ends_on_user-end_role r m (n ∷ ms) = ends_on_user-end_role m.role n ms

  -- A round of nothing but reasoning ends the turn only where nothing has been produced.
  nil_of_user_end :
      (ps : List (RequestMessage Json))
      → Produced user [] ps
      → ends_on_user w turn ps ≡ false
      → ps ≡ []
  nil_of_user_end [] p e = refl
  nil_of_user_end (m ∷ ms) p e = cc (rw p.ends at (sym (ends_on_user-end_role user m ms) ∙ e))

  empty_round-Good :
      (l : Looping w turn) → Inv l → l.produced ≡ [] → Good (end_with w turn l answered)
  empty_round-Good l i e =
      end_with-Good l user answered i.produced i.requests
        (inl (ap drop_thinking e ∙ unfold drop_thinking in refl))

  take_round-Good :
      (r : Round Json) (l : Looping w turn)
      → result_ids r.blocks ≡ []
      → Inv l
      → Good (take_round w turn r l)
  unfolding take_round
  take_round-Good r l none_yet i =
      if_elim Good (not (any (λ b. not (is_thinking b)) r.blocks)) _ _
        (λ _.
          if_elim Good (ends_on_user w turn l.produced) _ _ (λ _. i.requests)
            (λ e. empty_round-Good l i (nil_of_user_end l.produced i.produced e)))
        (λ solid.
          if_elim Good (w.stops l.state) _ _ (λ _. end_interrupted-Good l i)
            (λ _.
              answer_round-Good r l _ refl
                (not-false (any (λ b. not (is_thinking b)) r.blocks) solid) none_yet i))

  -- Only rounds that have streamed are taken, and those hold no results.
  drained-results :
      (o : Opened Json) (s s' : w.State) (r : Round Json)
      → drained w turn (o, s) ≡ ready r s'
      → result_ids r.blocks ≡ []
  unfolding drained
  drained-results (stream ps) s s' r e = (accumulate-content w _ ps s s' r e).2
  drained-results (refused x) s s' r e = cc
  drained-results Opened.stopped s s' r e = cc

  streamed-results :
      (l : Looping w turn) (s : w.State) (r : Round Json)
      → streamed w turn l ≡ ready r s
      → result_ids r.blocks ≡ []
  unfolding streamed
  streamed-results l s r =
      if_elim (λ a. a ≡ ready r s → result_ids r.blocks ≡ []) (w.stops l.state) _ _ (λ _ e. cc)
        (λ _. drained-results (w.open_stream (request w turn l) l.state).0 _ s r)

  after_stream-Good :
      (l : Looping w turn) (a : Await (Round Json) w.State)
      → streamed w turn l ≡ a
      → Inv l
      → Good (after_stream w turn l a)
  unfolding after_stream note_round
  after_stream-Good l (ready r s) e i =
      let j = after_request-Inv l s i in
      take_round-Good r (note_round w turn r (after_request w turn l s)) (streamed-results l s r e)
        (record { produced = j.produced; legal_cut = j.legal_cut; requests = j.requests })
  after_stream-Good l (failed x s) e i = (after_request-Inv l s i).requests
  after_stream-Good l (Await.stopped s) e i = end_interrupted-Good _ (after_request-Inv l s i)

  pass-Good : (l : Looping w turn) → Inv l → Good (pass w turn l)
  unfolding pass
  pass-Good l i =
      after_stream-Good (mark_sent w turn (plan w turn l)) _ refl (mark_sent-Inv _ (plan-Inv l i))

  Good-bind :
      (n : ℕ) (p : Pass Json w.State)
      → Good p
      → ((l : Looping w turn) → Inv l → Good (run_rounds w turn n l))
      → Good (elim p [
        | again l' ↦ run_rounds w turn n l'
        | done o l' ↦ done o l'
        | fault e l' ↦ fault e l'
      ])
  Good-bind n (again l') g k = k l' g
  Good-bind n (done o l') g k = g
  Good-bind n (fault e l') g k = g

  run_rounds-Good : (n : ℕ) (l : Looping w turn) → Inv l → Good (run_rounds w turn n l)
  unfolding run_rounds
  run_rounds-Good zero l i =
      end_with-Good l user _ i.produced i.requests
        (drop_thinking-Produced user [] l.produced i.produced)
  run_rounds-Good (suc n) l i =
      Good-bind n (pass w turn l) (pass-Good l i) (λ l' i'. run_rounds-Good n l' i')

  -- Over a history that waits for the model: however the turn goes, every request that it opens is
  -- a conversation that the API accepts. If it hands back an outcome, the history with its messages
  -- is one too, the messages hold no reasoning, and they end as the way of stopping says: on the
  -- model's reply (or are none) if it answered, on a user turn with no call open otherwise.
  pub run_turn_until-Good : (s : w.State) → Good (run_turn_until w turn s)
  unfolding run_turn_until
  run_turn_until-Good s = run_rounds-Good turn.limits.max_rounds (start w turn s) (record {
    produced = record { follows = tt; ends = refl; leaves = refl; solid = refl };
    legal_cut = inl refl;
    requests = tt;
  })
