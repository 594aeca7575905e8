-- ===== src/Session/Bridge/Merge.antt =====
-- What merging the runs of user messages keeps.
use sandbx.Common.{
  oldest_first, ℕ, suc, Bool, true, false, not, ◌&&◌, ◌||◌, List, [], ◌∷◌, ◌++◌, ◌≡◌, refl, sym, ap,
  ◌∙◌, arith, &&_true, if◌then◌else◌, length, ◌==◌, is_empty, Bool-cases, inl, inr,
}
use mathlib.Core.List.{append-nil, append_assoc}
use sandbx.Prompt.{is_user, ContentBlock, RequestMessage}
use sandbx.Session.{Message, same_role}
use sandbx.Session.Shape.{alternating, opens, joins, answers_only, asks_only}
use sandbx.Session.Bridge.Runs.{
  differ, blocks, separated, unrepeated, backwards, starts_on_user, blocks-oldest_first,
  separated-replace, starts-replace, starts-push, separated-oldest_first,
}
use sandbx.Session.Bridge.{
  request_role, request_history, Merging, joins_run, place, run_at, merge_step, merge_from,
  merge_user_runs,
}

joins-unrepeated :
    (r r' : sandbx.Session.Role) (b c : Bool)
    → (not (same_role r r') || (same_role r sandbx.Session.user && b && c)) ≡ true
    → (is_user (request_role r) || is_user (request_role r')) ≡ true
joins-unrepeated sandbx.Session.user r' b c e = refl
joins-unrepeated sandbx.Session.assistant sandbx.Session.user b c e = refl
joins-unrepeated sandbx.Session.assistant sandbx.Session.assistant b c e = cc

opens-user :
    (r : sandbx.Session.Role)
    → not (same_role r sandbx.Session.assistant) ≡ true
    → is_user (request_role r) ≡ true
opens-user sandbx.Session.user e = refl
opens-user sandbx.Session.assistant e = cc

module _ {Json : Type 0} where
  place-backwards :
      (onto : Bool) (index : ℕ) (m : RequestMessage Json) (ms : List (RequestMessage Json))
      (os : List ℕ) (floor : ℕ)
      → backwards (place onto index m ms os floor).merged ≡ backwards ms ++ m.content
  place-backwards true index m (p ∷ ms) (o ∷ os) floor =
      sym (append_assoc (backwards ms) p.content m.content)
  place-backwards false index m ms os floor = refl
  place-backwards true index m [] os floor = refl
  place-backwards true index m (p ∷ ms) [] floor = refl

  merge_from-backwards :
      (withheld index : ℕ) (ms : List (RequestMessage Json)) (s : Merging Json)
      → backwards (merge_from withheld index ms s).merged ≡ backwards s.merged ++ blocks ms
  unfolding merge_from merge_step
  merge_from-backwards withheld index [] s = sym (append-nil (backwards s.merged))
  merge_from-backwards withheld index (m ∷ ms) s =
      merge_from-backwards withheld (suc index) ms (merge_step withheld index m s)
      ∙ ap (λ bs. bs ++ blocks ms)
          (place-backwards (joins_run m s.merged) index m s.merged s.opens (
            if index == withheld then run_at (joins_run m s.merged) (length s.merged) else s.floor))
      ∙ append_assoc (backwards s.merged) m.content (blocks ms)

  abbrev upcoming :
      List (RequestMessage Json) → List (RequestMessage Json) → List (RequestMessage Json)
  upcoming [] ms = ms
  upcoming (p ∷ merged) ms = p ∷ ms

  abbrev earliest :
      List (RequestMessage Json) → List (RequestMessage Json) → List (RequestMessage Json)
  earliest [] ms = ms
  earliest (p ∷ merged) ms = oldest_first (p ∷ merged)

  -- What the loop keeps, with the messages still to come.
  record IsMerging (merged : List (RequestMessage Json)) (os : List ℕ)
      (ms : List (RequestMessage Json)) : Type 0 where
    pub apart : separated merged ≡ true
    pub opened : is_empty os ≡ is_empty merged
    pub starts : starts_on_user (earliest merged ms) ≡ true
    pub ahead : unrepeated (upcoming merged ms) ≡ true

  unrepeated-behind :
      (p m : RequestMessage Json) (ms : List (RequestMessage Json))
      → is_user p.role ≡ true
      → unrepeated (m ∷ ms) ≡ true
      → unrepeated (p ∷ ms) ≡ true
  unrepeated-behind p m [] u e = refl
  unrepeated-behind p m (n ∷ ms) u e = ground arith

  push-IsMerging :
      (p m : RequestMessage Json) (merged ms : List (RequestMessage Json)) (o i : ℕ) (os : List ℕ)
      → (is_user m.role && is_user p.role) ≡ false
      → IsMerging (p ∷ merged) (o ∷ os) (m ∷ ms)
      → IsMerging (m ∷ p ∷ merged) (i ∷ o ∷ os) ms
  push-IsMerging p m merged ms o i os j k =
      let (u, e) = &&_true (is_user p.role || is_user m.role) (unrepeated (m ∷ ms)) k.ahead in
      let d : differ m.role p.role ≡ true = ground arith in
      record {
        apart = rw d (k.apart);
        opened = refl;
        starts = starts-push (oldest_first merged) p m ∙ k.starts;
        ahead = e;
      }

  onto-IsMerging :
      (p m : RequestMessage Json) (merged ms : List (RequestMessage Json)) (o i : ℕ) (os : List ℕ)
      (c : List (ContentBlock Json))
      → (is_user m.role && is_user p.role) ≡ true
      → IsMerging (p ∷ merged) (o ∷ os) (m ∷ ms)
      → IsMerging (record p { content = c } ∷ merged) (i ∷ os) ms
  onto-IsMerging p m merged ms o i os c j k =
      let (um, up) = &&_true (is_user m.role) (is_user p.role) j in
      let (u, e) = &&_true (is_user p.role || is_user m.role) (unrepeated (m ∷ ms)) k.ahead in
      record {
        apart = separated-replace p c merged ∙ k.apart;
        opened = refl;
        starts = starts-replace p c (oldest_first merged) ∙ k.starts;
        ahead = unrepeated-behind (record p { content = c }) m ms up e;
      }

  step-IsMerging :
      (index floor : ℕ) (m : RequestMessage Json) (merged ms : List (RequestMessage Json))
      (os : List ℕ)
      → IsMerging merged os (m ∷ ms)
      → let s = place (joins_run m merged) index m merged os floor in IsMerging s.merged s.opens ms
  step-IsMerging index floor m [] ms [] k = record {
    apart = refl;
    opened = refl;
    starts = k.starts;
    ahead = k.ahead;
  }
  step-IsMerging index floor m [] ms (o ∷ os) k = cc (k.opened)
  step-IsMerging index floor m (p ∷ merged) ms [] k = cc (k.opened)
  step-IsMerging index floor m (p ∷ merged) ms (o ∷ os) k =
      elim (Bool-cases (is_user m.role && is_user p.role)) [
        | inl j ↦ rw j (onto-IsMerging p m merged ms o _ os (p.content ++ m.content) j k)
        | inr j ↦ rw j (push-IsMerging p m merged ms o index os j k)
      ]

  merge_from-IsMerging :
      (withheld index : ℕ) (ms : List (RequestMessage Json)) (s : Merging Json)
      → IsMerging s.merged s.opens ms
      → let r = merge_from withheld index ms s in IsMerging r.merged r.opens []
  unfolding merge_from merge_step
  merge_from-IsMerging withheld index [] s k = k
  merge_from-IsMerging withheld index (m ∷ ms) s k =
      merge_from-IsMerging withheld (suc index) ms (merge_step withheld index m s) (
        step-IsMerging index
          (if index == withheld then run_at (joins_run m s.merged) (length s.merged) else s.floor) m
          s.merged ms s.opens k)

  request_history-unrepeated :
      (ms : List (Message Json)) → alternating ms ≡ true → unrepeated (request_history ms) ≡ true
  unfolding request_history alternating joins
  request_history-unrepeated [] e = refl
  request_history-unrepeated (m ∷ []) e = refl
  request_history-unrepeated (m ∷ n ∷ ms) e =
      let (j, es) = &&_true (joins m n) (alternating (n ∷ ms)) e in
      rw (joins-unrepeated m.role n.role (answers_only m) (asks_only n) (unfold joins in j))
        (request_history-unrepeated (n ∷ ms) es)

  request_history-starts :
      (ms : List (Message Json)) → opens ms ≡ true → starts_on_user (request_history ms) ≡ true
  unfolding request_history opens
  request_history-starts [] e = refl
  request_history-starts (m ∷ ms) e = opens-user m.role e

  earliest-done : (xs : List (RequestMessage Json)) → earliest xs [] ≡ oldest_first xs
  earliest-done [] = refl
  earliest-done (x ∷ xs) = refl

  -- The messages of a transcript that `resume` takes, merged for a request: the sides take turns, the
  -- user's first, and the blocks are those of the transcript in their order, wherever the floor is.
  pub merge_user_runs-alternates :
      (stored : List (Message Json)) (withheld : ℕ)
      → alternating stored ≡ true
      → opens stored ≡ true
      → let merged = merge_user_runs (request_history stored) withheld in
        (separated merged.history ≡ true)
        × (starts_on_user merged.history ≡ true)
        × (blocks merged.history ≡ blocks (request_history stored))
  unfolding merge_user_runs
  merge_user_runs-alternates stored withheld a o =
      let h = request_history stored in
      let s = merge_from withheld 0 h (record { merged = []; opens = []; floor = withheld }) in
      let k : IsMerging s.merged s.opens [] = merge_from-IsMerging withheld 0 h _ (record {
        apart = refl;
        opened = refl;
        starts = request_history-starts stored o;
        ahead = request_history-unrepeated stored a;
      }) in
      (
        separated-oldest_first s.merged k.apart,
        ap starts_on_user (sym (earliest-done s.merged)) ∙ k.starts,
        blocks-oldest_first s.merged ∙ merge_from-backwards withheld 0 h _,
      )
