-- ===== src/Compact/Window.antt =====
-- What a request carries after a cut is a conversation that the API accepts.
use sandbx.Common.{
  ℕ, zero, suc, true, not, List, [], ◌∷◌, some, ◌≡◌, ◌≢◌, refl, ap, Bytes, ltb, ltb_pos, &&_true,
  get_elem?, drop, any, retain, retain-ne-nil,
}
use sandbx.Prompt.{
  Role, assistant, ContentBlock, tool_use, tool_result, RequestMessage, is_result, is_user,
}
use sandbx.Prompt.Conversation.{call_ids, result_ids, Follows, IsConversation, end_role, end_calls}
use sandbx.Compact.{opens_on, shed_first, opens_a_request, window}

module _ {Json : Type 0} where
  kept : List (ContentBlock Json) → List (ContentBlock Json)
  kept bs = retain (λ b. not (is_result b)) bs

  result_ids-kept : (bs : List (ContentBlock Json)) → result_ids (kept bs) ≡ []
  unfolding kept
  result_ids-kept [] = refl
  result_ids-kept (tool_use id _ _ ∷ bs) = result_ids-kept bs
  result_ids-kept (tool_result id _ _ ∷ bs) = result_ids-kept bs
  result_ids-kept (_ ∷ bs) = result_ids-kept bs

  call_ids-kept : (bs : List (ContentBlock Json)) → call_ids (kept bs) ≡ call_ids bs
  unfolding kept
  call_ids-kept [] = refl
  call_ids-kept (tool_use id _ _ ∷ bs) = ap (◌∷◌ id) (call_ids-kept bs)
  call_ids-kept (tool_result id _ _ ∷ bs) = call_ids-kept bs
  call_ids-kept (_ ∷ bs) = call_ids-kept bs

  opens_on-user :
      (m : RequestMessage Json)
      → opens_on (some m) ≡ true
      → (m.role ≢ assistant) × (kept m.content ≢ [])
  unfolding kept
  opens_on-user m e =
      let f = &&_true (is_user m.role) (any (λ b. not (is_result b)) m.content) e in
      ((λ q. cc (rw q at f.0)), retain-ne-nil _ m.content f.1)

  shed_first-IsConversation :
      (ms : List (RequestMessage Json)) (k : ℕ) (r : Role) (calls : List Bytes)
      → Follows r calls ms
      → opens_on (get_elem? ms k) ≡ true
      → IsConversation (shed_first (drop k ms))
  unfolding kept
  shed_first-IsConversation [] zero r calls f e = cc
  shed_first-IsConversation [] (suc k) r calls f e = cc
  shed_first-IsConversation (m ∷ ms) zero r calls f e =
      let u = opens_on-user m e in
      (u.0, u.1, rw (result_ids-kept m.content) tt, tt, rw (call_ids-kept m.content) f.4)
  shed_first-IsConversation (m ∷ ms) (suc k) r calls f e =
      shed_first-IsConversation ms k m.role (call_ids m.content) f.4 e

  -- Cutting a conversation at a legal cut, and shedding the results that the first message kept
  -- opens on, leaves a conversation.
  pub window-IsConversation :
      (ms : List (RequestMessage Json)) (cut : ℕ)
      → IsConversation ms
      → opens_a_request ms cut ≡ true
      → IsConversation (window ms cut)
  unfolding window opens_a_request
  window-IsConversation ms zero f e = f
  window-IsConversation ms (suc cut) f e = rw (ltb_pos cut) (
      shed_first-IsConversation ms (suc cut) assistant [] f
        (&&_true (ltb 0 (suc cut)) (opens_on (get_elem? ms (suc cut))) e).1)

  shed_first-ends :
      (ms : List (RequestMessage Json)) (k : ℕ) (r r' : Role) (calls calls' : List Bytes)
      → opens_on (get_elem? ms k) ≡ true
      → (end_role r' (shed_first (drop k ms)) ≡ end_role r ms)
        × (end_calls calls' (shed_first (drop k ms)) ≡ end_calls calls ms)
  unfolding kept
  shed_first-ends [] zero r r' calls calls' e = cc
  shed_first-ends [] (suc k) r r' calls calls' e = cc
  shed_first-ends (m ∷ ms) zero r r' calls calls' e =
      (refl, ap (λ c. end_calls c ms) (call_ids-kept m.content))
  shed_first-ends (m ∷ ms) (suc k) r r' calls calls' e =
      shed_first-ends ms k m.role r' (call_ids m.content) calls' e

  -- A legal cut leaves the end of a conversation as it was.
  pub window-ends :
      (ms : List (RequestMessage Json)) (cut : ℕ)
      → opens_a_request ms cut ≡ true
      → (end_role assistant (window ms cut) ≡ end_role assistant ms)
        × (end_calls [] (window ms cut) ≡ end_calls [] ms)
  unfolding window opens_a_request
  window-ends ms zero e = (refl, refl)
  window-ends ms (suc cut) e = rw (ltb_pos cut) (
      shed_first-ends ms (suc cut) assistant assistant [] []
        (&&_true (ltb 0 (suc cut)) (opens_on (get_elem? ms (suc cut))) e).1)

  -- Cutting nothing carries all of the history.
  pub window-zero : (ms : List (RequestMessage Json)) → window ms 0 ≡ ms
  unfolding window
  window-zero ms = refl
