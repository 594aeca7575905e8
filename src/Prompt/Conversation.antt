-- ===== src/Prompt/Conversation.antt =====
-- What the Messages API accepts as a conversation.
use sandbx.Common.{true, List, [], ◌∷◌, ◌++◌, ◌≡◌, ◌≢◌, refl, ap, Bytes, AllIn, all}
use sandbx.Prompt.{Role, assistant, ContentBlock, tool_use, tool_result, RequestMessage, is_result}

module _ {Json : Type 0} where
  abbrev pub call_ids : List (ContentBlock Json) → List Bytes
  call_ids [] = []
  call_ids (tool_use id _ _ ∷ bs) = id ∷ call_ids bs
  call_ids (_ ∷ bs) = call_ids bs

  abbrev pub result_ids : List (ContentBlock Json) → List Bytes
  result_ids [] = []
  result_ids (tool_result id _ _ ∷ bs) = id ∷ result_ids bs
  result_ids (_ ∷ bs) = result_ids bs

  -- The rules of a request, as crates/sandbx-compact/src/lib.rs and
  -- crates/sandbx-session-store/src/shape.rs name them: `ms` may follow a message of
  -- role `r` that made the calls `calls`. Roles alternate, no message is empty, every call is
  -- answered by the next message, and no result answers a call that the message before did not make.
  abbrev pub Follows : Role → List Bytes → List (RequestMessage Json) → Type 0
  Follows r calls [] = Unit {0}
  Follows r calls (m ∷ ms) =
      (m.role ≢ r)
      × (m.content ≢ [])
      × AllIn (result_ids m.content) calls
      × AllIn calls (result_ids m.content)
      × Follows m.role (call_ids m.content) ms

  -- A conversation opens on a user turn.
  abbrev pub IsConversation : List (RequestMessage Json) → Type 0
  IsConversation ms = Follows assistant [] ms

  pub call_ids-append :
      (xs ys : List (ContentBlock Json)) → call_ids (xs ++ ys) ≡ call_ids xs ++ call_ids ys
  call_ids-append [] ys = refl
  call_ids-append (tool_use id _ _ ∷ xs) ys = ap (◌∷◌ id) (call_ids-append xs ys)
  call_ids-append (_ ∷ xs) ys = call_ids-append xs ys

  pub result_ids-append :
      (xs ys : List (ContentBlock Json)) → result_ids (xs ++ ys) ≡ result_ids xs ++ result_ids ys
  result_ids-append [] ys = refl
  result_ids-append (tool_result id _ _ ∷ xs) ys = ap (◌∷◌ id) (result_ids-append xs ys)
  result_ids-append (_ ∷ xs) ys = result_ids-append xs ys

  -- The role and the calls that the last message leaves for the next one.
  abbrev pub end_role : Role → List (RequestMessage Json) → Role
  end_role r [] = r
  end_role r (m ∷ ms) = end_role m.role ms

  abbrev pub end_calls : List Bytes → List (RequestMessage Json) → List Bytes
  end_calls calls [] = calls
  end_calls calls (m ∷ ms) = end_calls (call_ids m.content) ms

  pub Follows-append :
      (r : Role) (calls : List Bytes) (ms ps : List (RequestMessage Json))
      → Follows r calls ms
      → Follows (end_role r ms) (end_calls calls ms) ps
      → Follows r calls (ms ++ ps)
  Follows-append r calls [] ps f g = g
  Follows-append r calls (m ∷ ms) ps f g =
      (f.0, f.1, f.2, f.3, Follows-append m.role (call_ids m.content) ms ps f.4 g)

  pub end_role-append :
      (r : Role) (ms ps : List (RequestMessage Json))
      → end_role r (ms ++ ps) ≡ end_role (end_role r ms) ps
  end_role-append r [] ps = refl
  end_role-append r (m ∷ ms) ps = end_role-append m.role ms ps

  pub end_calls-append :
      (calls : List Bytes) (ms ps : List (RequestMessage Json))
      → end_calls calls (ms ++ ps) ≡ end_calls (end_calls calls ms) ps
  end_calls-append calls [] ps = refl
  end_calls-append calls (m ∷ ms) ps = end_calls-append (call_ids m.content) ms ps

  -- A block is a call or a result or neither, never both.
  pub call_ids-results :
      (bs : List (ContentBlock Json)) → all is_result bs ≡ true → call_ids bs ≡ []
  call_ids-results [] h = refl
  call_ids-results (tool_use id _ _ ∷ bs) h = cc
  call_ids-results (tool_result id _ _ ∷ bs) h = call_ids-results bs h
  call_ids-results (_ ∷ bs) h = cc
