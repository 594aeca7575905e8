-- ===== src/Turn/Run/Strip.antt =====
-- `drop_thinking`: it takes reasoning out of a conversation, and leaves a conversation.
use sandbx.Common.{
  Bool, true, not, List, [], ◌∷◌, map, ◌≡◌, refl, ap, ◌∙◌, Bytes, arith, all, any, retain, is_empty,
  retain-ne-nil, all-retain, &&_true,
}
use sandbx.Prompt.{Role, user, ContentBlock, tool_use, tool_result, RequestMessage, is_thinking}
use sandbx.Prompt.Conversation.{call_ids, result_ids, Follows, end_role, end_calls}
use sandbx.Turn.Run.{strip, drop_thinking}

module _ {Json : Type 0} where
  -- A message with something besides reasoning in it.
  abbrev pub is_solid : RequestMessage Json → Bool
  is_solid m = any (λ b. not (is_thinking b)) m.content

  -- No reasoning in any message.
  abbrev pub has_no_thinking : List (RequestMessage Json) → Bool
  has_no_thinking = all (λ m. all (λ b. not (is_thinking b)) m.content)

  abbrev unthinking : List (ContentBlock Json) → List (ContentBlock Json)
  unthinking bs = retain (λ b. not (is_thinking b)) bs

  result_ids-unthinking :
      (bs : List (ContentBlock Json)) → result_ids (unthinking bs) ≡ result_ids bs
  result_ids-unthinking [] = refl
  result_ids-unthinking (tool_result id _ _ ∷ bs) = ap (◌∷◌ id) (result_ids-unthinking bs)
  result_ids-unthinking (_ ∷ bs) = result_ids-unthinking bs

  call_ids-unthinking : (bs : List (ContentBlock Json)) → call_ids (unthinking bs) ≡ call_ids bs
  call_ids-unthinking [] = refl
  call_ids-unthinking (tool_use id _ _ ∷ bs) = ap (◌∷◌ id) (call_ids-unthinking bs)
  call_ids-unthinking (_ ∷ bs) = call_ids-unthinking bs

  any-unthinking :
      (bs : List (ContentBlock Json))
      → any (λ b. not (is_thinking b)) (unthinking bs) ≡ any (λ b. not (is_thinking b)) bs
  any-unthinking [] = refl
  any-unthinking (b ∷ bs) = ground (arith, any-unthinking bs)

  solid-strip : (ms : List (RequestMessage Json)) → all is_solid (map strip ms) ≡ all is_solid ms
  solid-strip [] = refl
  solid-strip (m ∷ ms) = rw (any-unthinking m.content, solid-strip ms)

  ne_nil-solid :
      (bs : List (ContentBlock Json))
      → any (λ b. not (is_thinking b)) bs ≡ true
      → not (is_empty (unthinking bs)) ≡ true
  ne_nil-solid [] h = cc
  ne_nil-solid (b ∷ bs) h = ground (arith, ne_nil-solid bs)

  pub drop_thinking-solid :
      (ms : List (RequestMessage Json)) → all is_solid ms ≡ true → drop_thinking ms ≡ map strip ms
  unfolding drop_thinking
  drop_thinking-solid [] h = refl
  drop_thinking-solid (m ∷ ms) h =
      let (a, b) = &&_true (is_solid m) (all is_solid ms) h in
      rw (ne_nil-solid m.content a) (ap (◌∷◌ (strip m)) (drop_thinking-solid ms b))

  map-strip-Follows :
      (r : Role) (calls : List Bytes) (ms : List (RequestMessage Json))
      → all is_solid ms ≡ true
      → Follows r calls ms
      → Follows r calls (map strip ms)
  map-strip-Follows r calls [] h f = tt
  map-strip-Follows r calls (m ∷ ms) h f =
      let (a, b) = &&_true (is_solid m) (all is_solid ms) h in
      rw (result_ids-unthinking m.content, call_ids-unthinking m.content)
        (
          f.0,
          retain-ne-nil _ m.content a,
          f.2,
          f.3,
          map-strip-Follows m.role (call_ids m.content) ms b f.4,
        )

  end_role-strip :
      (r : Role) (ms : List (RequestMessage Json)) → end_role r (map strip ms) ≡ end_role r ms
  end_role-strip r [] = refl
  end_role-strip r (m ∷ ms) = end_role-strip m.role ms

  end_calls-strip :
      (calls : List Bytes) (ms : List (RequestMessage Json))
      → end_calls calls (map strip ms) ≡ end_calls calls ms
  end_calls-strip calls [] = refl
  end_calls-strip calls (m ∷ ms) =
      end_calls-strip (call_ids (unthinking m.content)) ms
      ∙ ap (λ c. end_calls c ms) (call_ids-unthinking m.content)

  -- What a turn has produced so far: it goes on from a user turn with no open call, to the state `r`
  -- and `calls`, and each message holds more than reasoning.
  pub record Produced (r : Role) (calls : List Bytes) (ms : List (RequestMessage Json))
      : Type 0 where
    pub follows : Follows user [] ms
    pub ends : end_role user ms ≡ r
    pub leaves : end_calls [] ms ≡ calls
    pub solid : all is_solid ms ≡ true

  -- Dropping the reasoning keeps all of that.
  pub drop_thinking-Produced :
      (r : Role) (calls : List Bytes) (ms : List (RequestMessage Json))
      → Produced r calls ms
      → Produced r calls (drop_thinking ms)
  drop_thinking-Produced r calls ms p = rw (drop_thinking-solid ms p.solid) (record {
    follows = map-strip-Follows user [] ms p.solid p.follows;
    ends = end_role-strip user ms ∙ p.ends;
    leaves = end_calls-strip [] ms ∙ p.leaves;
    solid = solid-strip ms ∙ p.solid;
  })

  pub drop_thinking-no_thinking :
      (ms : List (RequestMessage Json)) → has_no_thinking (drop_thinking ms) ≡ true
  unfolding drop_thinking
  drop_thinking-no_thinking [] = refl
  drop_thinking-no_thinking (m ∷ ms) =
      ground (arith, all-retain (λ b. not (is_thinking b)) m.content, drop_thinking-no_thinking ms)
