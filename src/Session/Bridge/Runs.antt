-- ===== src/Session/Bridge/Runs.antt =====
-- Histories by side: which follow each other, from either end.
use sandbx.Common.{
  oldest_first, Bool, true, not, ◌&&◌, ◌||◌, List, [], ◌∷◌, ◌++◌, ◌≡◌, refl, sym, ap, ◌∙◌, arith,
  &&_true, if◌then◌else◌,
}
use mathlib.Core.List.{append-nil, append_assoc}
use sandbx.Prompt.{Role, is_user, ContentBlock, RequestMessage}

abbrev pub differ : Role → Role → Bool
differ r r' = if is_user r then not (is_user r') else is_user r'

differ_comm : (r r' : Role) → differ r r' ≡ differ r' r
differ_comm r r' = ground arith

module _ {Json : Type 0} where
  -- All the blocks of a history, in order.
  abbrev pub blocks : List (RequestMessage Json) → List (ContentBlock Json)
  blocks [] = []
  blocks (m ∷ ms) = m.content ++ blocks ms

  -- No two messages on end are from one side.
  abbrev pub separated : List (RequestMessage Json) → Bool
  separated [] = true
  separated (m ∷ []) = true
  separated (m ∷ n ∷ ms) = differ m.role n.role && separated (n ∷ ms)

  -- No two messages on end are replies.
  abbrev pub unrepeated : List (RequestMessage Json) → Bool
  unrepeated [] = true
  unrepeated (m ∷ []) = true
  unrepeated (m ∷ n ∷ ms) = (is_user m.role || is_user n.role) && unrepeated (n ∷ ms)

  abbrev pub backwards : List (RequestMessage Json) → List (ContentBlock Json)
  backwards [] = []
  backwards (m ∷ ms) = backwards ms ++ m.content

  abbrev pub starts_on_user : List (RequestMessage Json) → Bool
  starts_on_user [] = true
  starts_on_user (m ∷ ms) = is_user m.role

  blocks-append : (xs ys : List (RequestMessage Json)) → blocks (xs ++ ys) ≡ blocks xs ++ blocks ys
  blocks-append [] ys = refl
  blocks-append (x ∷ xs) ys =
      ap (◌++◌ x.content) (blocks-append xs ys)
      ∙ sym (append_assoc x.content (blocks xs) (blocks ys))

  pub blocks-oldest_first :
      (xs : List (RequestMessage Json)) → blocks (oldest_first xs) ≡ backwards xs
  blocks-oldest_first [] = refl
  blocks-oldest_first (x ∷ xs) =
      blocks-append (oldest_first xs) (x ∷ [])
      ∙ rw (blocks-oldest_first xs, append-nil x.content) refl

  pub separated-replace :
      (p : RequestMessage Json) (c : List (ContentBlock Json)) (ms : List (RequestMessage Json))
      → separated (record p { content = c } ∷ ms) ≡ separated (p ∷ ms)
  separated-replace p c [] = refl
  separated-replace p c (n ∷ ms) = refl

  pub starts-replace :
      (p : RequestMessage Json) (c : List (ContentBlock Json)) (zs : List (RequestMessage Json))
      → starts_on_user (zs ++ record p { content = c } ∷ []) ≡ starts_on_user (zs ++ p ∷ [])
  starts-replace p c [] = refl
  starts-replace p c (z ∷ zs) = refl

  pub starts-push :
      (zs : List (RequestMessage Json)) (p m : RequestMessage Json)
      → starts_on_user ((zs ++ p ∷ []) ++ m ∷ []) ≡ starts_on_user (zs ++ p ∷ [])
  starts-push [] p m = refl
  starts-push (z ∷ zs) p m = refl

  pub separated-push :
      (zs : List (RequestMessage Json)) (p m : RequestMessage Json)
      → separated ((zs ++ p ∷ []) ++ m ∷ []) ≡ (separated (zs ++ p ∷ []) && differ p.role m.role)
  separated-push [] p m = ground arith
  separated-push (z ∷ []) p m = ground arith
  separated-push (z ∷ y ∷ zs) p m = rw (separated-push (y ∷ zs) p m) (ground arith)

  pub separated-oldest_first :
      (xs : List (RequestMessage Json)) → separated xs ≡ true → separated (oldest_first xs) ≡ true
  separated-oldest_first [] e = refl
  separated-oldest_first (x ∷ []) e = refl
  separated-oldest_first (x ∷ p ∷ xs) e =
      let (d, es) = &&_true (differ x.role p.role) (separated (p ∷ xs)) e in
      separated-push (oldest_first xs) p x
      ∙ rw (separated-oldest_first (p ∷ xs) es) (differ_comm p.role x.role ∙ d)
