-- ===== src/Session/Shape/Append.antt =====
-- A batch that `append` lets through leaves a history that `resume` lets through.
use sandbx.Common.{
  true, false, not, ◌&&◌, ◌||◌, List, [], ◌∷◌, ◌++◌, ◌≡◌, refl, ap, ◌∙◌, arith, last?, inl, inr,
  ◌⊎◌, is_empty, any, all, &&_true,
}
use sandbx.Session.{Content, is_result, Message, user}
use sandbx.Session.Shape.{
  joins, alternating, opens, follow, follows, resumable, ends_on_reply, last_answers, asks_only,
  answers_only,
}

module _ {Json : Type 0} where
  -- What `resume` asks of a history that is not empty.
  pub record IsStored (ms : List (Message Json)) : Type 0 where
    pub resumes : resumable ms ≡ true
    pub alternates : alternating ms ≡ true
    pub opening : opens ms ≡ true

  pub last?-append :
      (xs : List (Message Json)) (y : Message Json) (ys : List (Message Json))
      → last? (xs ++ y ∷ ys) ≡ last? (y ∷ ys)
  last?-append [] y ys = refl
  last?-append (x ∷ []) y ys = refl
  last?-append (x ∷ z ∷ xs) y ys = last?-append (z ∷ xs) y ys

  alternating-append :
      (x : Message Json) (xs : List (Message Json)) (y : Message Json) (ys : List (Message Json))
      → alternating (x ∷ xs) ≡ true
      → follow (last? (x ∷ xs)) (y ∷ ys) ≡ true
      → alternating (y ∷ ys) ≡ true
      → alternating (x ∷ (xs ++ y ∷ ys)) ≡ true
  unfolding alternating
  alternating-append x [] y ys a j b = rw (j, b)
  alternating-append x (z ∷ xs) y ys a j b =
      let (p, q) = &&_true (joins x z) (alternating (z ∷ xs)) a in
      rw p (alternating-append z xs y ys q j b)

  resumable-append :
      (xs : List (Message Json)) (y : Message Json) (ys : List (Message Json))
      → resumable (xs ++ y ∷ ys) ≡ resumable (y ∷ ys)
  unfolding resumable
  resumable-append xs y ys = ap (λ o. ends_on_reply o || last_answers o) (last?-append xs y ys)

  -- The checks of `append` on a batch that is not empty, over a history that is empty or stored,
  -- are enough for all that `resume` asks of the history with the batch at its end.
  pub append-IsStored :
      (stored : List (Message Json)) (y : Message Json) (ys : List (Message Json))
      → (stored ≡ []) ⊎ IsStored stored
      → resumable (y ∷ ys) ≡ true
      → alternating (y ∷ ys) ≡ true
      → follows stored (y ∷ ys) ≡ true
      → IsStored (stored ++ y ∷ ys)
  unfolding follows
  append-IsStored [] y ys s r a f = record { resumes = r; alternates = a; opening = f }
  append-IsStored (x ∷ xs) y ys (inl e) r a f = cc
  append-IsStored (x ∷ xs) y ys (inr s) r a f = record {
    resumes = resumable-append (x ∷ xs) y ys ∙ r;
    alternates = alternating-append x xs y ys s.alternates f a;
    opening = unfold opens in s.opening;
  }

  asks-answers :
      (bs : List (Content Json))
      → (not (is_empty bs) && not (any is_result bs)) ≡ true
      → (not (is_empty bs) && all is_result bs) ≡ false
  asks-answers [] e = refl
  asks-answers (b ∷ bs) e = ground arith

  prompt-resumable :
      (m : Message Json) → m.role ≡ user → asks_only m ≡ true → resumable (m ∷ []) ≡ false
  unfolding resumable answers_only asks_only
  prompt-resumable m u e = rw (u, asks-answers m.content e)

  -- A history cut off behind a prompt is no history that `resume` takes.
  pub resumable-prompt :
      (stored : List (Message Json)) (m : Message Json)
      → m.role ≡ user
      → asks_only m ≡ true
      → resumable (stored ++ m ∷ []) ≡ false
  resumable-prompt stored m u e = resumable-append stored m [] ∙ prompt-resumable m u e
