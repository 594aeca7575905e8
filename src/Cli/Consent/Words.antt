-- ===== src/Cli/Consent/Words.antt =====
-- What an operator has to type for a call to run.
use sandbx.Common.{
  Bool, true, false, ◌||◌, ◌&&◌, List, [], ◌∷◌, ◌++◌, ◌≡◌, refl, inl, inr, Option, none, some,
  Bytes, codes, str_eq, if◌then◌else◌, Bool-cases, arith,
}
use sandbx.Tools.{BuiltinTool, offers, same_tool}
use sandbx.Turn.{ToolCall, ApprovalDecision, allow, deny}
use sandbx.Cli.Consent.{
  trim, Exchange, unwritten, invalid_data, closed, typed, Consent, refused_text, decision_of,
  unless_decided, ask_loop, ask,
}

-- The answers that can be read, trimmed, up to where the channel ends.
abbrev pub answers : List Exchange → List Bytes
answers [] = []
answers (unwritten ∷ es) = []
answers (closed ∷ es) = []
answers (invalid_data ∷ es) = answers es
answers (typed a ∷ es) = trim a ∷ answers es

pub data Word : Type 0 where
  yes no all_calls : Word

abbrev pub word_of : Bytes → Option Word
word_of a =
    if str_eq a (codes "y") || str_eq a (codes "yes")
    then some yes
    else if str_eq a (codes "n") || str_eq a (codes "no")
    then some no
    else if str_eq a (codes "a") || str_eq a (codes "all")
    then some all_calls
    else none

-- The first of the answers that is a word.
abbrev pub first_word : List Bytes → Option Word
first_word [] = none
first_word (a ∷ more) = elim (word_of a) [ none ↦ first_word more | some w ↦ some w ]

abbrev pub approving : Option Word → Bool
approving (some yes) = true
approving (some all_calls) = true
approving _ = false

abbrev pub approving_all : Option Word → Bool
approving_all (some all_calls) = true
approving_all _ = false

abbrev pub is_allow : ApprovalDecision → Bool
is_allow allow = true
is_allow _ = false

pub offers-append :
    (xs : List BuiltinTool) (s t : BuiltinTool)
    → offers (xs ++ s ∷ []) t ≡ (offers xs t || same_tool s t)
offers-append [] s t = ground arith
offers-append (x ∷ xs) s t = ground (arith, offers-append xs s t)

module _ {Json : Type 0} (c : ToolCall Json) (k : Consent) where
  abbrev pub Agrees : Option Word → ApprovalDecision × Consent → Type 0
  Agrees w (d, after) =
      (is_allow d ≡ approving w)
      × ((t : BuiltinTool)
          → offers after.blanket t
            ≡ (offers k.blanket t || (approving_all w && same_tool c.tool t)))

  unchanged : (t : BuiltinTool) → offers k.blanket t ≡ (offers k.blanket t || false)
  unchanged t = ground arith

  -- Whether the answer is a yes, a no or an all, read in this order.
  by_word :
      (y n l : Bool) (w : Option Word) (rest : ApprovalDecision × Consent)
      → Agrees w rest
      → Agrees
          (elim (if y
            then some yes
            else if n
            then some no
            else if l
            then some all_calls
            else none) [ none ↦ w | some x ↦ some x ])
          (unless_decided
            (if y
              then some (allow, k)
              else if n
              then some (deny refused_text, k)
              else if l
              then some (allow, record { blanket = k.blanket ++ c.tool ∷ [] })
              else none)
            rest)
  by_word true n l w rest v = (refl, unchanged)
  by_word false true l w rest v = (refl, unchanged)
  by_word false false true w rest v = (refl, offers-append k.blanket c.tool)
  by_word false false false w rest v = v

  answer-Agrees :
      (a : Bytes) (more : List Bytes) (rest : ApprovalDecision × Consent)
      → Agrees (first_word more) rest
      → Agrees (first_word (a ∷ more)) (unless_decided (decision_of c k a) rest)
  unfolding decision_of
  answer-Agrees a more rest v = by_word _ _ _ (first_word more) rest v

  ask_loop-Agrees : (es : List Exchange) → Agrees (first_word (answers es)) (ask_loop c es k)
  unfolding ask_loop
  ask_loop-Agrees [] = (refl, unchanged)
  ask_loop-Agrees (unwritten ∷ es) = (refl, unchanged)
  ask_loop-Agrees (closed ∷ es) = (refl, unchanged)
  ask_loop-Agrees (invalid_data ∷ es) = ask_loop-Agrees es
  ask_loop-Agrees (typed a ∷ es) =
      answer-Agrees (trim a) (answers es) (ask_loop c es k) (ask_loop-Agrees es)

  -- A call runs unasked only under an earlier answer for its tool. Otherwise the first answer that is one
  -- of the six words decides: the call may run if and only if that is a yes or an all, and only an all
  -- carries over, to later calls of the same tool and of no other.
  pub ask-Agrees :
      (es : List Exchange)
      → let word = if offers k.blanket c.tool then none else first_word (answers es) in
        let r = ask c es k in
        (is_allow r.0 ≡ (offers k.blanket c.tool || approving word))
        × ((t : BuiltinTool)
            → offers r.1.blanket t
              ≡ (offers k.blanket t || (approving_all word && same_tool c.tool t)))
  unfolding ask
  ask-Agrees es = elim (Bool-cases (offers k.blanket c.tool)) [
    | inl b ↦ rw b (refl, unchanged)
    | inr b ↦ rw b (ask_loop-Agrees es)
  ]
