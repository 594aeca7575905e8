-- ===== src/Session/Shape.antt =====
-- crates/sandbx-session-store/src/shape.rs: which orders of messages a transcript may hold.
pub mod Append
use sandbx.Common.{
  Bool, true, false, not, ◌&&◌, ◌||◌, List, [], ◌∷◌, Option, none, some, is_empty, all, any, last?,
}
use sandbx.Session.{Role, user, assistant, Message, same_role, is_result}

module _ {Json : Type 0} where
  unfoldable pub answers_only : Message Json → Bool
  answers_only m = not (is_empty m.content) && all is_result m.content

  unfoldable pub asks_only : Message Json → Bool
  asks_only m = not (is_empty m.content) && not (any is_result m.content)

  unfoldable pub joins : Message Json → Message Json → Bool
  joins earlier later =
      not (same_role earlier.role later.role)
      || (same_role earlier.role user && answers_only earlier && asks_only later)

  -- `messages.windows(2).all(..)`.
  unfoldable pub alternating : List (Message Json) → Bool
  alternating [] = true
  alternating (m ∷ []) = true
  alternating (m ∷ n ∷ ms) = joins m n && alternating (n ∷ ms)

  unfoldable pub opens : List (Message Json) → Bool
  opens [] = true
  opens (m ∷ ms) = not (same_role m.role assistant)

  abbrev follow : Option (Message Json) → List (Message Json) → Bool
  follow (some last) (first ∷ rest) = joins last first
  follow none batch = opens batch
  follow (some last) [] = true

  unfoldable pub follows : List (Message Json) → List (Message Json) → Bool
  follows stored batch = follow (last? stored) batch

  abbrev ends_on_reply : Option (Message Json) → Bool
  ends_on_reply none = false
  ends_on_reply (some m) = same_role m.role assistant

  unfoldable pub settled : List (Message Json) → Bool
  settled messages = ends_on_reply (last? messages)

  abbrev last_answers : Option (Message Json) → Bool
  last_answers none = false
  last_answers (some m) = answers_only m

  unfoldable pub resumable : List (Message Json) → Bool
  unfolding settled
  resumable messages = settled messages || last_answers (last? messages)
