-- ===== src/Session/Bridge.antt =====
-- crates/sandbx-session-bridge/src/lib.rs: the translation between a transcript's messages and those of
-- a request, and the merge of user runs. A `Vec` that the merge pushes to is a list, newest first,
-- until it is done.
pub mod Runs
pub mod Merge
pub mod Translate
use sandbx.Common.{
  oldest_first, ℕ, zero, suc, ◌+◌, ◌-◌, Bool, true, false, not, ◌&&◌, List, [], ◌∷◌, ◌++◌, map,
  Option, none, some, ◌==◌, if◌then◌else◌, all, is_empty, length, get_elem?, retain,
}
use sandbx.Compact.{PromptUsage}
use sandbx.Prompt.{ContentBlock, RequestMessage, is_user, is_result}
use sandbx.Session.{
  Content, text, tool_use, tool_result, Message, Usage, TurnStop, answered, round_limit, summarised,
  gate_aborted, interrupted, hung_up,
}

-- The lines of `resume_note`, one for each of its arms.
pub data ResumeNote : Type 0 where
  out_of_rounds no_one_to_approve was_interrupted terminal_gone unexplained : ResumeNote

unfoldable pub resume_note : Bool → Option TurnStop → Option ResumeNote
resume_note false stop = none
resume_note true none = some unexplained
resume_note true (some round_limit) = some out_of_rounds
resume_note true (some gate_aborted) = some no_one_to_approve
resume_note true (some interrupted) = some was_interrupted
resume_note true (some hung_up) = some terminal_gone
resume_note true (some answered) = some unexplained
resume_note true (some summarised) = some unexplained

-- `request_usage` and `stored_usage`.
unfoldable pub request_usage : Usage → PromptUsage
request_usage stored = record {
  input_tokens = stored.input_tokens;
  cache_read_tokens = stored.cache_read_input_tokens;
  cache_write_tokens = stored.cache_creation_input_tokens;
}

unfoldable pub stored_usage : PromptUsage → Usage
stored_usage observed = record {
  input_tokens = observed.input_tokens;
  cache_read_input_tokens = observed.cache_read_tokens;
  cache_creation_input_tokens = observed.cache_write_tokens;
}

abbrev pub request_role : sandbx.Session.Role → sandbx.Prompt.Role
request_role sandbx.Session.user = sandbx.Prompt.user
request_role sandbx.Session.assistant = sandbx.Prompt.assistant

abbrev pub stored_role : sandbx.Prompt.Role → sandbx.Session.Role
stored_role sandbx.Prompt.user = sandbx.Session.user
stored_role sandbx.Prompt.assistant = sandbx.Session.assistant

pub record Merged (Json : Type 0) : Type 0 where
  pub history : List (RequestMessage Json)
  pub withheld : ℕ
  pub opens : List ℕ
  pub length : ℕ

-- The locals of `merge_user_runs`: `merged` and `opens`, newest first, and the floor.
pub record Merging (Json : Type 0) : Type 0 where
  pub merged : List (RequestMessage Json)
  pub opens : List ℕ
  pub floor : ℕ

-- `merged.len() - usize::from(onto)`.
abbrev pub run_at : Bool → ℕ → ℕ
run_at onto n = if onto then n - 1 else n

module _ {Json : Type 0} where
  abbrev pub request_block : Content Json → ContentBlock Json
  request_block (text t) = ContentBlock.text t
  request_block (tool_use id name input) = ContentBlock.tool_use id name input
  request_block (tool_result id content is_error) = ContentBlock.tool_result id content is_error

  abbrev pub request_message : Message Json → RequestMessage Json
  request_message m = record { role = request_role m.role; content = map request_block m.content }

  unfoldable pub request_history : List (Message Json) → List (RequestMessage Json)
  request_history stored = map request_message stored

  abbrev pub stored_block : ContentBlock Json → Option (Content Json)
  stored_block (ContentBlock.text t) = some (text t)
  stored_block (ContentBlock.tool_use id name input) = some (tool_use id name input)
  stored_block (ContentBlock.tool_result id content is_error) =
      some (tool_result id content is_error)
  stored_block (ContentBlock.thinking t signature) = none
  stored_block (ContentBlock.redacted_thinking blob) = none

  -- `.filter_map(stored_block).collect()`.
  abbrev pub stored_blocks : List (ContentBlock Json) → List (Content Json)
  stored_blocks [] = []
  stored_blocks (b ∷ bs) = elim (stored_block b) [
    | none ↦ stored_blocks bs
    | some c ↦ c ∷ stored_blocks bs
  ]

  abbrev pub stored_message : RequestMessage Json → Message Json
  stored_message m = record { role = stored_role m.role; content = stored_blocks m.content }

  unfoldable pub stored_messages : List (RequestMessage Json) → List (Message Json)
  stored_messages sent = retain (λ m. not (is_empty m.content)) (map stored_message sent)

  -- Whether a message goes onto the last one merged.
  abbrev pub joins_run : RequestMessage Json → List (RequestMessage Json) → Bool
  joins_run m [] = false
  joins_run m (previous ∷ rest) = is_user m.role && is_user previous.role

  -- The body's last `match`: onto the message before, or behind it.
  abbrev pub place :
      Bool → ℕ → RequestMessage Json → List (RequestMessage Json) → List ℕ → ℕ → Merging Json
  place true index m (previous ∷ merged) (opening ∷ opens) floor = record {
    merged = record previous { content = previous.content ++ m.content } ∷ merged;
    opens = (if all is_result previous.content then index else opening) ∷ opens;
    floor = floor;
  }
  place _ index m merged opens floor = record {
    merged = m ∷ merged;
    opens = index ∷ opens;
    floor = floor;
  }

  -- The body of the loop.
  unfoldable pub merge_step : ℕ → ℕ → RequestMessage Json → Merging Json → Merging Json
  merge_step withheld index m s =
      let onto = joins_run m s.merged in
      let floor = if index == withheld then run_at onto (length s.merged) else s.floor in
      place onto index m s.merged s.opens floor

  unfoldable pub merge_from : ℕ → ℕ → List (RequestMessage Json) → Merging Json → Merging Json
  merge_from withheld index [] s = s
  merge_from withheld index (m ∷ ms) s =
      merge_from withheld (suc index) ms (merge_step withheld index m s)

  unfoldable pub merge_user_runs : List (RequestMessage Json) → ℕ → Merged Json
  merge_user_runs history withheld =
      let s =
        merge_from withheld 0 history (record { merged = []; opens = []; floor = withheld }) in
      record {
        history = oldest_first s.merged;
        withheld = s.floor;
        opens = oldest_first s.opens;
        length = length history;
      }

  abbrev unmerged_at : Option ℕ → Merged Json → ℕ → ℕ
  unmerged_at none m withheld = m.length + (withheld - length m.opens)
  unmerged_at (some opening) m zero = 0
  unmerged_at (some opening) m (suc withheld) = opening

  -- `Merged::unmerged`.
  unfoldable pub unmerged : Merged Json → ℕ → ℕ
  unmerged m withheld = unmerged_at (get_elem? m.opens withheld) m withheld
