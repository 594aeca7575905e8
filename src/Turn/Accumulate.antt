-- ===== src/Turn/Accumulate.antt =====
-- crates/sandbx-turn/src/accumulate.rs: one round's blocks, out of the events that it arrives as.
pub mod Content
pub mod Blocks
use sandbx.Common.{ℕ, Bool, List, [], ◌∷◌, ◌++◌, Option, none, some, Bytes, is_empty, if◌then◌else◌}
use sandbx.Compact.{PromptUsage}
use sandbx.Event.{
  AgentEvent, text, thinking, thinking_block, redacted_thinking, tool_call_requested, usage, stop,
  StopReason,
}
use sandbx.Prompt.{ContentBlock}
use sandbx.Turn.{
  provider, stream_ended_without_stop, timed_out, Poll, event, failure, elapsed, World, Await,
  ready, failed,
}

pub record Round (Json : Type 0) : Type 0 where
  pub blocks : List (ContentBlock Json)
  pub usage : Option PromptUsage
  pub reason : StopReason

-- The locals of `accumulate`.
pub record Draft (Json : Type 0) : Type 0 where
  pub blocks : List (ContentBlock Json)
  pub pending : Bytes
  pub usage : Option PromptUsage

pub data Absorbed (Json : Type 0) : Type 0 where
  going : Draft Json → Absorbed Json
  ended : Round Json → Absorbed Json

module _ {Json : Type 0} where
  abbrev pub empty_draft : Draft Json
  empty_draft = record { blocks = []; pending = []; usage = none }

  abbrev pub flush : Draft Json → Draft Json
  flush d =
      if is_empty d.pending
      then d
      else record d { blocks = d.blocks ++ ContentBlock.text d.pending ∷ []; pending = [] }

  abbrev pub flush_push : Draft Json → ContentBlock Json → Draft Json
  flush_push d b = let f = flush d in record f { blocks = f.blocks ++ b ∷ [] }

  -- The body of the loop, after `observe`.
  unfoldable pub absorb : AgentEvent Json → Draft Json → Absorbed Json
  absorb (text delta) d = going (record d { pending = d.pending ++ delta })
  absorb (tool_call_requested id name input) d =
      going (flush_push d (ContentBlock.tool_use id name input))
  absorb (thinking_block t signature) d = going (flush_push d (ContentBlock.thinking t signature))
  absorb (redacted_thinking blob) d = going (flush_push d (ContentBlock.redacted_thinking blob))
  absorb (usage input output cache_write cache_read) d = going (record d {
    usage = some (record {
      input_tokens = input;
      cache_read_tokens = cache_read;
      cache_write_tokens = cache_write;
    });
  })
  absorb (stop reason) d =
      let f = flush d in ended (record { blocks = f.blocks; usage = f.usage; reason = reason })
  absorb (thinking delta) d = going d

  module _ (w : World Json) (stream_timeout : ℕ) where
    unfoldable pub accumulate : List (Poll Json) → Draft Json → w.State → Await (Round Json) w.State
    unfolding absorb
    accumulate [] d s = failed stream_ended_without_stop s
    accumulate (failure e ∷ ps) d s = failed (provider e) s
    accumulate (elapsed ∷ ps) d s = failed (timed_out stream_timeout) s
    accumulate (Poll.stopped ∷ ps) d s = Await.stopped s
    accumulate (event e ∷ ps) d s = elim (absorb e d) [
      | going d' ↦ accumulate ps d' (w.observe e s)
      | ended r ↦ ready r (w.observe e s)
    ]
