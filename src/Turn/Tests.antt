-- ===== src/Turn/Tests.antt =====
-- A turn of two rounds, with one tool call, and the theorems of this component at it. A value of
-- `World` shows that what the turn is run in can be had.
use sandbx.Common.{
  ℕ, zero, suc, true, false, List, [], ◌∷◌, Option, none, some, ◌≡◌, refl, codes, all, length, ◌≤◌,
  ◌⊎◌,
}
use sandbx.Compact.{plan_cut, opens_a_request, target, over_budget}
use sandbx.Event.{end_turn, AgentEvent}
use sandbx.Prompt.{user, assistant, ContentBlock, tool_use, tool_result, is_result, RequestMessage}
use sandbx.Prompt.Conversation.{call_ids, result_ids}
use sandbx.Tools.{BuiltinTool, ls, bash, from_name, same_tool}
use sandbx.Turn.{
  answered, Turn, TurnOutcome, World, Poll, event, stream, allow, deny, output, Await, ready,
}
use sandbx.Turn.Accumulate.{empty_draft, accumulate, Round}
use sandbx.Turn.Accumulate.Content.{last_usage}
use sandbx.Turn.Accumulate.Blocks.{described, reason_of, heard, observed, accumulate-described}
use sandbx.Turn.Answer.{Answers, answer_calls, answer_from, answer_block}
use sandbx.Turn.Answer.Exactly.{told_ids, answer_calls-exactly}
use sandbx.Turn.Answer.Gated.{Leaves, ByBlock, answer_calls-Guarded}
use sandbx.Turn.Run.{
  Pass, done, drop_thinking, outcome, plan, plan_with, mark_sent, drained, streamed, note_round,
  conclude, answer_round, take_round, after_stream, pass, run_rounds, run_turn_until,
}
use sandbx.Turn.Run.Rounds.{requests_of, is_over, ran_out, run_turn_until-Over}
use sandbx.Turn.Run.Legal.{IsReady, Good, run_turn_until-Good}

abbrev first_round : List (Poll ℕ)
first_round =
    event (AgentEvent.thinking_block (codes "hm") (codes "sig"))
    ∷ event (AgentEvent.text (codes "let me "))
    ∷ event (AgentEvent.text (codes "look"))
    ∷ event (AgentEvent.tool_call_requested (codes "c1") (codes "ls") 7)
    ∷ event (AgentEvent.usage (some 90) (some 3) none (some 20))
    ∷ event (AgentEvent.stop end_turn)
    ∷ []

abbrev second_round : List (Poll ℕ)
second_round = event (AgentEvent.text (codes "two files")) ∷ event (AgentEvent.stop end_turn) ∷ []

-- The state counts the streams opened. The gate denies `bash`.
abbrev small_world : World ℕ
small_world = record {
  State = ℕ;
  stops = λ n. false;
  open_stream =
      λ p n. elim n [ zero ↦ (stream first_round, 1) | suc k ↦ (stream second_round, suc (suc k)) ];
  observe = λ e n. n;
  approve = λ c n. elim c.tool [ BuiltinTool.bash ↦ (deny (codes "no"), n) | _ ↦ (allow, n) ];
  settled = λ s n. n;
  execute = λ c n. (output (codes "a b"), n);
  error_text = λ e. codes "error";
  describe = λ t. [];
  schema = λ t. 0;
}

abbrev question : List (RequestMessage ℕ)
question = record { role = user; content = ContentBlock.text (codes "what is here?") ∷ [] } ∷ []

abbrev small_turn : Turn ℕ
small_turn = record {
  model = codes "m";
  max_output_tokens = 100;
  system = none;
  tools = ls ∷ [];
  tool_choice = none;
  thinking = none;
  history = question;
  limits = record {
    max_rounds = 4;
    stream_timeout = 300_000;
    compaction = some (record { budget_tokens = 100; keep_recent = 1 });
  };
  observed = none;
  withheld = 0;
}

abbrev stop_of : Pass ℕ ℕ → Option (TurnOutcome ℕ)
stop_of (done o l) = some o
stop_of _ = none

small_turn_runs :
    stop_of (run_turn_until small_world small_turn 0)
    ≡ some (record {
      messages =
          record {
            role = assistant;
            content =
                ContentBlock.text (codes "let me look") ∷ tool_use (codes "c1") (codes "ls") 7 ∷ [];
          }
          ∷ record { role = user; content = tool_result (codes "c1") (codes "a b") none ∷ [] }
          ∷ record { role = assistant; content = ContentBlock.text (codes "two files") ∷ [] }
          ∷ [];
      usage = some (record {
        input_tokens = some 90;
        cache_read_tokens = some 20;
        cache_write_tokens = none;
      });
      withheld = 0;
      stop = answered;
      round_stop = some end_turn;
    })
unfolding run_turn_until run_rounds pass plan plan_with mark_sent streamed drained accumulate
    after_stream note_round take_round answer_round answer_from answer_block from_name same_tool
    conclude outcome drop_thinking plan_cut opens_a_request target over_budget
small_turn_runs = refl

question-IsReady : IsReady question
question-IsReady = record {
  conversation = ((λ e. cc), (λ e. cc), tt, tt, tt);
  ends = refl;
  leaves = refl;
}

run_turn_until-Good_example :
    Good small_world small_turn question-IsReady (run_turn_until small_world small_turn 0)
run_turn_until-Good_example = run_turn_until-Good small_world small_turn question-IsReady 0

run_turn_until-Over_example :
    let r = run_turn_until small_world small_turn 0 in
    (is_over r ≡ true)
    × (length (requests_of r) ≤ small_turn.limits.max_rounds)
    × ((ran_out r ≡ false) ⊎ (length (requests_of r) ≡ small_turn.limits.max_rounds))
run_turn_until-Over_example = run_turn_until-Over small_world small_turn 0

abbrev calls : List (ContentBlock ℕ)
calls =
    ContentBlock.text (codes "x")
    ∷ tool_use (codes "c1") (codes "ls") 7
    ∷ tool_use (codes "c2") (codes "bash") 8
    ∷ tool_use (codes "c3") (codes "rm") 9
    ∷ []

abbrev nothing_answered : Answers ℕ ℕ
nothing_answered = record { results = []; aborted = none; actions = []; state = 0 }

abbrev answers_of : Await (Unit {0}) (Answers ℕ ℕ) → Answers ℕ ℕ
answers_of (ready u a) = a
answers_of _ = nothing_answered

calls_answered :
    answer_calls small_world (ls ∷ bash ∷ []) calls 1
    ≡ ready tt (answers_of (answer_calls small_world (ls ∷ bash ∷ []) calls 1))
unfolding answer_from answer_block from_name same_tool
calls_answered = refl

calls_results :
    (answers_of (answer_calls small_world (ls ∷ bash ∷ []) calls 1)).results
    ≡ tool_result (codes "c1") (codes "a b") none
      ∷ tool_result (codes "c2") (codes "no") (some true)
      ∷ tool_result (codes "c3") (codes "unknown tool: rm") (some true)
      ∷ []
unfolding answer_from answer_block from_name same_tool
calls_results = refl

answer_calls-exactly_example :
    (result_ids (answers_of (answer_calls small_world (ls ∷ bash ∷ []) calls 1)).results
      ≡ call_ids calls)
    × (all is_result (answers_of (answer_calls small_world (ls ∷ bash ∷ []) calls 1)).results
        ≡ true)
    × (told_ids (answers_of (answer_calls small_world (ls ∷ bash ∷ []) calls 1)).actions
        ≡ call_ids calls)
answer_calls-exactly_example =
    answer_calls-exactly small_world (ls ∷ bash ∷ []) calls 1
      (answers_of (answer_calls small_world (ls ∷ bash ∷ []) calls 1)) calls_answered

answer_calls-Guarded_example :
    Leaves small_world
      (ls ∷ bash ∷ [])
      (ByBlock small_world (ls ∷ bash ∷ []) calls)
      (answer_calls small_world (ls ∷ bash ∷ []) calls 1)
answer_calls-Guarded_example = answer_calls-Guarded small_world (ls ∷ bash ∷ []) calls 1

abbrev first_blocks : Round ℕ
first_blocks = record {
  blocks =
      ContentBlock.thinking (codes "hm") (codes "sig")
      ∷ ContentBlock.text (codes "let me look")
      ∷ tool_use (codes "c1") (codes "ls") 7
      ∷ [];
  usage =
      some
        (record { input_tokens = some 90; cache_read_tokens = some 20; cache_write_tokens = none });
  reason = end_turn;
}

first_round_drained : accumulate small_world 9 first_round empty_draft 0 ≡ ready first_blocks 0
unfolding accumulate
first_round_drained = refl

accumulate-described_example :
    (first_blocks.blocks ≡ described first_round)
    × (first_blocks.usage ≡ last_usage none first_round)
    × (some first_blocks.reason ≡ reason_of first_round)
    × (0 ≡ observed small_world.observe (heard first_round) 0)
accumulate-described_example =
    accumulate-described small_world 9 first_round 0 0 first_blocks first_round_drained
