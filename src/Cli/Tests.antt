-- ===== src/Cli/Tests.antt =====
-- A run under `--allow-tool bash --approve call` whose one round asks for a tool, and text with what a
-- terminal would obey in it.
use sandbx.Common.{
  ℕ, zero, suc, true, false, List, [], ◌∷◌, ◌++◌, none, some, ◌≡◌, refl, Bytes, codes, map, ◌||◌,
  ◌&&◌,
}
use sandbx.Event.{end_turn, tool_use, AgentEvent}
use sandbx.Prompt.{user, ContentBlock, RequestMessage}
use sandbx.Tools.{BuiltinTool, bash, ls, offers, same_tool, failed}
use sandbx.Turn.{
  Turn, TurnError, World, Poll, event, stream, output, allow, ToolCall, Settled, Outcome,
  TurnOutcome,
}
use sandbx.Turn.Run.{run_turn_until}
use sandbx.Turn.Run.Legal.{IsReady}
use sandbx.Turn.Run.Heard.{actions_of}
use sandbx.Cli.Spelling.{spelled}
use sandbx.Cli.Spelling.RoundTrip.{unspelled, shown, unspelled-spelled}
use sandbx.Cli.Gate.{Values, ArgvGate, gated}
use sandbx.Cli.Gate.Argv.{EachRan, Consented, run_turn_until-Consented}
use sandbx.Cli.Consent.{Exchange, invalid_data, typed, Terminal, operator, ask}
use sandbx.Cli.Consent.Words.{first_word, answers, approving, approving_all, is_allow, ask-Agrees}
use sandbx.Cli.WrapUp.{second_turn}
use sandbx.Cli.WrapUp.Answer.{second_turn-Ran}
use sandbx.Cli.AgentRun.{agent_turn}
use sandbx.Cli.AgentRun.Storable.{Stores, agent_turn-Stores}

abbrev values : Values ℕ
values = record {
  field = λ key j. some j;
  as_str = λ j. some (codes "rm" ++ 10 ∷ 27 ∷ 8238 ∷ []);
  to_string = λ j. [];
  debug = λ n. codes "1s";
}

abbrev asking_round : List (Poll ℕ)
asking_round =
    event (AgentEvent.tool_call_requested (codes "c1") (codes "bash") 7)
    ∷ event (AgentEvent.stop tool_use)
    ∷ []

abbrev answering_round : List (Poll ℕ)
answering_round = event (AgentEvent.text (codes "done")) ∷ event (AgentEvent.stop end_turn) ∷ []

-- The state counts the streams opened.
abbrev world : World ℕ
world = record {
  State = ℕ;
  stops = λ n. false;
  open_stream = λ p n. elim n [
    | zero ↦ (stream asking_round, 1)
    | suc k ↦ (stream answering_round, suc (suc k))
  ];
  observe = λ e n. n;
  approve = λ c n. (allow, n);
  settled = λ s n. n;
  execute = λ c n. (output (codes "a b"), n);
  error_text = λ e. codes "error";
  describe = λ t. [];
  schema = λ t. 0;
}

abbrev history : List (RequestMessage ℕ)
history = record { role = user; content = ContentBlock.text (codes "clean up") ∷ [] } ∷ []

abbrev turn : Turn ℕ
turn = record {
  model = codes "m";
  max_output_tokens = 100;
  system = none;
  tools = bash ∷ ls ∷ [];
  tool_choice = none;
  thinking = none;
  history = history;
  limits = record { max_rounds = 1; stream_timeout = 300_000; compaction = none };
  observed = none;
  withheld = 0;
}

abbrev gate : ArgvGate Terminal
gate = record {
  terminal = some (record {
    consent = record { blanket = [] };
    questions = record { cleared = true; exchanges = typed (codes "y" ++ 10 ∷ []) ∷ [] } ∷ [];
    reported = [];
  });
  stderr = [];
}

abbrev explain : TurnError → Bytes × List Bytes
explain e = (codes "error", [])

abbrev history-IsReady : IsReady history
history-IsReady = record {
  conversation = ((λ e. cc), (λ e. cc), tt, tt, tt);
  ends = refl;
  leaves = refl;
}

abbrev bash_call : ToolCall ℕ
bash_call = record { tool = bash; id = codes "c1"; input = 7 }

abbrev settled_call : Settled ℕ
settled_call = record {
  name = codes "bash";
  id = codes "c1";
  tool = some bash;
  input = 7;
  outcome = Outcome.errored (failed [] (codes "exit 1"));
}

run_turn_until-Consented_example :
    EachRan
      (Consented (some (bash ∷ [])))
      (actions_of (run_turn_until (gated values operator (some (bash ∷ [])) world) turn (0, gate)))
run_turn_until-Consented_example =
    run_turn_until-Consented values operator (some (bash ∷ [])) world turn (0, gate)

agent_turn-Stores_example :
    Stores values operator
      (some (bash ∷ []))
      explain
      false
      world
      turn
      history-IsReady
      (agent_turn values operator (some (bash ∷ [])) explain false world turn (0, gate))
agent_turn-Stores_example =
    agent_turn-Stores values operator (some (bash ∷ [])) explain false world turn history-IsReady
      (0, gate)

abbrev first_outcome : TurnOutcome ℕ
first_outcome = record {
  messages = [];
  usage = none;
  withheld = 0;
  stop = sandbx.Turn.round_limit 1;
  round_stop = none;
}

second_turn-Ran_example : EachRan (λ t. ⊥) (actions_of (second_turn world turn first_outcome 0))
second_turn-Ran_example = second_turn-Ran world turn first_outcome 0

abbrev tries : List Exchange
tries =
    invalid_data ∷ typed (codes "maybe") ∷ typed (codes " all" ++ 10 ∷ []) ∷ typed (codes "n") ∷ []

ask-Agrees_example :
    (is_allow (ask bash_call tries (record { blanket = [] })).0
      ≡ (offers [] bash || approving (first_word (answers tries))))
    × ((t : BuiltinTool)
        → offers (ask bash_call tries (record { blanket = [] })).1.blanket t
          ≡ (offers [] t || (approving_all (first_word (answers tries)) && same_tool bash t)))
ask-Agrees_example = ask-Agrees bash_call (record { blanket = [] }) tries

unspelled-spelled_example :
    unspelled (spelled (codes "a" ++ 10 ∷ 92 ∷ 8232 ∷ 27 ∷ []))
    ≡ map shown (codes "a" ++ 10 ∷ 92 ∷ 8232 ∷ 27 ∷ [])
unspelled-spelled_example = unspelled-spelled (codes "a" ++ 10 ∷ 92 ∷ 8232 ∷ 27 ∷ [])
