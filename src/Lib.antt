-- ===== src/Lib.antt =====
-- A model of the agent harness sandbx: the turn loop that talks to a model and runs its tool calls
-- under a gate, the compaction that keeps a request within its budget, and the session store that
-- keeps a conversation across runs.
--
-- The parts and how they interact. A run of the agent opens a session (sandbx-session-store),
-- turns its messages into a request history (sandbx-session-bridge) and hands it, with a prompt
-- and the tools on offer, to the turn loop (sandbx-turn). Round by round, the loop plans a cut of
-- the history (sandbx-compact), opens a stream at the provider (sandbx-provider), accumulates its
-- events (sandbx-event) into blocks (sandbx-prompt), asks the gate (sandbx-approval) about each
-- call, runs it (sandbx-tools) and sends the results back. What the turn produced is stored as one
-- append to the session's transcript.
--
-- - Common and its children: shared names, Boolean tests over the native numbers, lists and byte
--   strings. A string is the list of its bytes.
-- - Prompt: crates/sandbx-prompt/src/lib.rs. Prompt/Conversation: what a provider asks of a
--   history, with a result for each call in the message behind it.
-- - Event: crates/sandbx-event/src/lib.rs and crates/sandbx-provider/src/lib.rs.
-- - Compact: crates/sandbx-compact/src/lib.rs (`plan_cut`, `window`, `over_budget`);
--   Compact/Search, Compact/Cut and Compact/Window hold the proofs.
-- - Tools: the names and risks of crates/sandbx-tools/src/builtin_tool.rs; Tools/Names the lookup
--   by name.
-- - Turn: the data of crates/sandbx-turn/src/turn.rs and turn_error.rs, and of
--   crates/sandbx-approval/src/lib.rs. Turn/Accumulate is accumulate.rs, Turn/Answer is
--   `answer_calls` of tools.rs, Turn/Run is `run_turn_until` of turn.rs; their children hold the
--   proofs.
-- - Sse: crates/sandbx-sse/src/lib.rs, the chunks of a response tokenized into events. Sse/Frames
--   says byte by byte what that comes to; Sse/Lines, Sse/Scan and Sse/Chunks hold the proofs.
-- - Wire: crates/sandbx-anthropic/src/anthropic_wire_payload.rs and anthropic_wire_accumulate.rs,
--   the frames of a provider's stream and the state they are folded into. Wire/Stream is
--   `next_agent_event`; Wire/Calls, Wire/Ends, Wire/Errors, Wire/Prose and Wire/Round hold the
--   proofs, the last one on the stream as the turn loop accumulates it.
-- - Session: crates/sandbx-session-message/src/lib.rs. Session/Shape is shape.rs of
--   crates/sandbx-session-store/src, Session/Record is record.rs, Session/Store is session.rs and
--   vet.rs, and Session/Store/Create the search for a free name in session.rs. Session/Bridge is
--   crates/sandbx-session-bridge/src/lib.rs, Session/Id is crates/sandbx-session-id/src/lib.rs.
-- - Text: crates/sandbx-text/src/lib.rs. Here and in Cli, where text is shown, a string is the
--   list of its code points.
-- - Cli/Spelling: crates/sandbx-cli/src/error_line.rs and the spelling of fields in agent_gate.rs.
--   Cli/Gate is the rest of agent_gate.rs, Cli/Consent is agent_prompt.rs, Cli/WrapUp is
--   agent_wrapup.rs, Cli/AgentRun the turn and its wrap-up in agent_run.rs; their children hold
--   the proofs.
-- - Transcript: crates/sandbx-tui-transcript/src/transcript.rs, and the rows of view.rs; strings
--   are code points here too.
-- - Keys: crates/sandbx-tui-input/src/lib.rs, the keys that stop a turn; Keys/Order is about the
--   interleavings of its two threads.
-- - Core/Policy: crates/sandbx-core/src/sandbox_policy.rs and the data of vetted_path.rs, what a
--   command may reach. Core/HelperArgs is helper_args.rs, a policy and a command as the arguments
--   of the helper process; Core/Decimal is how a number is printed and read. A path is bytes, and
--   what `Path::display` makes of them is the parameter `PathText`.
-- - Core/Degradation: crates/sandbx-core/src/degradation.rs and the labels of helper_refusal.rs,
--   what the helper reports to its parent.
-- - Core/FilePath: a path as std::path reads it, its components and what is done with them.
--   Core/Host: what the file guard asks the operating system at one moment. Core/Guard, Core/Check
--   and Core/Access are crates/sandbx-core/src/fs_guard.rs: the scan of the roots, the verdict on
--   a path, and the accesses with their records; Core/Access/Rooting is how a guard is built from
--   a policy, Core/Walk its walk over the files beneath a directory (`walk_readable`), by
--   descriptor or by path.
-- - Grants: crates/sandbx-grants/src/grants.rs and the paths of root.rs, the policy that the flags
--   of a command line describe. Grants/Sound and Grants/Executables are about the granted paths,
--   Grants/Resolver about the names, Grants/Whole about the policy. `current_root`, which judges
--   the working directory, and the places that sandbx keeps its state in are parameters, fields of
--   `Surroundings`.
-- - Core/Digest: the parsing and printing of a digest in crates/sandbx-core/src/sha256_digest.rs.
-- - Compact/Tests, Turn/Tests, Session/Tests, Sse/Tests, Wire/Tests, Cli/Tests, Transcript/Tests,
--   Keys/Tests, Grants/Tests, Core/Access/Tests, Core/Walk/Tests and Core/Tests run the
--   definitions on small inputs; Session/Tests/Codec is a line format for them.
--
-- What the program gets from outside. `Turn.World` holds the provider, the gate, the tools, the
-- observer and the stop as functions over a state of any type, so a theorem over every `World`
-- holds whatever these answer. A stream is the list of what polling it gives, with an elapsed
-- timeout, a failure and a stop among its items. The file guard asks a `Host`, a record of what
-- the system calls answer at one moment; a check and the access behind it are given two hosts, so
-- whatever happens between them is covered, while one check sees one host. JSON values are a type
-- parameter: the code passes them on. In the session store, `parse` and `print` are the decoding
-- and encoding of a line by serde_json, and what the kernel answers about owners, modes and opens
-- is the record `Disk`; a file is its lines, and whether the last one lacks its newline.
--
-- Bounds. The rounds of a turn are counted down from `max_rounds`, and the attempts at a free
-- name from `ATTEMPTS`, as the loops of the source count them, and every other loop runs along a
-- list, so nothing runs out of fuel, but for four: `base36` is given a number of digits, 13,
-- which is enough for every 64-bit number; the scan of a buffer is given a pass for each of its
-- bytes and one more; and the tokenizer a number of polls, for which the theorem takes any above
-- the number of bytes; and the walk of the file guard a number of passes, for which the theorem
-- takes any above the weight of the tree, the number of directories that it may list. Counts and
-- sizes are natural numbers: the source adds token counts and lengths of lists in memory, far
-- below 2 ^ 64, and its `saturating_sub` is the subtraction here. Permission bits are the low
-- twelve bits of a mode.
--
-- Abstractions. `actions` and `requests` in the models of `answer_calls` and of the loop record
-- what was asked, run and sent; the source keeps no such lists, and no definition reads them. Of
-- an error that carries a source or a path only the kind is kept, but for the file guard, whose
-- errors carry both. Its records name the path by its components, where the source prints it, and
-- a descriptor is a number. A stop is raced against a stream or a tool; which comes first is a
-- value of the world, read where the source polls the stop.
--
-- Not modelled: the system calls that confine a command (sandbx-core but for its policy, its
-- arguments, its file guard, its audit channel and its digest, sandbx-helper) and the tables
-- behind them; the Anthropic client but for its frames; the parsing of the command line, the
-- drawing of the screen; what each tool does to files; credentials; logging. In the session store,
-- the narrowing of the directory's mode by `create` is left out.
mod Common
pub mod Prompt
pub mod Compact
pub mod Core
pub mod Sse
pub mod Wire
pub mod Text
pub mod Cli
pub mod Transcript
pub mod Keys
pub mod Event
pub mod Tools
pub mod Turn
pub mod Session
pub mod Grants
