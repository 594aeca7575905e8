-- ===== src/Session/Tests.antt =====
-- Sessions at concrete inputs.
mod Codec
use sandbx.Common.{
  ◌⊎◌, arith, ◌≢◌, ℕ, List, [], ◌∷◌, ◌++◌, ◌≡◌, refl, Option, none, some, Bytes, codes, map, true,
  false, inr, inl, length,
}
use sandbx.Session.{
  user, assistant, Message, CompletedTurn, text, tool_use, tool_result, answered, round_limit,
}
use sandbx.Session.Record.{fold, ok, replayed, Header, header, version, message, Body, absorb}
use sandbx.Session.Shape.{
  answers_only, asks_only, alternating, opens, follows, resumable, joins, settled,
}
use sandbx.Session.Shape.Append.{IsStored, append-IsStored}
use sandbx.Session.Store.Vetted.{IsTrusted, resume-IsTrusted}
use sandbx.Session.Store.{
  Owned, Transcript, Disk, opened, turn_records, append, done, resume, create, append_all,
  write_lines, Session, vet_turn, unresumable,
}
use sandbx.Session.Store.Durable.{granting, resume-append_all, AllReadBack}
use sandbx.Session.Store.Torn.{written_onto}
use sandbx.Session.Bridge.{
  request_history, merge_user_runs, merge_from, merge_step, unmerged, resume_note, out_of_rounds,
}
use sandbx.Session.Bridge.Runs.{separated, starts_on_user, blocks}
use sandbx.Session.Bridge.Merge.{merge_user_runs-alternates}
use sandbx.Session.Id.{
  from_clock, base36, digits_of, digit, from_str, refused, accepted, illegal, empty, in_alphabet,
}
use sandbx.Session.Store.Create.{
  Opening, taken, collision, Refused, Forward, reserve, try_from, reserve-distinct,
}
use sandbx.Session.Tests.Codec.{parse, print, parse-print, started, ask}

abbrev call : Message ℕ
call = record { role = assistant; content = tool_use (codes "c1") (codes "ls") 0 ∷ [] }

abbrev result : Message ℕ
result = record { role = user; content = tool_result (codes "c1") (codes "a b") none ∷ [] }

abbrev reply : Message ℕ
reply = record { role = assistant; content = text (codes "two files") ∷ [] }

-- A turn that ran out of rounds, and the one that took it up.
abbrev first : CompletedTurn ℕ
first = record {
  messages = ask ∷ call ∷ result ∷ [];
  observed = none;
  withheld = 0;
  stop = round_limit;
}

abbrev second : CompletedTurn ℕ
second = record { messages = ask ∷ reply ∷ []; observed = none; withheld = 2; stop = answered }

abbrev head : Header
head = record { version = version; id = codes "a1"; created_at_millis = 7 }

first-IsStored : IsStored first.messages
first-IsStored = record {
  resumes = unfold resumable settled answers_only in refl;
  alternates = unfold alternating joins answers_only asks_only in refl;
  opening = unfold opens in refl;
}

append-IsStored_example : IsStored (ask ∷ call ∷ result ∷ ask ∷ reply ∷ [])
unfolding resumable settled answers_only alternating joins asks_only opens follows
append-IsStored_example =
    append-IsStored first.messages ask (reply ∷ []) (inr first-IsStored) refl refl refl

-- The file of a session with nothing in it, and then with both turns.
abbrev fresh : Body
fresh = record { lines = print (header head) ∷ []; torn = false }

abbrev filled : Body
filled =
    write_lines (map print (turn_records second))
      (write_lines (map print (turn_records first)) fresh)

abbrev twice : Session ℕ
twice = record {
  messages = ask ∷ call ∷ result ∷ ask ∷ reply ∷ [];
  accounting = record { observed = none; withheld = 2; stop = some answered };
  shared_read = false;
  file = filled;
}

appended : append_all print (first ∷ second ∷ []) (create print head) ≡ done twice
unfolding append_all append create vet_turn resumable settled answers_only alternating joins
    asks_only opens follows absorb
appended = refl

turns_read : AllReadBack parse print (first ∷ second ∷ [])
turns_read = (
  (parse-print _, (parse-print _, (parse-print _, (parse-print _, tt)))),
  ((parse-print _, (parse-print _, (parse-print _, tt))), tt),
)

resume-append_all_example : resume parse (granting parse print filled) ≡ done twice
resume-append_all_example =
    resume-append_all parse print head (first ∷ second ∷ []) twice (parse-print (header head))
      turns_read refl appended

abbrev disk : Disk
disk = granting parse print filled

resume-IsTrusted_example :
    (o : Owned) × (t : Transcript) × (disk.directory ≡ opened o)
    × IsTrusted disk o
    × (disk.transcript ≡ opened t)
    × IsTrusted disk t.owned
    × (fold parse t.body ≡ ok (replayed twice.messages twice.accounting))
    × ((twice.messages ≡ []) ⊎ IsStored twice.messages)
resume-IsTrusted_example = resume-IsTrusted parse disk twice resume-append_all_example

abbrev with_write : Body
with_write = written_onto parse print twice started (print (message ask)) []

-- A disk that anyone may write to, and one that is this user's.
abbrev open_to_all : Transcript
open_to_all = record { owned = record { uid = 0; mode = 0o666 }; body = with_write }

abbrev shared : Disk
shared = record (granting parse print with_write) { transcript = opened open_to_all }

abbrev private_file : Transcript
private_file = record { owned = record { uid = 1000; mode = 0o600 }; body = with_write }

abbrev private_directory : Owned
private_directory = record { uid = 1000; mode = 0o700 }

abbrev home : Disk
home = granting parse print with_write

twice-alternates : (alternating twice.messages ≡ true) × (opens twice.messages ≡ true)
unfolding alternating joins answers_only asks_only opens
twice-alternates = (refl, refl)

-- The results and the prompt behind them become one message.
merge_user_runs-alternates_example :
    let merged = merge_user_runs (request_history twice.messages) 3 in
    (separated merged.history ≡ true)
    × (starts_on_user merged.history ≡ true)
    × (blocks merged.history ≡ blocks (request_history twice.messages))
merge_user_runs-alternates_example =
    merge_user_runs-alternates twice.messages 3 twice-alternates.0 twice-alternates.1

merged_twice :
    let merged = merge_user_runs (request_history twice.messages) 3 in
    (length merged.history ≡ 4) × (merged.withheld ≡ 2) × (unmerged merged merged.withheld ≡ 3)
unfolding merge_user_runs merge_from merge_step request_history unmerged
merged_twice = (refl, refl, refl)

resumed_notes :
    (resume_note true (some round_limit) ≡ some out_of_rounds)
    × (resume_note false (some round_limit) ≡ none)
unfolding resume_note
resumed_notes = (refl, refl)

named : from_clock (some 1700000000000) 3 ≡ some (codes "loyw3v2b")
unfolding from_clock base36 digits_of digit
named = refl

refusals :
    (from_str (codes "..") ≡ refused illegal)
    × (from_str [] ≡ refused empty)
    × (from_str (codes "loyw3v2b") ≡ accepted (codes "loyw3v2b"))
unfolding from_str in_alphabet
refusals = (refl, refl, refl)

-- A clock that stands, and a directory where each name is taken.
abbrev standing : ℕ → Option ℕ
standing n = some 1700000000000

abbrev full : ℕ → Bytes → Opening
full n name = taken

standing-Forward : Forward standing full
standing-Forward i j m m' l c d = ground (arith, c, d)

collides : reserve standing full ≡ collision
unfolding reserve try_from from_clock
collides = refl

reserve-distinct_example :
    (a b : Bytes) × Refused standing full 3 a × Refused standing full 4 b × (a ≢ b)
reserve-distinct_example =
    reserve-distinct standing full standing-Forward collides 3 4 (omega arith) (omega arith)
