-- ===== src/Session/Record.antt =====
-- crates/sandbx-session-store/src/record.rs: the lines of a transcript, and how they replay. What
-- `serde_json` makes of a line is a parameter, `parse`; a path is left out of an error.
pub mod Replay
use sandbx.Common.{
  ℕ, zero, suc, ◌+◌, Bool, true, false, not, ◌&&◌, List, [], ◌∷◌, ◌++◌, Option, none, some, ◌==◌,
  if◌then◌else◌, Bytes, or_else, length, is_empty,
}
use sandbx.Session.{Message, Usage, TurnStop}

abbrev pub version : ℕ
version = 1

pub record Header : Type 0 where
  pub version : ℕ
  pub id : Bytes
  pub created_at_millis : ℕ

pub record Accounting : Type 0 where
  pub observed : Option Usage
  pub withheld : ℕ
  pub stop : Option TurnStop

pub data Record (Json : Type 0) : Type 0 where
  header : Header → Record Json
  message : Message Json → Record Json
  turn : Accounting → Record Json

-- `Accounting::default()`.
abbrev pub no_accounting : Accounting
no_accounting = record { observed = none; withheld = 0; stop = none }

unfoldable pub absorb : Accounting → Accounting → Accounting
absorb a t = record {
  observed = or_else t.observed a.observed;
  withheld = t.withheld;
  stop = or_else t.stop a.stop;
}

pub record Replayed (Json : Type 0) : Type 0 where
  pub messages : List (Message Json)
  pub accounting : Accounting

pub data ReplayError : Type 0 where
  missing_header : ReplayError
  malformed unsupported_version : ℕ → ReplayError

pub data ReplayResult (Json : Type 0) : Type 0 where
  ok : Replayed Json → ReplayResult Json
  err : ReplayError → ReplayResult Json

-- The text of a file: its lines, and whether the last one lacks its newline. An empty file has none.
pub record Body : Type 0 where
  pub lines : List Bytes
  pub torn : Bool

module _ {Json : Type 0} where
  -- The loop's locals.
  abbrev pub replayed : List (Message Json) → Accounting → Replayed Json
  replayed messages accounting = record { messages = messages; accounting = accounting }

  -- A record that is not on the first line.
  abbrev pub take_record : Record Json → Replayed Json → Replayed Json
  take_record (header h) r = r
  take_record (message m) r = record r {
    messages = r.messages ++ m ∷ [];
    accounting = record (r.accounting) { stop = none };
  }
  take_record (turn t) r = record r { accounting = absorb r.accounting t }

  -- Whether a record is a header of a version that this build cannot read.
  abbrev foreign : Record Json → Option ℕ
  foreign (header h) = if h.version == version then none else some h.version
  foreign _ = none

  -- The lines after the first; `index` is that of the next.
  unfoldable pub fold_rest :
      (Bytes → Option (Record Json)) → Bool → ℕ → List Bytes → Replayed Json → ReplayResult Json
  fold_rest parse torn index [] r = ok r
  fold_rest parse torn index (line ∷ lines) r = elim (parse line) [
    | none ↦ if torn && is_empty lines then ok r else err (malformed (index + 1))
    | some rec ↦ elim (foreign rec) [
      | some v ↦ err (unsupported_version v)
      | none ↦ fold_rest parse torn (index + 1) lines (take_record rec r)
    ]
  ]

  first_record :
      (Bytes → Option (Record Json)) → Bool → List Bytes → Record Json → ReplayResult Json
  first_record parse torn lines (header h) =
      if h.version == version
      then fold_rest parse torn 1 lines (replayed [] no_accounting)
      else err (unsupported_version h.version)
  first_record parse torn lines _ = err missing_header

  unfoldable pub fold : (Bytes → Option (Record Json)) → Body → ReplayResult Json
  unfolding first_record
  fold parse body = elim body.lines [
    | [] ↦ err missing_header
    | line ∷ lines ↦ elim (parse line) [
      | none ↦ if body.torn && is_empty lines then err missing_header else err (malformed 1)
      | some rec ↦ first_record parse body.torn lines rec
    ]
  ]
