-- ===== src/Session/Store.antt =====
-- crates/sandbx-session-store/src/session.rs and vet.rs: resuming a session from its file, and adding a
-- turn to it. What the kernel answers is data: who owns the directory and the transcript, their
-- modes, and the text. `parse` and `print` are what `serde_json` makes of a line. A path and an
-- io error's source are left out of an error.
pub mod Create
pub mod Durable
pub mod Torn
pub mod Vetted
use Prim.Native.Nat.{bit_and}
use sandbx.Common.{
  ℕ, Bool, true, false, not, ◌&&◌, ◌||◌, List, [], ◌∷◌, ◌++◌, map, Option, none, some, ◌==◌,
  if◌then◌else◌, Bytes, is_empty,
}
use sandbx.Session.{Message, CompletedTurn}
use sandbx.Session.Record.{
  Header, header, no_accounting, Accounting, Record, message, turn, Replayed, ReplayError,
  ReplayResult, ok, err, Body, absorb, fold,
}
use sandbx.Session.Shape.{alternating, opens, follows, resumable}

pub data SessionError : Type 0 where
  not_found symlink io : SessionError
  foreign_owner dir_writable writable : ℕ → SessionError
  unreplayable : ReplayError → SessionError
  unresumable disordered incomplete_turn disordered_turn : SessionError

pub data Result {ℓ} (A : Type ℓ) : Type ℓ where
  done : A → Result A
  failed : SessionError → Result A

infixl 5 ◌>>=◌ ◌>>◌
abbrev pub ◌>>=◌ {ℓ κ} : {A : Type ℓ} {B : Type κ} → Result A → (A → Result B) → Result B
done a >>= f = f a
failed e >>= f = failed e

abbrev pub ◌>>◌ {ℓ} : {B : Type ℓ} → Result (Unit {0}) → Result B → Result B
m >> k = m >>= λ _. k

-- What an `openat` with `O_NOFOLLOW` comes to.
pub data Opened {ℓ} (A : Type ℓ) : Type ℓ where
  absent link broken : Opened A
  opened : A → Opened A

pub record Owned : Type 0 where
  pub uid : ℕ
  pub mode : ℕ

pub record Transcript : Type 0 where
  pub owned : Owned
  pub body : Body

-- The two uids of this process, and what the file system holds for the session.
pub record Disk : Type 0 where
  pub euid : ℕ
  pub ruid : ℕ
  pub directory : Opened Owned
  pub transcript : Opened Transcript
  -- The transcript once more, for appending.
  pub reopened : Opened (Unit {0})

pub record Session (Json : Type 0) : Type 0 where
  pub messages : List (Message Json)
  pub accounting : Accounting
  pub shared_read : Bool
  pub file : Body

abbrev pub writable_bits : ℕ
writable_bits = 0o022

abbrev pub readable_bits : ℕ
readable_bits = 0o044

-- `opening`, with what `resume` makes of an absent file.
unfoldable pub open_vetted {ℓ} : {A : Type ℓ} → Opened A → Result A
open_vetted absent = failed not_found
open_vetted link = failed symlink
open_vetted broken = failed io
open_vetted (opened a) = done a

-- `opening` alone: an absent file is an io error.
unfoldable pub reopen : Opened (Unit {0}) → Result (Unit {0})
reopen absent = failed io
reopen link = failed symlink
reopen broken = failed io
reopen (opened u) = done u

unfoldable pub ownership : Disk → Owned → Result ℕ
ownership d o =
    if not (o.uid == d.euid) || not (o.uid == d.ruid)
    then failed (foreign_owner o.uid)
    else done (bit_and o.mode 0o7777)

abbrev pub refuse_if : Bool → SessionError → Result (Unit {0})
refuse_if true e = failed e
refuse_if false e = done tt

-- What `resume` asks of the whole history.
unfoldable pub vet_history : {Json : Type 0} → List (Message Json) → Result (Unit {0})
vet_history messages = if is_empty messages then done tt else (do
  refuse_if (not (resumable messages)) unresumable
  refuse_if (not (alternating messages) || not (opens messages)) disordered)

-- A write goes behind the last byte: behind a line that lacks its newline, onto that line.
abbrev pub glue : List Bytes → List Bytes → List Bytes
glue [] ys = ys
glue (x ∷ []) [] = x ∷ []
glue (x ∷ []) (y ∷ ys) = (x ++ y) ∷ ys
glue (x ∷ z ∷ xs) ys = x ∷ glue (z ∷ xs) ys

abbrev pub write_lines : List Bytes → Body → Body
write_lines ys b = record {
  lines = if b.torn then glue b.lines ys else b.lines ++ ys;
  torn = false;
}

module _ {Json : Type 0} where
  abbrev pub replay : ReplayResult Json → Result (Replayed Json)
  replay (ok r) = done r
  replay (err e) = failed (unreplayable e)

  unfoldable pub resume : (Bytes → Option (Record Json)) → Disk → Result (Session Json)
  unfolding open_vetted reopen ownership vet_history
  resume parse d = do
    directory ← open_vetted d.directory
    dir_mode ← ownership d directory
    refuse_if (not (bit_and dir_mode writable_bits == 0)) (dir_writable dir_mode)
    transcript ← open_vetted d.transcript
    mode ← ownership d transcript.owned
    refuse_if (not (bit_and mode writable_bits == 0)) (writable mode)
    r ← replay (fold parse transcript.body)
    vet_history r.messages
    reopen d.reopened
    done (record {
      messages = r.messages;
      accounting = r.accounting;
      shared_read = not (bit_and mode readable_bits == 0);
      file = transcript.body;
    })

  -- What `append` asks of a turn.
  unfoldable pub vet_turn : List (Message Json) → List (Message Json) → Result (Unit {0})
  vet_turn stored batch = if is_empty batch then done tt else (do
    refuse_if (not (resumable batch)) incomplete_turn
    refuse_if (not (alternating batch) || not (follows stored batch)) disordered_turn)

  abbrev pub turn_accounting : CompletedTurn Json → Accounting
  turn_accounting t = record {
    observed = t.observed;
    withheld = t.withheld;
    stop = if is_empty t.messages then none else some t.stop;
  }

  abbrev pub turn_records : CompletedTurn Json → List (Record Json)
  turn_records t = map message t.messages ++ turn (turn_accounting t) ∷ []

  -- `written` is whether the whole write succeeded.
  unfoldable pub append :
      (Record Json → Bytes) → Bool → CompletedTurn Json → Session Json → Result (Session Json)
  unfolding vet_turn
  append print written t s = do
    vet_turn s.messages t.messages
    refuse_if (not written) io
    done (record s {
      messages = s.messages ++ t.messages;
      accounting = absorb s.accounting (turn_accounting t);
      file = write_lines (map print (turn_records t)) s.file;
    })

  -- A session as `create` leaves it: nothing but the header's line in its file.
  unfoldable pub create : (Record Json → Bytes) → Header → Session Json
  create print h = record {
    messages = [];
    accounting = no_accounting;
    shared_read = false;
    file = record { lines = print (header h) ∷ []; torn = false };
  }

  -- Turn after turn, as a conversation goes on.
  unfoldable pub append_all :
      (Record Json → Bytes) → List (CompletedTurn Json) → Session Json → Result (Session Json)
  append_all print [] s = done s
  append_all print (t ∷ ts) s = append print true t s >>= append_all print ts
