-- ===== src/Keys.antt =====
-- crates/sandbx-tui-input/src/lib.rs: the keys that stop a turn. Two threads, one that reads the terminal
-- and one that watches for its hangup, change one value; what polling and reading give is an argument.
pub mod Order
mod Tests
use sandbx.Common.{
  ℕ, Bool, true, false, ◌||◌, ◌&&◌, ◌==◌, List, [], ◌∷◌, Option, none, some, if◌then◌else◌,
}

pub record Seen : Type 0 where
  pub stop : Bool
  pub gone : Bool

pub data Stopped : Type 0 where
  by_press by_hangup : Stopped

pub data KeyCode : Type 0 where
  esc other_key : KeyCode
  char : ℕ → KeyCode

pub record KeyEvent : Type 0 where
  pub code : KeyCode
  pub control : Bool
  -- `KeyEventKind::Press`.
  pub is_press : Bool

abbrev is_esc : KeyCode → Bool
is_esc esc = true
is_esc _ = false

abbrev is_c : KeyCode → Bool
is_c (char c) = c == 99
is_c _ = false

unfoldable pub interrupts : KeyEvent → Bool
interrupts key = is_esc key.code || (is_c key.code && key.control)

unfoldable pub stopped : Seen → Option Stopped
stopped seen = if seen.stop then some by_press else if seen.gone then some by_hangup else none

unfoldable pub pressed : KeyEvent → Seen → Seen
pressed key seen = record seen { stop = seen.stop || interrupts key }

-- What `hung_up` gives.
pub data Polled : Type 0 where
  hung : Bool → Polled
  eintr failed : Polled

-- What `Source::next` gives.
pub data Sourced : Type 0 where
  key : KeyEvent → Sourced
  other_event nothing broken : Sourced

-- One pass of the reading loop, and whether the receiver is gone behind a press.
pub record ReadPass : Type 0 where
  pub polled : Polled
  pub sourced : Sourced
  pub closed : Bool

-- One `send_modify`.
pub data Update : Type 0 where
  press : KeyEvent → Update
  hang_up : Update

abbrev from_source : Sourced → Bool → List Update → List Update
from_source (key k) closed rest =
    if k.is_press then press k ∷ (if closed then [] else rest) else rest
from_source other_event closed rest = rest
from_source nothing closed rest = rest
from_source broken closed rest = []

abbrev from_poll : Polled → Sourced → Bool → List Update → List Update
from_poll (hung true) source closed rest = hang_up ∷ []
from_poll (hung false) source closed rest = from_source source closed rest
from_poll eintr source closed rest = rest
from_poll failed source closed rest = []

-- What `read` sends in its passes so far.
unfoldable pub read_updates : List ReadPass → List Update
read_updates [] = []
read_updates (p ∷ ps) = let rest = read_updates ps in from_poll p.polled p.sourced p.closed rest

-- What `hangup` sends.
unfoldable pub hangup_updates : List Polled → List Update
hangup_updates [] = []
hangup_updates (hung true ∷ ps) = hang_up ∷ []
hangup_updates (hung false ∷ ps) = []
hangup_updates (eintr ∷ ps) = hangup_updates ps
hangup_updates (failed ∷ ps) = []

unfoldable pub apply : Update → Seen → Seen
apply (press k) seen = pressed k seen
apply hang_up seen = record seen { gone = true }

abbrev pub apply_all : List Update → Seen → Seen
apply_all [] seen = seen
apply_all (u ∷ us) seen = apply_all us (apply u seen)

abbrev pub unseen : Seen
unseen = record { stop = false; gone = false }
