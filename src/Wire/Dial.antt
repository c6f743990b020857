-- ===== src/Wire/Dial.antt =====
-- `DialWithRetry` of backend/qemu/internal/qmpwire/qmpwire.go. An attempt is what its surroundings
-- answer; a client is its number, and what is done with clients goes into a list.
pub mod Clients
use virtle.Prelude.{ℕ, Bool, true, false, List, [], ◌∷◌, ◌++◌, Option, none, some, if◌then◌else◌}
use virtle.Prelude.Errors.{Error, Result, ok, err}

-- The error of the context before the attempt, of the check, the client or the error of dialing, the
-- error of the probe, and the error of the context after them.
pub record Attempt : Type 0 where
  pub ended : Option Error
  pub check_error : Option Error
  pub client : Result ℕ
  pub probe_error : Option Error
  pub ended_after : Option Error

pub data Action : Type 0 where
  dialed closed : ℕ → Action

-- `Check`, `Probe` and `Close` may be nil.
pub record Retry : Type 0 where
  pub has_check : Bool
  pub has_probe : Bool
  pub has_close : Bool

pub record Dialed : Type 0 where
  pub result : Result ℕ
  pub actions : List Action

abbrev after_all : List Action → Option Dialed → Option Dialed
after_all did none = none
after_all did (some d) = some (record d { actions = did ++ d.actions })

abbrev failed : Error → Option Dialed
failed e = some (record { result = err e; actions = [] })

-- `if ctx.Err() != nil { return zero, ctx.Err() }`, and the next attempt.
unless_ended : Option Error → Option Dialed → Option Dialed
unless_ended none later = later
unless_ended (some e) later = failed e

probed : Retry → Attempt → ℕ → Option Error → Option Dialed → Option Dialed
unfolding unless_ended
probed retry a client none later = some (record { result = ok client; actions = [] })
probed retry a client (some e) later =
    after_all (if retry.has_close then closed client ∷ [] else [])
      (unless_ended a.ended_after later)

with_client : Retry → Attempt → Result ℕ → Option Dialed → Option Dialed
unfolding unless_ended probed
with_client retry a (err e) later = unless_ended a.ended_after later
with_client retry a (ok client) later = after_all (dialed client ∷ []) (
    if retry.has_probe
    then probed retry a client a.probe_error later
    else some (record { result = ok client; actions = [] }))

check : Retry → Attempt → Option Error
check retry a = if retry.has_check then a.check_error else none

checked : Retry → Attempt → Option Error → Option Dialed → Option Dialed
unfolding with_client
checked retry a none later = with_client retry a a.client later
checked retry a (some e) later = failed e

begun : Retry → Attempt → Option Error → Option Dialed → Option Dialed
unfolding check checked
begun retry a none later = checked retry a (check retry a) later
begun retry a (some e) later = failed e

-- `DialWithRetry`; `none` while no attempt has decided.
unfoldable pub dial_with_retry : Retry → List Attempt → Option Dialed
unfolding begun
dial_with_retry retry [] = none
dial_with_retry retry (a ∷ attempts) = begun retry a a.ended (dial_with_retry retry attempts)
