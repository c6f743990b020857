-- ===== src/Executor/Process.antt =====
-- internal/executor/process.go: how `Stop` and `KillAndWait` of a managed process escalate. Each call
-- of the code happens at most once here, so what the calls answer is a record; a call that is made
-- goes into a list of actions, the latest last.
pub mod Escalation
use virtle.Prelude.{
  ℕ, String, Bool, true, false, not, ◌&&◌, ◌||◌, List, [], ◌∷◌, ◌++◌, Option, none, some,
  if◌then◌else◌,
}
use virtle.Prelude.Int.{ℤ, pos, ltb_ℤ, leb_ℤ}
use virtle.Prelude.Errors.{
  Error, Errors, errorf, wrapf, str, end, process_done, errors_find, errors_join,
}

-- `DefaultGracePeriod` and `minKillWait`, in nanoseconds.
abbrev pub default_grace_period : ℤ
default_grace_period = pos 15000000000

abbrev pub min_kill_wait : ℤ
min_kill_wait = pos 1000000000

pub data Action : Type 0 where
  shutdown sigterm sigkill : Action
  wait : ℤ → Action

-- A process that is not nil: what it is configured with, and what its surroundings answer. A wait
-- answers whether the process exited in time, and `wait_error` is what Wait returns.
pub record Process : Type 0 where
  pub name : String
  pub grace_period : ℤ
  pub has_shutdown : Bool
  pub exited : Bool
  pub wait_error : Option Error
  pub ctx_ended_before_shutdown : Bool
  pub shutdown_error : Option Error
  pub exits_after_shutdown : Bool
  pub ctx_ended_before_term : Bool
  pub term_error : Option Error
  pub exits_after_term : Bool
  pub kill_error : Option Error
  pub exits_after_kill : Bool

at_done : Error → Option Bool
at_done process_done = some true
at_done _ = none

found : Option Bool → Bool
found none = false
found (some b) = b

-- `err != nil && !errors.Is(err, os.ErrProcessDone)`
unfoldable pub is_failure : Option Error → Bool
unfolding errors_find at_done found
is_failure none = false
is_failure (some e) = not (found (errors_find at_done e))

-- The error itself, or the text of none.
abbrev or_empty : Option Error → Error
or_empty none = errorf "" end
or_empty (some e) = e

-- `getGracePeriod`
unfoldable pub get_grace_period : Process → ℤ
get_grace_period p = if ltb_ℤ (pos 0) p.grace_period then p.grace_period else default_grace_period

-- `if shutdownErr != nil { return errors.Join(shutdownErr, e) }; return e`
join_shutdown : Option Error → Error → Option Error
join_shutdown none e = some e
join_shutdown (some s) e = errors_join (some s ∷ some e ∷ [])

-- What Stop returns, what it did, and whether it saw the process exit.
pub record Stopped : Type 0 where
  pub error : Option Error
  pub actions : List Action
  pub saw_exit : Bool

kill_wait : Process → ℤ
kill_wait p = let g = get_grace_period p in if ltb_ℤ g min_kill_wait then min_kill_wait else g

after_kill : Process → Option Error → List Action → Stopped
after_kill p shutdown_error did =
    if p.exits_after_kill
    then record { error = shutdown_error; actions = did; saw_exit = true }
    else record {
      error =
          join_shutdown shutdown_error (errorf "kill %s: process did not exit" (str p.name end));
      actions = did;
      saw_exit = false;
    }

kill_rung : Process → Option Error → List Action → Stopped
kill_rung p shutdown_error did =
    if is_failure p.kill_error
    then record {
      error =
          join_shutdown shutdown_error
            (wrapf "kill %s: %w" (str p.name end) (or_empty p.kill_error));
      actions = did ++ sigkill ∷ [];
      saw_exit = false;
    }
    else after_kill p shutdown_error (did ++ sigkill ∷ wait (kill_wait p) ∷ [])

after_term : Process → Option Error → List Action → Stopped
after_term p shutdown_error did =
    if p.exits_after_term
    then record { error = shutdown_error; actions = did; saw_exit = true }
    else kill_rung p shutdown_error did

term_rung : Process → Option Error → List Action → Stopped
term_rung p shutdown_error did =
    if p.ctx_ended_before_term
    then kill_rung p shutdown_error did
    else if is_failure p.term_error
    then record {
      error =
          join_shutdown shutdown_error
            (wrapf "stop %s: %w" (str p.name end) (or_empty p.term_error));
      actions = did ++ sigterm ∷ [];
      saw_exit = false;
    }
    else after_term p shutdown_error (did ++ sigterm ∷ wait (get_grace_period p) ∷ [])

shutdown_rung : Process → Option Error → Stopped
shutdown_rung p (some e) =
    term_rung p (some (wrapf "shutdown %s: %w" (str p.name end) e)) (shutdown ∷ [])
shutdown_rung p none =
    if p.exits_after_shutdown
    then record {
      error = none;
      actions = shutdown ∷ wait (get_grace_period p) ∷ [];
      saw_exit = true;
    }
    else term_rung p none (shutdown ∷ wait (get_grace_period p) ∷ [])

-- `Process.Stop`
unfoldable pub stop_process : Process → Stopped
unfolding shutdown_rung term_rung after_term kill_rung after_kill kill_wait join_shutdown
stop_process p =
    if p.exited
    then record { error = none; actions = []; saw_exit = true }
    else if p.has_shutdown && not p.ctx_ended_before_shutdown
    then shutdown_rung p p.shutdown_error
    else term_rung p none []

-- `KillAndWait`, where the process exits once the kill has succeeded; the wait has no time limit.
unfoldable pub kill_and_wait : Process → Option Error × List Action
kill_and_wait p =
    if p.exited
    then (none, [])
    else if is_failure p.kill_error
    then (some (wrapf "kill %s: %w" (str p.name end) (or_empty p.kill_error)), sigkill ∷ [])
    else (none, sigkill ∷ [])
