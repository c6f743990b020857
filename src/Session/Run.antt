-- ===== src/Session/Run.antt =====
-- `Run`, `start` and `foreground` of backend/qemu/session/session.go.
pub mod Order
pub mod Teardown
use virtle.Prelude.{
  String, Bool, true, false, List, [], ◌∷◌, ◌++◌, Option, none, some, str_eq, not, ◌&&◌,
  if◌then◌else◌,
}
use virtle.Prelude.Errors.{
  Error, Result, ok, err, plain, wrapf, end, unsupported, is_saved_suspend_exit,
}
use virtle.SshTools.{Failure}
use virtle.Launch.Resume.{Saved, has_saved_suspend_state, normalize_resume_mode}
use virtle.Session.{
  Event, Action, Hooks, Machine, Status, Ended, bridge_commit, after, shutdown_after, saved,
}
use virtle.Session.Waits.{wait_ready, wait_for_machine}
use virtle.Session.Ssh.{Attempt, SshConfig, run_ssh, after_all}

-- `Options`, as far as it decides something.
pub record Options : Type 0 where
  pub resume : String
  pub ssh : Bool

-- The saved state, the backend (`resume` is `none` where it is no Resumer), and what the surroundings
-- answer: the error of dialing the readiness socket, what is seen before the guest is ready and after
-- it, the hint for a connection, the error of writing it, and the attempts of ssh.
pub record Surroundings : Type 0 where
  pub state : Saved
  pub start : Result Machine
  pub resume : Option (Result Machine)
  pub dial_error : Option Error
  pub ready_events : List Event
  pub hint : Result String
  pub write_error : Option Error
  pub events : List Event
  pub attempts : List Attempt

abbrev start_mode : String → String
start_mode mode = if str_eq mode "" then "auto" else mode

-- Whether `start` resumes.
unfoldable pub wants_resume : Saved → String → Result Bool
wants_resume state mode =
    if str_eq (start_mode mode) "auto"
    then has_saved_suspend_state state
    else ok (str_eq (start_mode mode) "force")

with_resumed : Bool → Result Machine → Result (Machine × Bool)
with_resumed resumed (err e) = err e
with_resumed resumed (ok m) = ok (m, resumed)

resume_machine : Option (Result Machine) → Result (Machine × Bool)
unfolding with_resumed
resume_machine none = err (wrapf "backend cannot resume machines: %w" end unsupported)
resume_machine (some answer) = with_resumed true answer

start_machine : Surroundings → Result Bool → Result (Machine × Bool)
unfolding with_resumed resume_machine
start_machine w (err e) = err e
start_machine w (ok true) = resume_machine w.resume
start_machine w (ok false) = with_resumed false w.start

-- `start`: the machine, and whether it is resumed.
unfoldable pub start : Surroundings → String → Result (Machine × Bool)
unfolding start_machine
start w mode = start_machine w (wants_resume w.state mode)

print_hint : Surroundings → Result String → Option Error
print_hint w (err e) = none
print_hint w (ok hint) = if str_eq hint "" then none else w.write_error

wrap_hint : Option Error → Option Error
wrap_hint none = none
wrap_hint (some e) = some (wrapf "write ssh command hint: %w" end e)

-- The error for which no hint is printed and the machine is shut down.
hint_error : Surroundings → List String → Option (Result Status) → Option Error
unfolding print_hint wrap_hint
hint_error w [] reporter = none
hint_error w (a ∷ argv) none = none
hint_error w (a ∷ argv) (some (err e)) = some e
hint_error w (a ∷ argv) (some (ok s)) = wrap_hint (print_hint w w.hint)

-- `if launch.IsSavedSuspendExit(err) { return nil }`
drop_saved : Ended → Ended
drop_saved r = if saved r.error then record r { error = none } else r

abbrev all_dropped : Option Ended → Option Ended
all_dropped none = none
all_dropped (some r) = some (drop_saved r)

-- `if launch.IsSavedSuspendExit(err) { return err }; return shutdownAfter(ctx, m, err)`
unfoldable pub unless_saved : Machine → Ended → Ended
unless_saved m r = if saved r.error then r else after r.actions (shutdown_after m r.error)

abbrev all_unless_saved : Machine → Option Ended → Option Ended
all_unless_saved m none = none
all_unless_saved m (some r) = some (unless_saved m r)

module _ (m : Machine) (h : Hooks) where
  committed : Surroundings → Ended → Option Error → Option Ended
  committed w c none = after_all c.actions (wait_for_machine m h w.events)
  committed w c (some e) = some (after c.actions (shutdown_after m (some e)))

  hinted : Surroundings → Option Error → Option Ended
  unfolding committed
  hinted w none = committed w (bridge_commit h) (bridge_commit h).error
  hinted w (some e) = some (shutdown_after m (some e))

  module _ (classify : Option Error → String → Failure) (config : SshConfig) where
    -- `foreground`
    unfoldable pub foreground : Surroundings → Options → Option Ended
    unfolding hinted hint_error
    foreground w o =
        if o.ssh
        then all_unless_saved m (run_ssh m h classify config w.attempts)
        else hinted w (hint_error w config.argv m.reporter)

    when_ready : Surroundings → Options → Ended → Option Error → Option Ended
    unfolding drop_saved
    when_ready w o r none = after_all r.actions (all_dropped (foreground w o))
    when_ready w o r (some e) =
        if is_saved_suspend_exit e
        then some (record { error = none; actions = r.actions })
        else some (after r.actions (shutdown_after m (some e)))

    awaited : Surroundings → Options → Option Ended → Option Ended
    unfolding when_ready
    awaited w o none = none
    awaited w o (some r) = when_ready w o r r.error

    -- What `Run` does with a machine that has started.
    unfoldable pub own_machine : Surroundings → Options → Bool → Option Ended
    unfolding awaited drop_saved
    own_machine w o true = all_dropped (foreground w o)
    own_machine w o false = awaited w o (wait_ready m h w.dial_error w.ready_events)

module _ (h : Hooks) (classify : Option Error → String → Failure) (config : SshConfig) where
  run_started : Surroundings → Options → Result (Machine × Bool) → Option Ended
  run_started w o (err e) = some (record { error = some e; actions = [] })
  run_started w o (ok (m, resumed)) = own_machine m h classify config w o resumed

  run_mode : Surroundings → Options → Result String → Option Ended
  unfolding run_started
  run_mode w o (err e) = some (record { error = some e; actions = [] })
  run_mode w o (ok mode) = run_started w o (start w o.resume)

  abbrev is_empty : List String → Bool
  is_empty [] = true
  is_empty (a ∷ argv) = false

  -- `Run`
  unfoldable pub run : Surroundings → Options → Option Ended
  unfolding run_mode
  run w o =
      if o.ssh && is_empty config.argv
      then some (record {
        error = some (plain "--ssh requires a non-empty manifest.ssh.exec");
        actions = [];
      })
      else run_mode w o (normalize_resume_mode o.resume)
