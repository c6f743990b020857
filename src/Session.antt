-- ===== src/Session.antt =====
-- backend/qemu/session/session.go, the command's foreground session, with the hooks of
-- backend/qemu/internal/sessionbridge/bridge.go. What the machine answers is a record; what a select
-- of the code sees is a list of events, the first one first; calls go into a list of actions.
pub mod Waits
pub mod Ssh
pub mod Run
pub mod ExitCode
mod Tests
use virtle.Prelude.{
  ℕ, String, Bool, true, false, not, ◌||◌, List, [], ◌∷◌, ◌++◌, Option, none, some, if◌then◌else◌,
}
use virtle.Prelude.Int.{ℤ}
use virtle.Prelude.Errors.{
  Error, Result, wrapf, end, unsupported, errors_join, is_saved_suspend_exit,
}

pub data Signal : Type 0 where
  sigtstp sigusr1 : Signal

-- `process_exited` has what process.Wait returns, `token_read` what ReadToken returned, and `ended` the
-- cause for which a context is done.
pub data Event : Type 0 where
  process_exited token_read : Option Error → Event
  machine_exited request timer : Event
  signal : Signal → Event
  ended : Error → Event

-- What a session does. `machine_gone` and `ssh_exited` are exits that it sees; a suspend has its outcome.
pub data Action : Type 0 where
  start_ssh : List String → Action
  ssh_exited stop_ssh commit ensure_key install_key shutdown machine_gone : Action
  suspend_machine handle_request : Option Error → Action

-- `Hooks`: `none` is a function that is nil, and `suspend_requests` tells whether the channel is not nil.
pub record Hooks : Type 0 where
  pub suspend_requests : Option Bool
  pub handle_suspend_request : Option (Option Error)
  pub suspend : Option (Option Error)
  pub commit_resume : Option (Option Error)

pub record Status : Type 0 where
  pub ready_socket : String
  pub cid : ℤ

-- A machine: `Err`, `Shutdown`, and what it answers where it is a StatusReporter or a Suspender.
pub record Machine : Type 0 where
  pub error : Option Error
  pub shutdown_error : Option Error
  pub reporter : Option (Result Status)
  pub suspender : Option (Option Error)

-- What a part of the session returns, and what it did.
pub record Ended : Type 0 where
  pub error : Option Error
  pub actions : List Action

-- The answer of a hook, nil where there is none.
abbrev pub call : Option (Option Error) → Option Error
call none = none
call (some answer) = answer

abbrev any_requests : Option Bool → Bool
any_requests none = false
any_requests (some b) = b

-- `Requests`, as to whether it can be received from.
unfoldable pub requests : Hooks → Bool
requests h = any_requests h.suspend_requests

-- `HandleSuspend`
unfoldable pub handle_suspend : Hooks → Ended
handle_suspend h = record {
  error = call h.handle_suspend_request;
  actions = handle_request (call h.handle_suspend_request) ∷ [];
}

-- `Commit`
unfoldable pub bridge_commit : Hooks → Ended
bridge_commit h = record { error = call h.commit_resume; actions = commit ∷ [] }

-- What was done before.
unfoldable pub after : List Action → Ended → Ended
after did r = record { error = r.error; actions = did ++ r.actions }

suspend_alone : Option (Option Error) → Ended
suspend_alone none = record {
  error = some (wrapf "machine cannot suspend: %w" end unsupported);
  actions = [];
}
suspend_alone (some e) = record { error = e; actions = suspend_machine e ∷ [] }

-- `suspend`
unfoldable pub suspend : Machine → Hooks → Ended
unfolding suspend_alone
suspend m h =
    if requests h
    then record { error = call h.suspend; actions = suspend_machine (call h.suspend) ∷ [] }
    else suspend_alone m.suspender

-- `shutdownAfter`
unfoldable pub shutdown_after : Machine → Option Error → Ended
shutdown_after m e = record {
  error = errors_join (e ∷ m.shutdown_error ∷ []);
  actions = shutdown ∷ [];
}

-- `err == nil || launch.IsSavedSuspendExit(err)`, and the second test alone.
abbrev pub nil_or_saved : Option Error → Bool
nil_or_saved none = true
nil_or_saved (some e) = is_saved_suspend_exit e

abbrev pub saved : Option Error → Bool
saved none = false
saved (some e) = is_saved_suspend_exit e

-- `afterSuspend`
unfoldable pub after_suspend : Machine → Ended → Ended
after_suspend m r = if nil_or_saved r.error then r else after r.actions (shutdown_after m r.error)
