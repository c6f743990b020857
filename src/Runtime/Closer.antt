-- ===== src/Runtime/Closer.antt =====
-- backend/qemu/internal/runtime/closer.go: the teardown of a running machine.
pub mod Order
use virtle.Prelude.{
  ℕ, Bool, true, false, not, ◌&&◌, List, [], ◌∷◌, ◌++◌, Option, none, some, if◌then◌else◌,
}
use virtle.Prelude.Errors.{Error, errors_join}
use virtle.Runtime.State.{State, set, finish, stopping, stopped}

pub data Action : Type 0 where
  write_back close_control close_processes disconnect_qmp clean_up : Action

-- `closeActions`: an action that is set has an answer, its error or none.
pub record CloseActions : Type 0 where
  pub processes : Option (Option Error)
  pub qmp : Option (Option Error)
  pub write_back : Option (Option Error)
  pub skip_write_back : Bool
  pub control : Option (Option Error)
  pub cleanup : Option (Option Error)

-- An error so far, and the actions that were taken.
abbrev pub Progress : Type 0
Progress = Option Error × List Action

-- `if a.X != nil { err = errors.Join(err, a.X()) }`
unfoldable pub perform : Action → Option (Option Error) → Progress → Progress
unfolding errors_join
perform a none p = p
perform a (some answer) (e, did) = (errors_join (e ∷ answer ∷ []), did ++ a ∷ [])

unfoldable pub unless : Bool → Option (Option Error) → Option (Option Error)
unless true answer = none
unless false answer = answer

-- `closeActions.Run`
unfoldable pub run : CloseActions → Progress
unfolding unless
run a = perform clean_up a.cleanup (
    perform disconnect_qmp a.qmp (
      perform close_processes a.processes (
        perform close_control a.control
          (perform write_back (unless a.skip_write_back a.write_back) (none, [])))))

-- `closer.once`: it has not begun, runs, or is over.
pub data Once : Type 0 where
  fresh running over : Once

-- `closer`, and what was done.
pub record Closer : Type 0 where
  pub once : Once
  pub err : Option Error
  pub did : List Action

-- `newCloser`
abbrev pub new_closer : Closer
new_closer = record { once = fresh; err = none; did = [] }
