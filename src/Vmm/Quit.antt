-- ===== src/Vmm/Quit.antt =====
-- The shutdown of QEMU that `startWithPlan` of backend/qemu/internal/vmm/startup.go sets, and
-- `quitFreshQMP` of vmm/manager.go. What the calls answer is a record; calls go into a list.
pub mod Ladder
use virtle.Prelude.{Bool, true, false, List, [], ◌∷◌, ◌++◌, Option, none, some, if◌then◌else◌}
use virtle.Prelude.Errors.{Error, wrapf, end, broken, errors_find}

pub data Action : Type 0 where
  request_guest_shutdown wait_for_guest quit dial_qmp quit_fresh disconnect : Action

-- Whether the guest has remote control, and the errors of asking it, of waiting for it, of the QMP quit,
-- of a new connection, and of the quit on it.
pub record Calls : Type 0 where
  pub has_remote_control : Bool
  pub request_error : Option Error
  pub wait_error : Option Error
  pub quit_error : Option Error
  pub dial_error : Option Error
  pub fresh_error : Option Error

pub record Stopped : Type 0 where
  pub error : Option Error
  pub did : List Action

at_broken : Error → Option Bool
at_broken broken = some true
at_broken _ = none

found : Option Bool → Bool
found none = false
found (some b) = b

-- `errors.Is(quitErr, qmpwire.ErrBroken)`
unfoldable pub is_broken : Option Error → Bool
unfolding errors_find at_broken found
is_broken none = false
is_broken (some e) = found (errors_find at_broken e)

fresh_dialed : List Action → Calls → Option Error → Stopped
fresh_dialed did w (some e) = record {
  error = some (wrapf "redial qmp for quit: %w" end e);
  did = did ++ dial_qmp ∷ [];
}
fresh_dialed did w none = record {
  error = w.fresh_error;
  did = did ++ dial_qmp ∷ quit_fresh ∷ disconnect ∷ [];
}

-- `quitFreshQMP`
quit_fresh_qmp : List Action → Calls → Stopped
unfolding fresh_dialed
quit_fresh_qmp did w = fresh_dialed did w w.dial_error

-- The quit through QMP.
force_quit : List Action → Calls → Stopped
unfolding quit_fresh_qmp
force_quit did w =
    if is_broken w.quit_error
    then quit_fresh_qmp (did ++ quit ∷ []) w
    else record { error = w.quit_error; did = did ++ quit ∷ [] }

waited : Calls → Option Error → Stopped
unfolding force_quit
waited w none = record { error = none; did = request_guest_shutdown ∷ wait_for_guest ∷ [] }
waited w (some e) = force_quit (request_guest_shutdown ∷ wait_for_guest ∷ []) w

requested : Calls → Option Error → Stopped
unfolding waited force_quit
requested w none = waited w w.wait_error
requested w (some e) = force_quit (request_guest_shutdown ∷ []) w

-- The function given to `qemu.SetShutdown`
unfoldable pub shutdown_qemu : Calls → Stopped
unfolding requested force_quit
shutdown_qemu w = if w.has_remote_control then requested w w.request_error else force_quit [] w
