-- ===== src/Vmm/Tests.antt =====
-- The theorems on machines at concrete inputs.
use virtle.Prelude.{true, false, ◌≡◌, ◌⊎◌, ◌↔◌, [], ◌∷◌, none, some}
use virtle.Prelude.Errors.{ok, err, plain, broken}
use virtle.Vmm.Handle.{
  Vm, Saving, new_vm, commit_resume, handle_suspend_request, reap, close_context,
}
use virtle.Vmm.Quit.{Calls, shutdown_qemu}
use virtle.Vmm.Quit.Ladder.{GuestExits, Quits, shutdown_qemu_iff}
use virtle.Vmm.Startup.{start_with_plan}
use virtle.Vmm.Startup.Held.{Holds}
use virtle.Vmm.Startup.Release.{start_with_plan_releases}

-- The monitor is broken, and a new one takes the quit.
abbrev poisoned : Calls
poisoned = record {
  has_remote_control = false;
  request_error = none;
  wait_error = none;
  quit_error = some broken;
  dial_error = none;
  fresh_error = none;
}

shutdown_qemu_iff_example :
    ((shutdown_qemu poisoned).error ≡ none) ↔ (GuestExits poisoned ⊎ Quits poisoned)
shutdown_qemu_iff_example = shutdown_qemu_iff poisoned

abbrev saving : Saving
saving = record { write_back_error = none; save_error = none }

abbrev started : Vm
started = new_vm true true

abbrev committed : Vm
committed = (commit_resume started none).1

abbrev handled : Vm
handled = (handle_suspend_request committed saving none).1

-- A resumed machine that is suspended, exits and is shut down again.
abbrev ended : Vm
ended = (close_context (reap handled none none none) (some (plain "late"))).1

-- The monitor does not answer; two helpers run.
abbrev silent : virtle.Vmm.Startup.Calls
silent = record {
  has_plan = true;
  directory_error = none;
  lock_error = none;
  cid_error = none;
  command_error = none;
  prepare_error = none;
  runs_error = none;
  has_runner = true;
  runs = none ∷ none ∷ [];
  has_virtiofs = true;
  sockets_error = none;
  qemu = ok true;
  qmp = err (plain "no greeting");
  resumes = false;
  restore_error = none;
  control_error = none;
  queued_error = none;
  has_remote_control = true;
  write_error = none;
  needs_remote_control = false;
  has_balloon = false;
  runtime_error = none;
  processes_error = none;
  cleanup_error = none;
  disconnect_error = none;
  remove_error = none;
}

start_with_plan_releases_example : Holds (start_with_plan silent).error (start_with_plan silent).did
start_with_plan_releases_example = start_with_plan_releases silent
