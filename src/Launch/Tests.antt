-- ===== src/Launch/Tests.antt =====
-- The launch theorems at concrete inputs.
use virtle.Prelude.{
  All, ◌⊎◌, eq_iff, leb, ◌↔◌, ℕ, ◌≡◌, ◌≢◌, refl, String, Bool, true, false, [], none, some, arith,
}
use virtle.Prelude.Int.{pos}
use virtle.Prelude.Errors.{
  errors_find, errors_join, text, end, str, errorf, wrapf, Error, Result, ok, err, plain, not_exist,
  is_not_exist,
}
use virtle.Launch.Suspend.{System, new_system, ask, asking, Steps, here, more}
use virtle.Launch.Suspend.Waiters.{count, heard, Inv, Steps-Inv}
use virtle.Launch.Suspend.Drain.{OwnSteps, Steps-drain}
use virtle.Launch.Resume.{SuspendState, Saved, resolve_resume_state, with_path}
use virtle.Launch.Resume.Decision.{IsResumable, resolve_resumes_iff}
use virtle.Launch.Save.{
  Manifest, SaveCalls, Disk, filled, save_suspend_state, prepare_vm_state_file,
  write_suspend_state_data, completed_state, saved_on, state_version,
}
use virtle.Launch.Save.Roundtrip.{resume-save, save-IsBacked, IsBacked}
use virtle.Runtime.Migration.{SaveClient, save_to_file, wait_from}
use virtle.Launch.Cid.{VsockCidRange, allocate_cid, acquire_cid}
use virtle.Launch.Cid.Allocation.{IsFirst, allocate_cid_iff}
use virtle.Launch.RuntimeLock.{
  remove_launch_pid, write_launch_pid, remove_suspend_state, LaunchDir, Calls, number, garbage,
  acquire_runtime_lock, cleanup,
}
use virtle.Launch.RuntimeLock.Ownership.{acquire_error}

-- Two clients ask before the launch has looked.
abbrev asked_twice : System
asked_twice = ask (ask new_system (some 4)) (some 9)

asked_twice-Steps : Steps new_system asked_twice
asked_twice-Steps = more (more here (asking (some 4))) (asking (some 9))

Steps-Inv_example : Inv asked_twice
Steps-Inv_example = Steps-Inv asked_twice-Steps

Steps-drain_example :
    (t : System) × OwnSteps none asked_twice t
    × (t.coordinator.waiters ≡ [])
    × ((w : ℕ) → heard w t.delivered ≡ count w t.asked)
    × ((asked_twice.coordinator.completed ≡ true) ⊎ All (λ d. d.result ≡ none) t.delivered)
Steps-drain_example = Steps-drain none asked_twice-Steps

abbrev saved_state : SuspendState
saved_state = record {
  version = "3";
  host_name = "box";
  qmp_socket_path = "/run/qmp.sock";
  vm_state_path = "";
  cid = pos 42;
  timestamp = pos 0;
  status = "saved";
}

abbrev auto : String
auto = "auto"

abbrev saved : Saved
saved = record {
  suspend_state_path = "/state/suspend.json";
  vm_state_path = "/state/vm.bin";
  read = ok saved_state;
  stat = λ path. none;
}

resolve_resumes_iff_example :
    (resolve_resume_state saved auto "3" ≡ ok (some (with_path saved saved_state))) ↔ (
      (auto ≢ "no")
      × ((s : SuspendState) × IsResumable saved "3" s
          × (with_path saved saved_state ≡ with_path saved s)))
resolve_resumes_iff_example = resolve_resumes_iff saved auto "3" (with_path saved saved_state)

abbrev range : VsockCidRange
range = record { start = 3; stop = 9 }

abbrev from_five : ℕ → Result Bool
from_five cid = ok (leb 5 cid)

allocates_five : allocate_cid range (some from_five) ≡ ok 5
unfolding allocate_cid
allocates_five = refl

allocate_cid_iff_example : (allocate_cid range (some from_five) ≡ ok 5) ↔ IsFirst from_five 3 10 5
allocate_cid_iff_example = allocate_cid_iff range from_five 5

acquires_five : acquire_cid range none (some from_five) ≡ ok (pos 5)
unfolding acquire_cid allocate_cid
acquires_five = refl

abbrev willing : Calls
willing = record {
  acquire = none;
  remove_suspend_state = none;
  stat_vm_state = some not_exist;
  ensure_directory = none;
  write_pid = none;
  read_pid = none;
  atoi = plain "invalid syntax";
  remove_pid = none;
  release = none;
}

abbrev full_disk : Calls
full_disk = record willing { write_pid = some (plain "no space left on device", some garbage) }

abbrev left_over : LaunchDir
left_over = record {
  lock_held = false;
  pid_file = some (number (pos 17));
  suspend_state = true;
  canceled = false;
}

acquires : (acquire_runtime_lock willing false (pos 20) left_over).0 ≡ none
unfolding acquire_runtime_lock remove_suspend_state write_launch_pid
acquires = refl

-- What a launch reports that cannot write its PID.
abbrev disk_error : Error
disk_error = wrapf "write launch pid %q: %w" end (plain "no space left on device")

fills : (acquire_runtime_lock full_disk false (pos 20) left_over).0 ≡ some disk_error
unfolding acquire_runtime_lock remove_suspend_state write_launch_pid cleanup remove_launch_pid
    errors_join
fills = refl

acquire_error_example :
    ((acquire_runtime_lock full_disk false (pos 20) left_over).1.pid_file ≢ some (number (pos 20)))
    × ((acquire_runtime_lock full_disk false (pos 20) left_over).1.lock_held ≡ false)
    × ((acquire_runtime_lock full_disk false (pos 20) left_over).1.canceled ≡ true)
acquire_error_example =
    acquire_error full_disk (pos 20) false left_over refl refl refl refl (ground arith) fills

-- The state was saved by another version.
abbrev old_state : SuspendState
old_state = record saved_state { version = "2" }

abbrev old : Saved
old = record saved { read = ok old_state }

abbrev version_error : Error
version_error =
    errorf
      "suspend state %q has %s; this virtle resumes %q — resume with the virtle that wrote it or discard the state"
      (str "/state/suspend.json" (text (errorf "state version %q" (str "2" end)) (str "3" end)))

fails : resolve_resume_state old "auto" "3" ≡ err version_error
unfolding resolve_resume_state
fails = refl

-- A suspend of a paused machine, whose migration is complete at once.
abbrev manifest : Manifest
manifest = record {
  host_name = "box";
  vm_state_path = "/state/vm.bin";
  suspend_state_path = "/state/suspend.json";
}

abbrev all_well : SaveCalls
all_well = record {
  ensure_stream_directory = none;
  remove_stream = some not_exist;
  create_stream = none;
  close_stream = none;
  ensure_state_directory = none;
  write_state = none;
  torn = none;
  now = pos 1700000000;
}

abbrev paused : SaveClient
paused = record {
  status = ok "paused";
  stop_error = none;
  migrate_error = none;
  monitor = record { query = λ n. ok "completed"; ended = λ n. none };
}

abbrev no_files : Disk
no_files = record { stream = none; state = none }

abbrev files : Disk
files = record {
  stream = some filled;
  state = some (record {
    version = "qemu-v1";
    host_name = "box";
    qmp_socket_path = "/run/qmp.sock";
    vm_state_path = "/state/vm.bin";
    cid = pos 42;
    timestamp = pos 1700000000;
    status = "saved";
  });
}

saves_files :
    save_suspend_state manifest "/run/qmp.sock" (pos 42) all_well paused 5 no_files
    ≡ some (none, files)
unfolding save_suspend_state prepare_vm_state_file write_suspend_state_data completed_state
    save_to_file wait_from is_not_exist errors_find
saves_files = refl

resume-save_example :
    (s : SuspendState) × (resolve_resume_state (saved_on manifest files) auto state_version
      ≡ ok (some s))
    × (s.cid ≡ pos 42)
    × (s.vm_state_path ≡ "/state/vm.bin")
    × (some filled ≡ some filled)
resume-save_example =
    resume-save manifest "/run/qmp.sock" auto (pos 42) all_well paused 5 no_files files
      (ground arith) (ground (arith, eq_iff auto "no")) saves_files

save-IsBacked_example : IsBacked files
save-IsBacked_example =
    save-IsBacked manifest "/run/qmp.sock" (pos 42) all_well paused 5 no_files files refl refl
      saves_files
