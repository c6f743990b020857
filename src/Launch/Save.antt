-- ===== src/Launch/Save.antt =====
-- What a suspend saves: `saveSuspendStateConnected` of backend/qemu/internal/vmm/manager.go, with
-- PrepareVMStateFile and WriteSuspendStateData of backend/qemu/internal/launch/state.go. The state file
-- is modelled by the state that it holds; its JSON is not.
pub mod Roundtrip
use virtle.Prelude.{ℕ, String, Bool, true, false, Option, none, some, str_eq, if◌then◌else◌}
use virtle.Prelude.Int.{ℤ, pos, eq_ℤ}
use virtle.Prelude.Errors.{
  Error, Result, ok, err, errorf, wrapf, plain, str, end, stage_error, is_not_exist, not_exist,
}
use virtle.Launch.Resume.{SuspendState, Saved, suspend_status_saved}
use virtle.Runtime.Migration.{SaveClient, save_to_file}

-- The stream of the machine's memory: a file that QEMU has yet to fill, or has filled.
pub data Stream : Type 0 where
  empty filled : Stream

-- The two files.
pub record Disk : Type 0 where
  pub stream : Option Stream
  pub state : Option SuspendState

-- What the manifest says.
pub record Manifest : Type 0 where
  pub host_name : String
  pub vm_state_path : String
  pub suspend_state_path : String

-- What the calls answer. `torn` is what a write of the state file that fails leaves of it.
pub record SaveCalls : Type 0 where
  pub ensure_stream_directory : Option Error
  pub remove_stream : Option Error
  pub create_stream : Option Error
  pub close_stream : Option Error
  pub ensure_state_directory : Option Error
  pub write_state : Option Error
  pub torn : Option SuspendState
  pub now : ℤ

-- An error of os.Remove other than that of a missing file.
failed_remove : Option Error → Option Error
failed_remove none = none
failed_remove (some e) = if is_not_exist e then none else some e

-- `PrepareVMStateFile`
unfoldable pub prepare_vm_state_file : Manifest → SaveCalls → Disk → Option Error × Disk
unfolding failed_remove
prepare_vm_state_file m calls d = elim calls.ensure_stream_directory [
  | some e ↦ (some (wrapf "create vm state directory: %w" end e), d)
  | none ↦ elim (failed_remove calls.remove_stream) [
    | some e ↦ (some (wrapf "remove stale vm state %q: %w" (str m.vm_state_path end) e), d)
    | none ↦ elim calls.create_stream [
      | some e ↦ (
        some (wrapf "prepare vm state %q: %w" (str m.vm_state_path end) e),
        record d { stream = none },
      )
      | none ↦ elim calls.close_stream [
        | some e ↦ (
          some (wrapf "close vm state %q: %w" (str m.vm_state_path end) e),
          record d { stream = some empty },
        )
        | none ↦ (none, record d { stream = some empty })
      ]
    ]
  ]
]

-- The fields that WriteSuspendStateData fills in.
unfoldable pub completed_state : Manifest → ℤ → SuspendState → SuspendState
completed_state m now s =
    let named = if str_eq s.host_name "" then record s { host_name = m.host_name } else s in
    if eq_ℤ s.timestamp (pos 0) then record named { timestamp = now } else named

-- `WriteSuspendStateData`
unfoldable pub write_suspend_state_data :
    Manifest → SaveCalls → SuspendState → Disk → Option Error × Disk
write_suspend_state_data m calls s d = elim calls.ensure_state_directory [
  | some e ↦ (some (wrapf "create suspend state directory: %w" end e), d)
  | none ↦ elim calls.write_state [
    | some e ↦ (
      some (wrapf "write suspend state %q: %w" (str m.suspend_state_path end) e),
      record d { state = calls.torn },
    )
    | none ↦ (none, record d { state = some (completed_state m calls.now s) })
  ]
]

staged : Option Error × Disk → Option Error × Disk
staged (some e, d) = (some (stage_error "qmp suspend" e), d)
staged (none, d) = (none, d)

after_migration :
    Manifest
    → SaveCalls
    → SuspendState
    → Option (Option Error)
    → Disk
    → Option (Option Error × Disk)
unfolding staged
after_migration m calls s none d = none
after_migration m calls s (some (some e)) d = some (some (stage_error "qmp suspend" e), d)
after_migration m calls s (some none) d =
    some (staged (write_suspend_state_data m calls s (record d { stream = some filled })))

after_prepare :
    Manifest
    → SaveCalls
    → SuspendState
    → Option (Option Error)
    → Option Error × Disk
    → Option (Option Error × Disk)
unfolding after_migration
after_prepare m calls s migration (some e, d) = some (some (stage_error "qmp suspend" e), d)
after_prepare m calls s migration (none, d) = after_migration m calls s migration d

-- `StateVersion`
abbrev pub state_version : String
state_version = "qemu-v1"

-- The state that is written.
abbrev pub state_of : Manifest → String → ℤ → SuspendState
state_of m socket cid = record {
  version = state_version;
  host_name = m.host_name;
  qmp_socket_path = socket;
  vm_state_path = m.vm_state_path;
  cid = cid;
  timestamp = pos 0;
  status = suspend_status_saved;
}

-- `saveSuspendStateConnected` with rounds for the migration's polling: none if they are used up.
unfoldable pub save_suspend_state :
    Manifest → String → ℤ → SaveCalls → SaveClient → ℕ → Disk → Option (Option Error × Disk)
unfolding after_prepare
save_suspend_state m socket cid calls client rounds d =
    after_prepare m calls (state_of m socket cid) (save_to_file client rounds)
      (prepare_vm_state_file m calls d)

-- What a launch finds of the files: `ReadSuspendState` and os.Stat.
found_state : Option SuspendState → Result SuspendState
found_state none = err not_exist
found_state (some s) = ok s

found_stream : Option Stream → Option Error
found_stream none = some not_exist
found_stream (some f) = none

unfoldable pub saved_on : Manifest → Disk → Saved
unfolding found_state found_stream
saved_on m d = record {
  suspend_state_path = m.suspend_state_path;
  vm_state_path = m.vm_state_path;
  read = found_state d.state;
  stat = λ path. if str_eq path m.vm_state_path then found_stream d.stream else some not_exist;
}
