-- ===== src/Launch/RuntimeLock.antt =====
-- backend/qemu/internal/launch/runtime_lock.go and the launch PID file of state.go. The persistence
-- directory is a record of what the launch reads and writes there; what the calls answer is given
-- beside it.
pub mod Ownership
use virtle.Prelude.{
  ℕ, String, Bool, true, false, not, ◌&&◌, List, [], ◌∷◌, Option, none, some, if◌then◌else◌,
}
use virtle.Prelude.Int.{ℤ, eq_ℤ}
use virtle.Prelude.Errors.{Error, wrapf, str, end, Result, ok, err, errors_join, is_not_exist}

-- The PID file's text: a decimal number on a line, or a text that Atoi refuses.
pub data PidFile : Type 0 where
  number : ℤ → PidFile
  garbage : PidFile

pub record LaunchDir : Type 0 where
  pub lock_held : Bool
  pub pid_file : Option PidFile
  pub suspend_state : Bool
  -- The launch context was canceled.
  pub canceled : Bool

-- What the calls answer. A write of the PID file that fails also has what it leaves there, which may be
-- nothing, a part or all. `read_pid` fails for another reason than a missing file; the removals fail
-- for another reason than that too.
pub record Calls : Type 0 where
  pub acquire : Option Error
  pub remove_suspend_state : Option Error
  pub stat_vm_state : Option Error
  pub ensure_directory : Option Error
  pub write_pid : Option (Error × Option PidFile)
  pub read_pid : Option Error
  pub atoi : Error
  pub remove_pid : Option Error
  pub release : Option Error

-- `RemoveSuspendState`
unfoldable pub remove_suspend_state : Calls → LaunchDir → Option Error × LaunchDir
remove_suspend_state calls d = elim calls.remove_suspend_state [
  | some e ↦ (some (wrapf "remove suspend state %q: %w" end e), d)
  | none ↦ (none, record d { suspend_state = false })
]

-- `WriteLaunchPID`
unfoldable pub write_launch_pid : Calls → ℤ → LaunchDir → Option Error × LaunchDir
write_launch_pid calls pid d = elim calls.ensure_directory [
  | some e ↦ (some (wrapf "create launch pid directory: %w" end e), d)
  | none ↦ elim calls.write_pid [
    | some (e, left) ↦ (some (wrapf "write launch pid %q: %w" end e), record d { pid_file = left })
    | none ↦ (none, record d { pid_file = some (number pid) })
  ]
]

remove_number : Calls → ℤ → ℤ → LaunchDir → Option Error × LaunchDir
remove_number calls pid current d =
    if not (eq_ℤ current pid) then (none, d) else elim calls.remove_pid [
      | some e ↦ (some (wrapf "remove launch pid %q: %w" end e), d)
      | none ↦ (none, record d { pid_file = none })
    ]

remove_read : Calls → ℤ → Option PidFile → LaunchDir → Option Error × LaunchDir
remove_read calls pid none d = (none, d)
remove_read calls pid (some garbage) d =
    (some (wrapf "invalid launch pid file %q: %w" end calls.atoi), d)
remove_read calls pid (some (number current)) d = remove_number calls pid current d

-- `RemoveLaunchPID`
unfoldable pub remove_launch_pid : Calls → ℤ → LaunchDir → Option Error × LaunchDir
unfolding remove_read remove_number
remove_launch_pid calls pid d = elim calls.read_pid [
  | some e ↦ (some (wrapf "read launch pid %q: %w" end e), d)
  | none ↦ remove_read calls pid d.pid_file d
]

-- `lock.Release`; a close that fails keeps the lock.
release_lock : Calls → LaunchDir → Option Error × LaunchDir
release_lock calls d = elim calls.release [
  | some e ↦ (some e, d)
  | none ↦ (none, record d { lock_held = false })
]

after_remove : Calls → Option Error × LaunchDir → Option Error × LaunchDir
after_remove calls (e, d) =
    let r = release_lock calls d in (errors_join (e ∷ r.0 ∷ []), record (r.1) { canceled = true })

-- `Cleanup`, of a lock whose fields are all set.
unfoldable pub cleanup : Calls → ℤ → LaunchDir → Option Error × LaunchDir
unfolding after_remove release_lock
cleanup calls pid d = after_remove calls (remove_launch_pid calls pid d)

give_up : Calls → ℤ → Error → LaunchDir → Option Error × LaunchDir
give_up calls pid e d = (some e, (cleanup calls pid d).1)

finish_acquire : Calls → ℤ → Option Error × LaunchDir → Option Error × LaunchDir
finish_acquire calls pid (some e, d) = give_up calls pid e d
finish_acquire calls pid (none, d) = (none, d)

-- The check of the saved state, or its removal for a fresh launch.
prepare_state : Calls → Bool → LaunchDir → Option Error × LaunchDir
prepare_state calls true d = elim calls.stat_vm_state [
  | some e ↦ (some (wrapf "saved vm state %q is not available: %w" end e), d)
  | none ↦ (none, d)
]
prepare_state calls false d = remove_suspend_state calls d

after_prepare : Calls → ℤ → Option Error × LaunchDir → Option Error × LaunchDir
after_prepare calls pid (some e, d) = give_up calls pid e d
after_prepare calls pid (none, d) = finish_acquire calls pid (write_launch_pid calls pid d)

-- `AcquireRuntimeLock`; `resume` says whether there is a state to resume.
unfoldable pub acquire_runtime_lock : Calls → Bool → ℤ → LaunchDir → Option Error × LaunchDir
unfolding after_prepare prepare_state finish_acquire give_up
acquire_runtime_lock calls resume pid d = elim calls.acquire [
  | some e ↦ (some e, record d { canceled = true })
  | none ↦ after_prepare calls pid (prepare_state calls resume (record d { lock_held = true }))
]
