-- ===== src/Launch/RuntimeLock/Ownership.antt =====
-- Who owns the lock and the PID file of backend/qemu/internal/launch/runtime_lock.go, and when.
use virtle.Prelude.{
  inl, inr, Option-cases, ◌&&◌, ◌≡◌, ◌≢◌, refl, Bool, true, false, Option, none, some, arith,
}
use virtle.Prelude.Int.{ℤ, eq_of_parts}
use virtle.Prelude.Errors.{Error}
use virtle.Launch.RuntimeLock.{
  PidFile, number, garbage, LaunchDir, Calls, remove_suspend_state, write_launch_pid,
  remove_launch_pid, remove_read, remove_number, release_lock, after_remove, cleanup, give_up,
  finish_acquire, prepare_state, after_prepare, acquire_runtime_lock,
}

module _ (calls : Calls) (pid : ℤ) where
  -- Cleaning up leaves a PID file that does not hold this process's number alone, and ends the
  -- launch's context.
  cleanup_keeps_others :
      (d : LaunchDir)
      → d.pid_file ≢ some (number pid)
      → ((cleanup calls pid d).1.pid_file ≡ d.pid_file) × ((cleanup calls pid d).1.canceled ≡ true)
  unfolding cleanup remove_launch_pid after_remove release_lock remove_read remove_number
  cleanup_keeps_others d n = (kept d.pid_file refl, refl)
    where
      kept : (f : Option PidFile) → d.pid_file ≡ f → (cleanup calls pid d).1.pid_file ≡ d.pid_file
      kept none e = ground arith
      kept (some garbage) e = ground arith
      kept (some (number q)) e = ground (arith, eq_of_parts q pid)

  -- It takes this process's file away, where the calls succeed, and releases the lock.
  cleanup_own :
      (d : LaunchDir)
      → calls.read_pid ≡ none
      → calls.remove_pid ≡ none
      → calls.release ≡ none
      → ((cleanup calls pid d).1.pid_file ≢ some (number pid))
        × ((cleanup calls pid d).1.lock_held ≡ false)
        × ((cleanup calls pid d).1.canceled ≡ true)
  unfolding cleanup remove_launch_pid after_remove release_lock remove_read remove_number
  cleanup_own d r m l = (gone d.pid_file refl, ground arith, refl)
    where
      gone :
          (f : Option PidFile)
          → d.pid_file ≡ f
          → (cleanup calls pid d).1.pid_file ≢ some (number pid)
      gone none e = ground arith
      gone (some garbage) e = ground arith
      gone (some (number q)) e = ground arith

  abbrev HasEnded : LaunchDir → Type 0
  HasEnded d = (d.pid_file ≢ some (number pid)) × (d.lock_held ≡ false) × (d.canceled ≡ true)

  finish_error :
      (g : Option Error × LaunchDir) {e : Error}
      → calls.read_pid ≡ none
      → calls.remove_pid ≡ none
      → calls.release ≡ none
      → (finish_acquire calls pid g).0 ≡ some e
      → HasEnded (finish_acquire calls pid g).1
  unfolding finish_acquire give_up
  finish_error (some x, d) r m l h = cleanup_own d r m l
  finish_error (none, d) r m l h = cc

  prepare_error :
      (g : Option Error × LaunchDir) {e : Error}
      → calls.read_pid ≡ none
      → calls.remove_pid ≡ none
      → calls.release ≡ none
      → (after_prepare calls pid g).0 ≡ some e
      → HasEnded (after_prepare calls pid g).1
  unfolding after_prepare give_up
  prepare_error (some x, d) r m l h = cleanup_own d r m l
  prepare_error (none, d) r m l h = finish_error (write_launch_pid calls pid d) r m l h

  acquire_open :
      (resume : Bool) (d : LaunchDir)
      → calls.acquire ≡ none
      → acquire_runtime_lock calls resume pid d
        ≡ after_prepare calls pid (prepare_state calls resume (record d { lock_held = true }))
  unfolding acquire_runtime_lock
  acquire_open resume d a = ground arith

  acquire_refused :
      (resume : Bool) (d : LaunchDir) {e : Error}
      → calls.acquire ≡ some e
      → (acquire_runtime_lock calls resume pid d).1 ≡ record d { canceled = true }
  unfolding acquire_runtime_lock
  acquire_refused resume d a = ground arith

  -- Where the reading and removing of the PID file and the release of the lock succeed, the lock was free
  -- and the PID was not on file: a launch that fails to take its place, whatever a failed write left in the
  -- PID file, leaves the lock free, its PID not on file, and its context ended. Its saved state may be
  -- removed.
  pub acquire_error :
      (resume : Bool) (d : LaunchDir) {e : Error}
      → calls.read_pid ≡ none
      → calls.remove_pid ≡ none
      → calls.release ≡ none
      → d.lock_held ≡ false
      → d.pid_file ≢ some (number pid)
      → (acquire_runtime_lock calls resume pid d).0 ≡ some e
      → ((acquire_runtime_lock calls resume pid d).1.pid_file ≢ some (number pid))
        × ((acquire_runtime_lock calls resume pid d).1.lock_held ≡ false)
        × ((acquire_runtime_lock calls resume pid d).1.canceled ≡ true)
  acquire_error resume d r m l free other h = elim (Option-cases calls.acquire) [
    | inr (x, a) ↦ rw (acquire_refused resume d a) (other, free, refl)
    | inl a ↦ rw (acquire_open resume d a) (
        prepare_error (prepare_state calls resume (record d { lock_held = true })) r m l
          (rw (acquire_open resume d a) at h))
  ]

  -- A launch that takes its place holds the lock, has its PID on file, has not ended its context,
  -- and unless it resumes has removed the saved state.
  acquire_ok :
      (resume : Bool) (d : LaunchDir)
      → (acquire_runtime_lock calls resume pid d).0 ≡ none
      → ((acquire_runtime_lock calls resume pid d).1) ≡ record {
        lock_held = true;
        pid_file = some (number pid);
        suspend_state = d.suspend_state && resume;
        canceled = d.canceled;
      }
  unfolding acquire_runtime_lock after_prepare prepare_state remove_suspend_state finish_acquire
      give_up write_launch_pid
  acquire_ok true d h = ground arith
  acquire_ok false d h = ground arith
