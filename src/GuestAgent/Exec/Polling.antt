-- ===== src/GuestAgent/Exec/Polling.antt =====
-- When a guest command has ended (`RunCommandStatus`, `ExecStatus`, `Exec`).
use virtle.Prelude.{
  subst, ◌∙◌, ℕ, ◌+◌, ◌≤◌, String, Bool, true, false, ◌≡◌, refl, List, [], ◌∷◌, ◌++◌, Option, none,
  some, All, if◌then◌else◌, arith,
}
use Prim.Native.String.{len}
use virtle.Prelude.Int.{ℤ, pos, leb_ℤ}
use virtle.Prelude.Errors.{Error, Result, ok, err}
use virtle.GuestAgent.Exec.{
  Poll, ExecStatus, StatusResponse, polled, after_select, wait_error, poll_loop, started, exec,
  exec_status, run_command_status,
}

module _ (limit : ℕ) where
  -- A poll that finds the command running, after which the context has not ended.
  unfoldable pub IsRunning : ℤ → Poll → Type 0
  IsRunning pid p =
      ((s : ExecStatus) × (exec_status limit pid p.response ≡ ok s) × (s.exited ≡ false))
      × (p.ended ≡ none)

  -- A poll that finds the command ended, with this status.
  abbrev pub HasExited : ℤ → Poll → ExecStatus → Type 0
  HasExited pid p s = (exec_status limit pid p.response ≡ ok s) × (s.exited ≡ true)

  module _ (name subject : String) where
    running_lem :
        (pid : ℤ) (p : Poll) (later : Option (Result ExecStatus))
        → IsRunning pid p
        → polled name subject p (exec_status limit pid p.response) later ≡ later
    unfolding IsRunning polled after_select
    running_lem pid p later ((s, e, f), g) = rw e (rw f (rw g refl))

    exited_lem :
        (pid : ℤ) (p : Poll) (s : ExecStatus) (later : Option (Result ExecStatus))
        → HasExited pid p s
        → polled name subject p (exec_status limit pid p.response) later ≡ some (ok s)
    unfolding polled
    exited_lem pid p s later (e, f) = rw e (rw f refl)

    loop_lem :
        (pid : ℤ) (before : List Poll) (p : Poll) (after : List Poll) (s : ExecStatus)
        → All (IsRunning pid) before
        → HasExited pid p s
        → poll_loop limit name subject pid (before ++ p ∷ after) ≡ some (ok s)
    unfolding poll_loop
    loop_lem pid [] p after s r x = exited_lem pid p s (poll_loop limit name subject pid after) x
    loop_lem pid (q ∷ before) p after s r x =
        running_lem pid q (poll_loop limit name subject pid (before ++ p ∷ after)) r.0
        ∙ loop_lem pid before p after s r.1 x

  -- A guest command that starts is waited for through every poll that finds it running, and its status
  -- is that of the first poll that finds it ended.
  pub run_command_status_ends :
      (name subject path : String) (pid : ℤ) (answered : Result (Result ℤ)) (before : List Poll)
      (p : Poll) (after : List Poll) (s : ExecStatus)
      → exec path answered ≡ ok pid
      → All (IsRunning pid) before
      → HasExited pid p s
      → run_command_status limit name subject path answered (before ++ p ∷ after) ≡ some (ok s)
  unfolding run_command_status started
  run_command_status_ends name subject path pid answered before p after s e r x =
      rw e (loop_lem name subject pid before p after s r x)

  -- An exec-status is within the limit of the combined output.
  exec_status_bounds :
      (pid : ℤ) (answered : Result (Result StatusResponse)) (s : ExecStatus)
      → exec_status limit pid answered ≡ ok s
      → len s.out_data + len s.err_data ≤ limit
  unfolding exec_status
  exec_status_bounds pid (err e) s q = absurd (ground arith)
  exec_status_bounds pid (ok (err e)) s q = absurd (ground arith)
  exec_status_bounds pid (ok (ok r)) s q = ground arith

  -- A status that a command may end with.
  IsEnd : Option (Result ExecStatus) → Type 0
  IsEnd (some (ok s)) = (s.exited ≡ true) × (len s.out_data + len s.err_data ≤ limit)
  IsEnd (some (err e)) = Unit
  IsEnd none = Unit

  module _ (name subject : String) where
    after_select-IsEnd :
        (e : Option Error) (later : Option (Result ExecStatus))
        → IsEnd later
        → IsEnd (after_select name subject e later)
    unfolding after_select IsEnd wait_error
    after_select-IsEnd none later h = h
    after_select-IsEnd (some e) later h = tt

    exited-IsEnd :
        (s : ExecStatus) (b : Bool) (later : Option (Result ExecStatus))
        → s.exited ≡ b
        → len s.out_data + len s.err_data ≤ limit
        → IsEnd later
        → IsEnd (if b then some (ok s) else later)
    unfolding IsEnd
    exited-IsEnd s true later e b h = (e, b)
    exited-IsEnd s false later e b h = h

    polled-IsEnd :
        (p : Poll) (r : Result ExecStatus) (later : Option (Result ExecStatus))
        → ((s : ExecStatus) → r ≡ ok s → len s.out_data + len s.err_data ≤ limit)
        → IsEnd later
        → IsEnd (polled name subject p r later)
    unfolding polled IsEnd wait_error
    polled-IsEnd p (err e) later b h = tt
    polled-IsEnd p (ok s) later b h =
        exited-IsEnd s s.exited (after_select name subject p.ended later) refl (b s refl)
          (after_select-IsEnd p.ended later h)

    loop-IsEnd : (pid : ℤ) (polls : List Poll) → IsEnd (poll_loop limit name subject pid polls)
    unfolding poll_loop IsEnd
    loop-IsEnd pid [] = tt
    loop-IsEnd pid (p ∷ polls) =
        polled-IsEnd p (exec_status limit pid p.response) (poll_loop limit name subject pid polls)
          (λ s e. exec_status_bounds pid p.response s e) (loop-IsEnd pid polls)

    started-IsEnd : (r : Result ℤ) (polls : List Poll) → IsEnd (started limit name subject r polls)
    unfolding started IsEnd wait_error
    started-IsEnd (err e) polls = tt
    started-IsEnd (ok pid) polls = loop-IsEnd pid polls

  -- The status that a guest command ends with says that it has exited, and its output is within the
  -- limit.
  run_command_status_exited :
      (name subject path : String) (answered : Result (Result ℤ)) (polls : List Poll)
      (s : ExecStatus)
      → run_command_status limit name subject path answered polls ≡ some (ok s)
      → (s.exited ≡ true) × (len s.out_data + len s.err_data ≤ limit)
  unfolding run_command_status IsEnd
  run_command_status_exited name subject path answered polls s e =
      subst IsEnd e (started-IsEnd name subject (exec path answered) polls)

-- A process id that `Exec` returns is positive.
exec_positive :
    (path : String) (answered : Result (Result ℤ)) (pid : ℤ)
    → exec path answered ≡ ok pid
    → leb_ℤ pid (pos 0) ≡ false
unfolding exec
exec_positive path (err e) pid q = absurd (ground arith)
exec_positive path (ok (err e)) pid q = absurd (ground arith)
exec_positive path (ok (ok p)) pid q = ground arith
