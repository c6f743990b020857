-- ===== src/Vmm/Handle.antt =====
-- The handle of a running machine: `VM` of backend/qemu/internal/vmm/api.go, and the suspend handler
-- of vmm/manager.go. The parts that a sync.Once or a lock encloses are single steps; what the calls
-- answer is an argument, and what is done goes into a list, the latest last.
pub mod Counts
pub mod Once
use virtle.Prelude.{
  Bool, true, false, not, ◌&&◌, ◌||◌, List, [], ◌∷◌, ◌++◌, Option, none, some, ◌≡◌, if◌then◌else◌,
}
use virtle.Prelude.Errors.{Error, saved_suspend_exit, errors_join, is_saved_suspend_exit}

pub data Action : Type 0 where
  kill_qemu mark_saved_suspend shutdown_runtime remove_state write_back save_state : Action
  write_back_at_exit : Action

-- `VM`, with its suspend handler. A Once that was done has its error; `exit_error` is set when `done`
-- is closed. `write_back_on_exit` is the flag that `startWithPlan` has set by its end, `is_marked` the
-- runtime's mark of a saved suspend, `runtime_closed` whether its teardown was done.
pub record Vm : Type 0 where
  pub resumes : Bool
  pub write_back_on_exit : Bool
  pub is_marked : Bool
  pub runtime_closed : Bool
  pub close_once : Option (Option Error)
  pub commit_once : Option (Option Error)
  pub suspend_once : Option (Option Error)
  pub exit_cause : Option Error
  pub exit_error : Option (Option Error)
  pub did : List Action

abbrev pub new_vm : Bool → Bool → Vm
new_vm resumes write_back_on_exit = record {
  resumes = resumes;
  write_back_on_exit = write_back_on_exit;
  is_marked = false;
  runtime_closed = false;
  close_once = none;
  commit_once = none;
  suspend_once = none;
  exit_cause = none;
  exit_error = none;
  did = [];
}

abbrev do_all : Vm → List Action → Vm
do_all v more = record v { did = v.did ++ more }

-- `MarkSavedSuspend` of the runtime, after other actions.
abbrev mark : Vm → List Action → Vm
mark v more = record v { is_marked = true; did = v.did ++ more }

-- What an operation returns, and the machine after it.
abbrev pub Done : Type 0
Done = Option Error × Vm

-- The write-back in the teardown of the runtime.
unfoldable pub exit_actions : Vm → List Action
exit_actions v = if not v.is_marked && v.write_back_on_exit then write_back_at_exit ∷ [] else []

-- `Shutdown` of the runtime, which is there for the control server too and does its work once.
unfoldable pub shut_down : Vm → Vm
unfolding exit_actions
shut_down v =
    if v.runtime_closed
    then v
    else record v { runtime_closed = true; did = v.did ++ exit_actions v }

close_first : Vm → Option Error → Option (Option Error) → Done
unfolding shut_down
close_first v e (some once) = (once, v)
close_first v e none =
    (e, shut_down (record v { close_once = some e; did = v.did ++ shutdown_runtime ∷ [] }))

-- `closeContext`, `Shutdown` and `close`, with what the shutdown of the runtime returns.
unfoldable pub close_context : Vm → Option Error → Done
unfolding close_first
close_context v e = close_first v e v.close_once

-- `errors.Join` of an error and what a close returns.
join_close : Option Error → Done → Done
join_close e (closed, v) = (errors_join (e ∷ closed ∷ []), v)

-- `Kill`, with the error of KillAndWait if there is a process.
unfoldable pub kill : Vm → Option (Option Error) → Option Error → Done
unfolding join_close
kill v none e = join_close none (close_context v e)
kill v (some killed) e = join_close killed (close_context (do_all v (kill_qemu ∷ [])) e)

commit_first : Vm → Option Error → Option (Option Error) → Done
commit_first v e (some once) = (once, v)
commit_first v e none =
    if v.resumes
    then (e, record v { commit_once = some e; did = v.did ++ remove_state ∷ [] })
    else (none, record v { commit_once = some none })

-- `CommitResume`, with what the removal of the state returns.
unfoldable pub commit_resume : Vm → Option Error → Done
unfolding commit_first
commit_resume v e = commit_first v e v.commit_once

-- `Suspend`, with what the save returns.
unfoldable pub suspend : Vm → Option Error → Option Error → Done
suspend v (some failed) e = (some failed, do_all v (save_state ∷ []))
suspend v none e = close_context (mark v (save_state ∷ mark_saved_suspend ∷ [])) e

-- What the calls of `saveAndExit` answer: the write-back of the guest's files, and the save.
pub record Saving : Type 0 where
  pub write_back_error : Option Error
  pub save_error : Option Error

after_save : Vm → List Action → Option Error → Done
after_save v did none = (
  some saved_suspend_exit,
  record v { suspend_once = some (some saved_suspend_exit); did = v.did ++ did },
)
after_save v did (some e) = (some e, record v { suspend_once = some (some e); did = v.did ++ did })

after_write_back : Vm → Saving → Option Error → Done
unfolding after_save
after_write_back v s none = after_save v (write_back ∷ save_state ∷ []) s.save_error
after_write_back v s (some e) =
    (some e, record v { suspend_once = some (some e); did = v.did ++ write_back ∷ [] })

save_first : Vm → Saving → Option (Option Error) → Done
unfolding after_save after_write_back
save_first v s (some once) = (once, v)
save_first v s none =
    if v.write_back_on_exit
    then after_write_back v s s.write_back_error
    else after_save v (save_state ∷ []) s.save_error

-- `saveAndExit`
unfoldable pub save_and_exit : Vm → Saving → Done
unfolding save_first
save_and_exit v s = save_first v s v.suspend_once

abbrev pub saved : Option Error → Bool
saved none = false
saved (some e) = is_saved_suspend_exit e

after_handle : Done → Option Error → Done
unfolding join_close
after_handle (handled, v) e =
    if saved handled
    then join_close handled (close_context (mark v (mark_saved_suspend ∷ [])) e)
    else (handled, v)

-- `HandleSuspendRequest`; the coordinator is in Launch.Suspend.
unfoldable pub handle_suspend_request : Vm → Saving → Option Error → Done
unfolding after_handle
handle_suspend_request v s e = after_handle (save_and_exit v s) e

-- `addExitCause`
unfoldable pub add_exit_cause : Vm → Option Error → Vm
add_exit_cause v none = v
add_exit_cause v (some e) = record v { exit_cause = errors_join (v.exit_cause ∷ some e ∷ []) }

finish : Vm → Option Error → Done → Vm
finish v first (closed, w) = record w {
  exit_error = some (errors_join (first ∷ w.exit_cause ∷ closed ∷ []));
}

abbrev and_close : Option Error → Vm → Option Error → Vm
and_close none v e = v
and_close (some cause) v e = (close_context (add_exit_cause v (some cause)) e).1

-- `reap` at its end: the cause if the context ended before the process did, and the process's error.
-- A machine that `startWithPlan` returned has a process of QEMU.
unfoldable pub reap : Vm → Option Error → Option Error → Option Error → Vm
unfolding finish
reap v ended waited e = let w = and_close ended v e in finish w waited (close_context w e)

-- What happens to a machine, in any order; `requesting` is a client of the control server that has the
-- runtime shut down.
pub data Step : Vm → Vm → Type 0 where
  closing : (v : Vm) (e : Option Error) → Step v (close_context v e).1
  killing :
      (v : Vm) (killed : Option (Option Error)) (e : Option Error) → Step v (kill v killed e).1
  committing : (v : Vm) (e : Option Error) → Step v (commit_resume v e).1
  suspending : (v : Vm) (failed e : Option Error) → Step v (suspend v failed e).1
  handling : (v : Vm) (s : Saving) (e : Option Error) → Step v (handle_suspend_request v s e).1
  causing : (v : Vm) (e : Option Error) → Step v (add_exit_cause v e)
  requesting : (v : Vm) → Step v (shut_down v)
  reaping : (v : Vm) (ended waited e : Option Error) → Step v (reap v ended waited e)

pub data Reach (v : Vm) : Vm → Type 0 where
  here : Reach v v
  next : {u w : Vm} → Reach v u → Step u w → Reach v w
