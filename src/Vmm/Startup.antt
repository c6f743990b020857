-- ===== src/Vmm/Startup.antt =====
-- `startWithPlan` of backend/qemu/internal/vmm/startup.go and `startRuns` of vmm/manager.go. What the
-- calls answer is a record; what is taken and given back goes into a list of actions.
pub mod Held
pub mod Release
use virtle.Prelude.{
  String, Bool, true, false, not, ◌&&◌, ◌||◌, List, [], ◌∷◌, ◌++◌, Option, none, some,
  if◌then◌else◌,
}
use virtle.Prelude.Errors.{
  Error, Result, ok, err, plain, wrapf, end, stage_error, errors_join, is_saved_suspend_exit,
}

-- `start_run` and `start_qemu` start a process, `stop_runs` and `close_processes` stop those that were
-- started, and `reach_sockets` is the point from which socket files may exist.
pub data Action : Type 0 where
  cancel_launch acquire_lock release_lock start_run stop_runs start_qemu close_processes : Action
  connect_qmp disconnect_qmp reach_sockets remove_sockets : Action
  create_runtime start_control mark_saved_suspend shutdown_runtime start_balloon : Action

-- The answers of the calls: errors, the processes of the runs one by one, and for QEMU and its monitor
-- also whether something was returned. The last five are those of the clean-up.
pub record Calls : Type 0 where
  pub has_plan : Bool
  pub directory_error : Option Error
  pub lock_error : Option Error
  pub cid_error : Option Error
  pub command_error : Option Error
  pub prepare_error : Option Error
  pub runs_error : Option Error
  pub has_runner : Bool
  pub runs : List (Option Error)
  pub has_virtiofs : Bool
  pub sockets_error : Option Error
  pub qemu : Result Bool
  pub qmp : Result Bool
  pub resumes : Bool
  pub restore_error : Option Error
  pub control_error : Option Error
  pub queued_error : Option Error
  pub has_remote_control : Bool
  pub write_error : Option Error
  pub needs_remote_control : Bool
  pub has_balloon : Bool
  pub runtime_error : Option Error
  pub processes_error : Option Error
  pub cleanup_error : Option Error
  pub disconnect_error : Option Error
  pub remove_error : Option Error

-- How far a launch is: what it did, and the variables that the deferred function reads.
pub record Progress : Type 0 where
  pub did : List Action
  pub has_qmp : Bool
  pub sockets_reached : Bool
  pub started : Bool

-- What is returned, an error or none, and what was done.
pub record Outcome : Type 0 where
  pub error : Option Error
  pub did : List Action

-- The end of a launch that has a runtime.
abbrev end_actions : Bool → List Action
end_actions saved =
    if saved then mark_saved_suspend ∷ shutdown_runtime ∷ [] else shutdown_runtime ∷ []

-- `err = errors.Join(err, started.Close())`, with the mark of a saved suspend.
fail_started : Calls → Progress → Error → Outcome
fail_started w p e = record {
  error = errors_join (some e ∷ w.runtime_error ∷ []);
  did = p.did ++ end_actions (is_saved_suspend_exit e);
}

-- `cleanupErr = errors.Join(cleanupErr, e)` under a condition.
join_if : Bool → Option Error → Option Error → Option Error
join_if b cleanup e = if b then errors_join (cleanup ∷ e ∷ []) else cleanup

-- The errors of the clean-up of a launch that has no runtime yet.
cleanup_errors : Calls → Progress → Option Error
unfolding join_if
cleanup_errors w p =
    let closed = errors_join (none ∷ w.processes_error ∷ []) in
    let cleaned = errors_join (closed ∷ w.cleanup_error ∷ []) in
    join_if p.sockets_reached (join_if p.has_qmp cleaned w.disconnect_error) w.remove_error

-- What the clean-up does.
abbrev cleanup_actions : Bool → Bool → List Action
cleanup_actions has_qmp sockets_reached =
    close_processes
    ∷ release_lock
    ∷ ((if has_qmp then disconnect_qmp ∷ [] else [])
        ++ (if sockets_reached then remove_sockets ∷ [] else []))

fail_unstarted : Calls → Progress → Error → Outcome
unfolding cleanup_errors
fail_unstarted w p e = record {
  error = errors_join (some e ∷ cleanup_errors w p ∷ []);
  did = p.did ++ cleanup_actions p.has_qmp p.sockets_reached;
}

-- The deferred function, on an error.
deferred : Calls → Progress → Error → Outcome
unfolding fail_started fail_unstarted
deferred w p e = if p.started then fail_started w p e else fail_unstarted w p e

-- `return nil, err`: the results are named, so `started` is nil when the deferred function reads it.
unfoldable pub fail : Calls → Progress → Error → Outcome
unfolding deferred
fail w p e = deferred w (record p { started = false }) e

-- `if err != nil { return nil, err }`
unfoldable pub check : Calls → Progress → Option Error → Outcome → Outcome
check w p none next = next
check w p (some e) next = fail w p e

abbrev staged : String → Option Error → Option Error
staged stage none = none
staged stage (some e) = some (stage_error stage e)

-- An answer that is an error or nothing.
abbrev missing : String → String → Result Bool → Option Error
missing stage message (err e) = some (stage_error stage e)
missing stage message (ok true) = none
missing stage message (ok false) = some (stage_error stage (plain message))

-- The error of waitForQMP is returned as it is.
abbrev missing_qmp : Result Bool → Option Error
missing_qmp (err e) = some e
missing_qmp (ok true) = none
missing_qmp (ok false) = some (stage_error "vm startup" (plain "qmp client is required"))

-- The loop of `startRuns`.
start_loop : List (Option Error) → Option Error × List Action
start_loop [] = (none, [])
start_loop (some e ∷ runs) = (some (stage_error "run startup" e), stop_runs ∷ [])
start_loop (none ∷ runs) = let r = start_loop runs in (r.0, start_run ∷ r.1)

no_runner : Bool → List (Option Error) → Option Error × List Action
unfolding start_loop
no_runner has_runner [] = (none, [])
no_runner has_runner (r ∷ runs) =
    if has_runner
    then start_loop (r ∷ runs)
    else (some (stage_error "run startup" (plain "run starter is not configured")), [])

resolved : Calls → Option Error → Option Error × List Action
unfolding no_runner
resolved w (some e) = (some (stage_error "run startup" e), [])
resolved w none = no_runner w.has_runner w.runs

-- `startRuns`
unfoldable pub start_runs : Calls → Option Error × List Action
unfolding resolved
start_runs w = resolved w w.runs_error

abbrev and_did : Progress → List Action → Progress
and_did p more = record p { did = p.did ++ more }

-- The guest's files, where nothing is resumed.
guest_files_error : Calls → Option Error
guest_files_error w =
    if w.resumes
    then none
    else if w.has_remote_control
    then w.write_error
    else if w.needs_remote_control
    then some (
        stage_error "guest agent"
          (plain "guest file writes require remote control (write_files, workspace.mount_cwd)"))
    else none

-- From the control server on.
with_control : Calls → Progress → Outcome
unfolding guest_files_error
with_control w p = check w p w.queued_error (
    check w p (guest_files_error w)
      (record { error = none; did = p.did ++ (if w.has_balloon then start_balloon ∷ [] else []) }))

-- From the runtime on.
with_runtime : Calls → Progress → Outcome
unfolding with_control
with_runtime w p =
    check w p (staged "control startup" w.control_error)
      (with_control w (and_did p (start_control ∷ [])))

-- From the monitor on.
with_monitor : Calls → Progress → Outcome
unfolding with_runtime
with_monitor w p =
    check w p (if w.resumes then w.restore_error else none)
      (with_runtime w (record p { did = p.did ++ create_runtime ∷ []; started = true }))

-- From QEMU on: a monitor that is nil is no monitor for the deferred function.
with_qemu : Calls → Progress → Outcome
unfolding with_monitor
with_qemu w p =
    check w p (missing_qmp w.qmp)
      (with_monitor w (record p { did = p.did ++ connect_qmp ∷ []; has_qmp = true }))

-- From the runs on.
with_runs : Calls → Progress → Outcome
unfolding with_qemu
with_runs w p = check w p (if w.has_virtiofs then w.sockets_error else none) (
    check w p (missing "vm startup" "qemu process is required" w.qemu)
      (with_qemu w (and_did p (start_qemu ∷ []))))

-- From the sockets on.
with_sockets : Calls → Progress → Outcome
unfolding with_runs
with_sockets w p = let r = start_runs w in check w (and_did p r.1) r.0 (with_runs w (and_did p r.1))

-- From the lock on.
with_lock : Calls → Progress → Outcome
unfolding with_sockets
with_lock w p = check w p (staged "preflight" w.cid_error) (
    check w p (staged "preflight" w.command_error) (
      check w p (staged "preflight" w.prepare_error)
        (with_sockets w (record p { did = p.did ++ reach_sockets ∷ []; sockets_reached = true }))))

-- A launch that gets no lock; AcquireRuntimeLock gives back what it took.
refused : List Action → Error → Outcome
refused did e = record { error = some (stage_error "preflight" e); did = did }

locked : Calls → Option Error → Outcome
unfolding with_lock refused
locked w (some e) = refused (cancel_launch ∷ []) e
locked w none =
    with_lock w (record {
      did = acquire_lock ∷ [];
      has_qmp = false;
      sockets_reached = false;
      started = false;
    })

in_directory : Calls → Option Error → Outcome
unfolding locked refused
in_directory w (some e) = refused (cancel_launch ∷ []) (wrapf "create lock directory: %w" end e)
in_directory w none = locked w w.lock_error

-- `startWithPlan`
unfoldable pub start_with_plan : Calls → Outcome
unfolding in_directory refused
start_with_plan w =
    if w.has_plan
    then in_directory w w.directory_error
    else refused [] (plain "launch plan is required")
