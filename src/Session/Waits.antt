-- ===== src/Session/Waits.antt =====
-- The selects of backend/qemu/session/session.go. Nothing left to see is `none`: the session waits.
use virtle.Prelude.{String, List, [], ◌∷◌, Option, none, some, str_eq, if◌then◌else◌}
use virtle.Prelude.Errors.{Error, Result, ok, err, plain, wrapf, end}
use virtle.Session.{
  Event, process_exited, token_read, machine_exited, request, timer, signal, ended, sigtstp,
  sigusr1, Action, ssh_exited, stop_ssh, machine_gone, Hooks, Machine, Status, Ended, requests,
  handle_suspend, after, suspend, shutdown_after, after_suspend,
}

-- An end with an error and one action.
abbrev stopped : Option Error → Action → Ended
stopped e did = record { error = e; actions = did ∷ [] }

-- `if err := m.Err(); err != nil { return err }; return errors.New(otherwise)`
abbrev pub exit_error : Option Error → String → Option Error
exit_error none otherwise = some (plain otherwise)
exit_error (some e) _ = some e

-- `waitForMachine`
unfoldable pub wait_for_machine : Machine → Hooks → List Event → Option Ended
wait_for_machine m h [] = none
wait_for_machine m h (machine_exited ∷ es) = some (stopped m.error machine_gone)
wait_for_machine m h (request ∷ es) =
    let later = wait_for_machine m h es in
    if requests h then some (after_suspend m (handle_suspend h)) else later
wait_for_machine m h (signal sigusr1 ∷ es) = wait_for_machine m h es
wait_for_machine m h (signal sigtstp ∷ es) = some (after_suspend m (suspend m h))
wait_for_machine m h (ended cause ∷ es) = some (shutdown_after m (some cause))
wait_for_machine m h (process_exited _ ∷ es) = wait_for_machine m h es
wait_for_machine m h (token_read _ ∷ es) = wait_for_machine m h es
wait_for_machine m h (timer ∷ es) = wait_for_machine m h es

-- The loop of `waitReady`.
unfoldable pub ready_loop : Machine → Hooks → List Event → Option Ended
ready_loop m h [] = none
ready_loop m h (token_read e ∷ es) = some (record { error = e; actions = [] })
ready_loop m h (machine_exited ∷ es) =
    some (stopped (exit_error m.error "machine exited before SSH readiness") machine_gone)
ready_loop m h (request ∷ es) =
    let later = ready_loop m h es in if requests h then some (handle_suspend h) else later
ready_loop m h (signal sigtstp ∷ es) = some (suspend m h)
ready_loop m h (signal sigusr1 ∷ es) = ready_loop m h es
ready_loop m h (ended cause ∷ es) =
    some (record { error = some (wrapf "wait for SSH readiness: %w" end cause); actions = [] })
ready_loop m h (process_exited _ ∷ es) = ready_loop m h es
ready_loop m h (timer ∷ es) = ready_loop m h es

unfoldable pub ready_dial : Machine → Hooks → List Event → Option Error → Option Ended
unfolding ready_loop
ready_dial m h es none = ready_loop m h es
ready_dial m h es (some e) =
    some (record { error = some (wrapf "connect readiness socket: %w" end e); actions = [] })

unfoldable pub ready_status :
    Machine → Hooks → Option Error → List Event → Option (Result Status) → Option Ended
unfolding ready_dial
ready_status m h dial_error es none = some (record { error = none; actions = [] })
ready_status m h dial_error es (some (err e)) = some (record { error = some e; actions = [] })
ready_status m h dial_error es (some (ok s)) =
    if str_eq s.ready_socket ""
    then some (record { error = none; actions = [] })
    else ready_dial m h es dial_error

-- `waitReady`, with the error of dialing the readiness socket.
unfoldable pub wait_ready : Machine → Hooks → Option Error → List Event → Option Ended
unfolding ready_status
wait_ready m h dial_error es = ready_status m h dial_error es m.reporter

-- `waitForSSHProcess`
unfoldable pub wait_for_ssh_process : Machine → Hooks → List Event → Option Ended
wait_for_ssh_process m h [] = none
wait_for_ssh_process m h (process_exited e ∷ es) = some (stopped e ssh_exited)
wait_for_ssh_process m h (machine_exited ∷ es) =
    some (after (stop_ssh ∷ []) (stopped m.error machine_gone))
wait_for_ssh_process m h (request ∷ es) =
    let later = wait_for_ssh_process m h es in
    if requests h then some (after (stop_ssh ∷ []) (handle_suspend h)) else later
wait_for_ssh_process m h (signal sigusr1 ∷ es) = wait_for_ssh_process m h es
wait_for_ssh_process m h (signal sigtstp ∷ es) = some (after (stop_ssh ∷ []) (suspend m h))
wait_for_ssh_process m h (ended cause ∷ es) = some (stopped (some cause) stop_ssh)
wait_for_ssh_process m h (token_read _ ∷ es) = wait_for_ssh_process m h es
wait_for_ssh_process m h (timer ∷ es) = wait_for_ssh_process m h es

-- `waitForSSHRetry`
unfoldable pub wait_for_ssh_retry : Machine → Hooks → List Event → Option Ended
wait_for_ssh_retry m h [] = none
wait_for_ssh_retry m h (timer ∷ es) = some (record { error = none; actions = [] })
wait_for_ssh_retry m h (machine_exited ∷ es) =
    some (stopped (exit_error m.error "machine exited before SSH retry") machine_gone)
wait_for_ssh_retry m h (request ∷ es) =
    let later = wait_for_ssh_retry m h es in if requests h then some (handle_suspend h) else later
wait_for_ssh_retry m h (signal sigusr1 ∷ es) = wait_for_ssh_retry m h es
wait_for_ssh_retry m h (signal sigtstp ∷ es) = some (suspend m h)
wait_for_ssh_retry m h (ended cause ∷ es) = some (record { error = some cause; actions = [] })
wait_for_ssh_retry m h (process_exited _ ∷ es) = wait_for_ssh_retry m h es
wait_for_ssh_retry m h (token_read _ ∷ es) = wait_for_ssh_retry m h es
