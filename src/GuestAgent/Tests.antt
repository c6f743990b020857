-- ===== src/GuestAgent/Tests.antt =====
-- The theorems on the guest agent at concrete inputs.
use virtle.Prelude.{
  ◌==◌, if◌then◌else◌, ℕ, true, false, ◌≡◌, refl, List, [], ◌∷◌, ◌++◌, Option, none, some, arith,
}
use virtle.Prelude.Int.{ℤ, pos}
use virtle.Prelude.Errors.{ok, eof}
use virtle.GuestAgent.Sync.{synchronize, sync_id}
use virtle.GuestAgent.Sync.Stale.{Reply, all_on_wire, on_wire, IsReply, synchronize_stale}
use virtle.GuestAgent.Exec.{Poll, ExecStatus, run_command_status, exec, exec_status}
use virtle.GuestAgent.Exec.Polling.{run_command_status_ends, IsRunning}

-- The lines "1" and "2", of which the second is the reply to the sync.
abbrev returned : List ℕ → Option ℤ
returned [] = none
returned (b ∷ line) = if b == 50 then some sync_id else if b == 49 then some (pos 1) else none

abbrev stale : Reply
stale = record { noise = 123 ∷ 125 ∷ []; line = 49 ∷ [] }

abbrev own : Reply
own = record { noise = 10 ∷ []; line = 50 ∷ [] }

stale-IsReply : IsReply 16 stale
unfolding IsReply
stale-IsReply = ((refl, (refl, tt)), (refl, tt), omega arith, omega arith)

own-IsReply : IsReply 16 own
unfolding IsReply
own-IsReply = ((refl, tt), (refl, tt), omega arith, omega arith)

synchronize_stale_example :
    synchronize returned eof 16 (all_on_wire (stale ∷ stale ∷ []) (on_wire own (7 ∷ [])))
    ≡ ok (7 ∷ [])
synchronize_stale_example =
    synchronize_stale returned eof 16 (stale ∷ stale ∷ []) own (7 ∷ [])
      ((stale-IsReply, refl), ((stale-IsReply, refl), tt)) own-IsReply refl

abbrev running : Poll
running = record {
  response = ok (ok (record { exited = false; exit_code = none; out_data = ""; err_data = "" }));
  ended = none;
}

abbrev exited : Poll
exited = record {
  response =
      ok
        (ok (record { exited = true; exit_code = some (pos 2); out_data = "b2s="; err_data = "" }));
  ended = none;
}

abbrev status : ExecStatus
status = record { exited = true; exit_code = pos 2; out_data = "b2s="; err_data = "" }

abbrev still : ExecStatus
still = record { exited = false; exit_code = pos 0; out_data = ""; err_data = "" }

starts : exec "/bin/true" (ok (ok (pos 41))) ≡ ok (pos 41)
unfolding exec
starts = refl

is_running : IsRunning 64 (pos 41) running
unfolding IsRunning exec_status
is_running = ((still, refl, refl), refl)

has_exited : exec_status 64 (pos 41) exited.response ≡ ok status
unfolding exec_status
has_exited = refl

run_command_status_ends_example :
    run_command_status 64 "run" "true" "/bin/true"
      (ok (ok (pos 41)))
      ((running ∷ running ∷ []) ++ exited ∷ [])
    ≡ some (ok status)
run_command_status_ends_example =
    run_command_status_ends 64 "run" "true" "/bin/true" (pos 41) (ok (ok (pos 41)))
      (running ∷ running ∷ []) exited [] status starts (is_running, (is_running, tt))
      (has_exited, refl)

command_ends :
    run_command_status 64 "run" "true" "/bin/true" (ok (ok (pos 41))) (running ∷ exited ∷ [])
    ≡ some (ok status)
unfolding run_command_status exec exec_status
command_ends = refl
