-- ===== src/Executor/Tests.antt =====
-- The executor theorems at concrete inputs.
use virtle.Prelude.{◌<◌, arith, leb, ℕ, true, false, ◌≡◌, refl, List, [], ◌∷◌, none, some}
use virtle.Prelude.Int.{pos}
use virtle.Prelude.Errors.{errors_join, plain}
use virtle.Executor.LineLogger.{LineLogger, write}
use virtle.Executor.LineLogger.Pieces.{write_refines, feed}
use virtle.Executor.Process.{Process, stop_process, is_failure}
use virtle.Executor.Process.Escalation.{kills, IsLeft, stop_leaves}
use virtle.Executor.Group.{first_exit, remove, stop_all}

-- A logger of records of four bytes, with one byte in its buffer.
abbrev line_logger : LineLogger
line_logger = record { buffer = 97 ∷ []; logged = [] }

positive : 0 < 4
positive = omega arith

write_refines_example :
    write 4 line_logger (98 ∷ 13 ∷ 10 ∷ 99 ∷ 100 ∷ 101 ∷ 102 ∷ 103 ∷ [])
    ≡ feed 4 positive line_logger (98 ∷ 13 ∷ 10 ∷ 99 ∷ 100 ∷ 101 ∷ 102 ∷ 103 ∷ [])
write_refines_example =
    write_refines 4 positive line_logger (98 ∷ 13 ∷ 10 ∷ 99 ∷ 100 ∷ 101 ∷ 102 ∷ 103 ∷ [])
      (omega arith)

abbrev members : List ℕ
members = 4 ∷ 7 ∷ 4 ∷ 9 ∷ []

-- It answers a SIGTERM.
abbrev calm : Process
calm = record {
  name = "virtiofsd";
  grace_period = pos 0;
  has_shutdown = false;
  exited = false;
  wait_error = none;
  ctx_ended_before_shutdown = false;
  shutdown_error = none;
  exits_after_shutdown = false;
  ctx_ended_before_term = false;
  term_error = none;
  exits_after_term = true;
  kill_error = none;
  exits_after_kill = true;
}

-- It ignores a SIGTERM.
abbrev stubborn : Process
stubborn = record calm { exits_after_term = false }

-- It may not be signalled.
abbrev foreign : Process
foreign = record calm { term_error = some (plain "operation not permitted") }

calm_stops : (stop_process calm).error ≡ none
unfolding stop_process is_failure
calm_stops = refl

foreign_left : (stop_process foreign).saw_exit ≡ false
unfolding stop_process is_failure
foreign_left = refl

stop_leaves_example : IsLeft foreign (stop_process foreign).actions
stop_leaves_example = stop_leaves foreign foreign_left

stubborn_killed : kills (stop_process stubborn).actions ≡ true
unfolding stop_process is_failure kills
stubborn_killed = refl

removes_last : remove members (some 4) ≡ (true, 4 ∷ 7 ∷ 9 ∷ [])
unfolding remove
removes_last = refl

all_stop : (stop_all (λ p. calm) members).0 ≡ none
unfolding stop_all stop_process errors_join is_failure
all_stop = refl

-- The process at 7 has exited, and so has the one at 9 after it.
abbrev by_address : ℕ → Process
by_address p = record calm { exited = leb 7 p; wait_error = some (plain "exit status 1") }

first_is_seven : first_exit by_address (4 ∷ 7 ∷ 9 ∷ []) ≡ some (7, some (plain "exit status 1"))
unfolding first_exit
first_is_seven = refl
