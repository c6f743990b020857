-- ===== src/Runtime/Tests.antt =====
-- The lifecycle theorems at concrete inputs.
use virtle.Prelude.{[], ◌∷◌, leb, true, ◌≡◌, ◌≢◌, refl, none, some, if◌then◌else◌}
use virtle.Prelude.Errors.{ok, plain, canceled}
use virtle.Runtime.Closer.{
  unless, CloseActions, close_control, close_processes, disconnect_qmp, clean_up,
}
use virtle.Runtime.Core.{
  Core, new_core, mark_saved_suspend, begin_close, take_action, to_do, killing, begin_suspend,
  marking, closing, acting, asking, Reach, new, next,
}
use virtle.Runtime.Core.Lifecycle.{Inv, Reach-Inv}
use virtle.Runtime.Migration.{Monitor, wait_from, wait_for_migration, SaveClient, RestoreClient}
use virtle.Runtime.Migration.Polling.{wait_for_migration_ends}

-- A teardown in which QMP does not answer, after a suspend that saved the state.
abbrev teardown : CloseActions
teardown = record {
  processes = some none;
  qmp = some (some (plain "broken pipe"));
  write_back = some none;
  skip_write_back = true;
  control = some none;
  cleanup = some none;
}

-- The machine is killed.
abbrev half_closed : Core
half_closed = begin_close (mark_saved_suspend new_core) (killing none) teardown

-- A suspend request comes after the first action of the teardown.
abbrev asked : Core
asked = begin_suspend (
    take_action half_closed close_control none (
      (close_processes, none)
      ∷ (disconnect_qmp, some (plain "broken pipe"))
      ∷ (clean_up, none)
      ∷ []))

asked_reached : Reach asked
unfolding begin_close to_do unless
asked_reached =
    next
      (next (next (next new marking) (closing (killing none) teardown refl)) (
        acting close_control none
          ((close_processes, none)
            ∷ (disconnect_qmp, some (plain "broken pipe"))
            ∷ (clean_up, none)
            ∷ [])
          refl refl))
      asking

Reach-Inv_example : Inv asked
Reach-Inv_example = Reach-Inv asked_reached

-- QMP reports completion in its third answer.
abbrev quick : Monitor
quick = record { query = λ n. if leb 2 n then ok "completed" else ok "active"; ended = λ n. none }

-- It never does, and the context ends the wait after round 3.
abbrev hanging : Monitor
hanging = record { query = λ n. ok "active"; ended = λ n. if leb 3 n then some canceled else none }

takes_three : wait_for_migration quick 3 ≡ some none
unfolding wait_from
takes_three = refl

wait_for_migration_ends_example : wait_for_migration hanging 4 ≢ none
wait_for_migration_ends_example = wait_for_migration_ends hanging 3 refl

abbrev live : SaveClient
live = record { status = ok "running"; stop_error = none; migrate_error = none; monitor = quick }

abbrev waiting : RestoreClient
waiting = record { incoming_error = none; cont_error = none; monitor = quick }
