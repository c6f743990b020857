-- ===== src/Runtime/Migration.antt =====
-- backend/qemu/internal/qmpclient/migration.go: saving and restoring a machine through QMP. Round `n`
-- of the loop asks `query n` for the status and `ended n` whether the context ends the wait.
pub mod Polling
use virtle.Prelude.{
  ℕ, zero, suc, ◌+◌, String, Bool, true, false, not, ◌||◌, List, [], ◌∷◌, ◌++◌, Option, none, some,
  str_eq, if◌then◌else◌,
}
use virtle.Prelude.Errors.{Error, Result, ok, err, errorf, wrapf, str, end}

pub record Monitor : Type 0 where
  pub query : ℕ → Result String
  pub ended : ℕ → Option Error

-- `if status != "" { lastStatus = status }`
last : String → String → String
last status before = if str_eq status "" then before else status

-- What the message says of the last status.
named : String → String
named status = if str_eq status "" then "unknown" else status

-- The select, and `rest` for the rounds after it.
await : String → Option Error → Option (Option Error) → Option (Option Error)
unfolding named
await status (some cause) rest =
    some
      (some (wrapf "migration did not complete: %w; last status %q" (str (named status) end) cause))
await status none rest = rest

-- One round with the status it asked for.
examine :
    String → Result String → Option Error → (String → Option (Option Error)) → Option (Option Error)
unfolding await last
examine before (err e) ended rest = some (some e)
examine before (ok status) ended rest =
    if str_eq status "completed"
    then some none
    else if str_eq status "failed" || str_eq status "cancelled"
    then some (some (errorf "migration %s" (str status end)))
    else await (last status before) ended (rest (last status before))

-- `WaitForMigration` for a number of rounds: none if they are used up.
unfoldable pub wait_from : Monitor → ℕ → ℕ → String → Option (Option Error)
unfolding examine
wait_from m zero n before = none
wait_from m (suc rounds) n before =
    examine before (m.query n) (m.ended n) (λ status. wait_from m rounds (suc n) status)

abbrev pub wait_for_migration : Monitor → ℕ → Option (Option Error)
wait_for_migration m rounds = wait_from m rounds 0 ""

pub record SaveClient : Type 0 where
  pub status : Result String
  pub stop_error : Option Error
  pub migrate_error : Option Error
  pub monitor : Monitor

pub record RestoreClient : Type 0 where
  pub incoming_error : Option Error
  pub cont_error : Option Error
  pub monitor : Monitor

migrate : SaveClient → ℕ → Option Error → Option (Option Error)
migrate c rounds (some e) = some (some e)
migrate c rounds none = wait_for_migration c.monitor rounds

stopped : SaveClient → ℕ → Option Error → Option (Option Error)
unfolding migrate
stopped c rounds (some e) = some (some e)
stopped c rounds none = migrate c rounds c.migrate_error

at_status : SaveClient → ℕ → Result String → Option (Option Error)
unfolding stopped migrate
at_status c rounds (err e) = some (some e)
at_status c rounds (ok status) =
    if str_eq status "paused"
    then migrate c rounds c.migrate_error
    else if str_eq status "running"
    then stopped c rounds c.stop_error
    else some (some (errorf "cannot save VM while QMP status is %q" (str status end)))

-- `SaveToFile`
unfoldable pub save_to_file : SaveClient → ℕ → Option (Option Error)
unfolding at_status
save_to_file c rounds = at_status c rounds c.status

waited : RestoreClient → Option (Option Error) → Option (Option Error)
waited c none = none
waited c (some (some e)) = some (some e)
waited c (some none) = some c.cont_error

incoming : RestoreClient → ℕ → Option Error → Option (Option Error)
unfolding waited
incoming c rounds (some e) = some (some e)
incoming c rounds none = waited c (wait_for_migration c.monitor rounds)

-- `RestoreFromFile`
unfoldable pub restore_from_file : RestoreClient → ℕ → Option (Option Error)
unfolding incoming
restore_from_file c rounds = incoming c rounds c.incoming_error
