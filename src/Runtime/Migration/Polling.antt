-- ===== src/Runtime/Migration/Polling.antt =====
-- When the loop of backend/qemu/internal/qmpclient/migration.go ends, and with what.
use virtle.Prelude.{
  ap, subst, ◌∙◌, ℕ, zero, suc, ◌+◌, String, ◌≡◌, ◌≢◌, refl, ◌↔◌, ◌⊎◌, inl, inr, Option, none, some,
  eq_iff, arith,
}
use virtle.Prelude.Errors.{Error, Result, ok, err}
use virtle.Runtime.Migration.{
  Monitor, last, await, examine, wait_from, wait_for_migration, SaveClient, migrate, stopped,
  at_status, save_to_file, RestoreClient, waited, incoming, restore_from_file,
}

-- The rounds from `n` on up to the one in which QMP says that the migration is complete.
pub data Completes (m : Monitor) : ℕ → Type 0 where
  at_once : {n : ℕ} → m.query n ≡ ok "completed" → Completes m n
  later :
      {n : ℕ} {status : String}
      → m.query n ≡ ok status
      → status ≢ "completed"
      → status ≢ "failed"
      → status ≢ "cancelled"
      → m.ended n ≡ none
      → Completes m (suc n)
      → Completes m n

-- A round that goes on.
abbrev IsPending : String → Type 0
IsPending status = (status ≢ "completed") × (status ≢ "failed") × (status ≢ "cancelled")

examine_success :
    (before status : String) (e : Option Error) (rest : String → Option (Option Error))
    → examine before (ok status) e rest ≡ some none
    → (status ≡ "completed")
      ⊎ (IsPending status × (e ≡ none) × (rest (last status before) ≡ some none))
unfolding examine await
examine_success before status none rest h =
    ground (arith, eq_iff status "completed", eq_iff status "failed", eq_iff status "cancelled")
examine_success before status (some x) rest h =
    ground (arith, eq_iff status "completed", eq_iff status "failed", eq_iff status "cancelled")

examine_error :
    (before : String) (e : Error) (x : Option Error) (rest : String → Option (Option Error))
    → examine before (err e) x rest ≢ some none
unfolding examine
examine_error before e x rest = ground arith

examine_sound :
    (m : Monitor) (rounds n : ℕ) (before : String) (r : Result String)
    → m.query n ≡ r
    → ((b : String) → wait_from m rounds (suc n) b ≡ some none → Completes m (suc n))
    → examine before r (m.ended n) (λ s. wait_from m rounds (suc n) s) ≡ some none
    → Completes m n
examine_sound m rounds n before (err e) q rec h =
    absurd (examine_error before e (m.ended n) (λ s. wait_from m rounds (suc n) s) h)
examine_sound m rounds n before (ok status) q rec h =
    elim (examine_success before status (m.ended n) (λ s. wait_from m rounds (suc n) s) h) [
      | inl c ↦ at_once (q ∙ ap ok c)
      | inr ((a, b, c), e, more) ↦ later q a b c e (rec (last status before) more)
    ]

wait_sound :
    (m : Monitor) (rounds n : ℕ) (before : String)
    → wait_from m rounds n before ≡ some none
    → Completes m n
unfolding wait_from
wait_sound m zero n before h = absurd (ground arith)
wait_sound m (suc rounds) n before h =
    examine_sound m rounds n before (m.query n) refl (λ b e. wait_sound m rounds (suc n) b e) h

examine_pending :
    (before status : String) (rest : String → Option (Option Error))
    → IsPending status
    → examine before (ok status) none rest ≡ rest (last status before)
unfolding examine await
examine_pending before status rest p =
    ground (arith, eq_iff status "completed", eq_iff status "failed", eq_iff status "cancelled")

examine_completed :
    (before : String) (e : Option Error) (rest : String → Option (Option Error))
    → examine before (ok "completed") e rest ≡ some none
unfolding examine
examine_completed before e rest = refl

-- The number of rounds that it takes.
pub rounds_of : {m : Monitor} {n : ℕ} → Completes m n → ℕ
rounds_of (at_once q) = 1
rounds_of (later q a b c e rest) = suc (rounds_of rest)

wait_done :
    (m : Monitor) (rounds n : ℕ) (before : String)
    → m.query n ≡ ok "completed"
    → wait_from m (suc rounds) n before ≡ some none
unfolding wait_from
wait_done m rounds n before q =
    rw q (examine_completed before (m.ended n) (λ s. wait_from m rounds (suc n) s))

wait_pending :
    (m : Monitor) (rounds n : ℕ) (before : String) {status : String}
    → m.query n ≡ ok status
    → IsPending status
    → m.ended n ≡ none
    → wait_from m (suc rounds) n before ≡ wait_from m rounds (suc n) (last status before)
unfolding wait_from
wait_pending m rounds n before {status} q p e =
    rw q (rw e (examine_pending before status (λ s. wait_from m rounds (suc n) s) p))

wait_complete :
    (m : Monitor) {n : ℕ} (before : String) (c : Completes m n)
    → wait_from m (rounds_of c) n before ≡ some none
unfolding rounds_of
wait_complete m {n} before (at_once q) = wait_done m 0 n before q
wait_complete m {n} before (later {status = status} q a b c e rest) =
    wait_pending m (rounds_of rest) n before q (a, b, c) e
    ∙ wait_complete m (last status before) rest

-- The wait succeeds, in some number of rounds, exactly if QMP reports completion in a round before
-- which it reports no failure and the context does not end.
wait_for_migration_iff :
    (m : Monitor) → ((rounds : ℕ) × (wait_for_migration m rounds ≡ some none)) ↔ Completes m 0
wait_for_migration_iff m =
    (λ (r, h). wait_sound m r 0 "" h, λ c. (rounds_of c, wait_complete m "" c))

examine_some :
    (before : String) (r : Result String) (e : Option Error) (rest : String → Option (Option Error))
    → ((b : String) → rest b ≢ none)
    → examine before r e rest ≢ none
unfolding examine await
examine_some before (err x) e rest s = ground arith
examine_some before (ok status) none rest s = ground (arith, s (last status before))
examine_some before (ok status) (some x) rest s = ground arith

ended_some :
    (before : String) (r : Result String) (e : Error) (rest : String → Option (Option Error))
    → examine before r (some e) rest ≢ none
unfolding examine await
ended_some before (err x) e rest = ground arith
ended_some before (ok status) e rest = ground arith

wait_ends :
    (m : Monitor) (more n : ℕ) (before : String) (e : Error)
    → m.ended (more + n) ≡ some e
    → wait_from m (suc more) n before ≢ none
unfolding wait_from
wait_ends m zero n before e h =
    let now : m.ended n ≡ some e = subst (λ k. m.ended k ≡ some e) (omega arith) h in
    rw now (ended_some before (m.query n) e (λ s. wait_from m 0 (suc n) s))
wait_ends m (suc more) n before e h =
    examine_some before (m.query n) (m.ended n) (λ s. wait_from m (suc more) (suc n) s)
      (λ b. wait_ends m more (suc n) b e (subst (λ k. m.ended k ≡ some e) (omega arith) h))

-- If the context ends the wait in round `n`, then `n + 1` rounds give a result.
pub wait_for_migration_ends :
    (m : Monitor) (n : ℕ) {e : Error} → m.ended n ≡ some e → wait_for_migration m (suc n) ≢ none
wait_for_migration_ends m n {e} h =
    wait_ends m n 0 "" e (subst (λ k. m.ended k ≡ some e) (omega arith) h)

-- The status that a save accepts: paused, or running and stopped without an error.
abbrev pub CanSave : SaveClient → Type 0
CanSave c = (c.status ≡ ok "paused") ⊎ ((c.status ≡ ok "running") × (c.stop_error ≡ none))

abbrev Saves : SaveClient → ℕ → Type 0
Saves c rounds =
    CanSave c × (c.migrate_error ≡ none) × (wait_for_migration c.monitor rounds ≡ some none)

migrate_sound :
    (c : SaveClient) (rounds : ℕ) (e : Option Error)
    → migrate c rounds e ≡ some none
    → (e ≡ none) × (wait_for_migration c.monitor rounds ≡ some none)
unfolding migrate
migrate_sound c rounds none h = (refl, h)
migrate_sound c rounds (some e) h = absurd (ground arith)

stopped_sound :
    (c : SaveClient) (rounds : ℕ) (e : Option Error)
    → stopped c rounds e ≡ some none
    → (e ≡ none) × (migrate c rounds c.migrate_error ≡ some none)
unfolding stopped
stopped_sound c rounds none h = (refl, h)
stopped_sound c rounds (some e) h = absurd (ground arith)

at_status_sound :
    (c : SaveClient) (rounds : ℕ) (r : Result String)
    → c.status ≡ r
    → at_status c rounds r ≡ some none
    → Saves c rounds
unfolding at_status
at_status_sound c rounds (err e) q h = absurd (ground arith)
at_status_sound c rounds (ok status) q h = ground (
  arith,
  eq_iff status "paused",
  eq_iff status "running",
  migrate_sound c rounds c.migrate_error,
  stopped_sound c rounds c.stop_error,
)

saves : (c : SaveClient) (rounds : ℕ) → Saves c rounds → save_to_file c rounds ≡ some none
unfolding save_to_file at_status stopped migrate
saves c rounds (inl s, m, w) = rw s (rw m w)
saves c rounds (inr (s, t), m, w) = rw s (rw t (rw m w))

-- A save succeeds, in some number of rounds, exactly if the machine is paused or can be stopped, the
-- migration starts, and QMP reports its completion.
save_to_file_iff :
    (c : SaveClient)
    → ((rounds : ℕ) × (save_to_file c rounds ≡ some none))
      ↔ (CanSave c × (c.migrate_error ≡ none) × Completes c.monitor 0)
unfolding save_to_file
save_to_file_iff c = (
  λ (r, h).
      let s = at_status_sound c r c.status refl h in
      (s.0, s.1, (wait_for_migration_iff c.monitor).0 (r, s.2)),
  λ (s, m, w). let v = (wait_for_migration_iff c.monitor).1 w in (v.0, saves c v.0 (s, m, v.1)),
)

waited_lem :
    (c : RestoreClient) (w : Option (Option Error))
    → (waited c w ≡ some none) ↔ ((w ≡ some none) × (c.cont_error ≡ none))
unfolding waited
waited_lem c none = (λ h. absurd (ground arith), λ (h, k). absurd (ground arith))
waited_lem c (some none) = (λ h. (refl, ground arith), λ (h, k). ap some k)
waited_lem c (some (some e)) = (λ h. absurd (ground arith), λ (h, k). absurd (ground arith))

incoming_lem :
    (c : RestoreClient) (rounds : ℕ) (e : Option Error)
    → (incoming c rounds e ≡ some none)
      ↔ ((e ≡ none) × (wait_for_migration c.monitor rounds ≡ some none) × (c.cont_error ≡ none))
unfolding incoming
incoming_lem c rounds none = (
  λ h. let w = (waited_lem c (wait_for_migration c.monitor rounds)).0 h in (refl, w.0, w.1),
  λ (a, b, d). (waited_lem c (wait_for_migration c.monitor rounds)).1 (b, d),
)
incoming_lem c rounds (some e) = (λ h. absurd (ground arith), λ h. absurd (ground arith))

-- A restore succeeds, in some number of rounds, exactly if the migration starts, QMP reports its
-- completion, and the machine continues.
pub restore_from_file_iff :
    (c : RestoreClient)
    → ((rounds : ℕ) × (restore_from_file c rounds ≡ some none))
      ↔ ((c.incoming_error ≡ none) × Completes c.monitor 0 × (c.cont_error ≡ none))
unfolding restore_from_file
restore_from_file_iff c = (
  λ (r, h).
      let s = (incoming_lem c r c.incoming_error).0 h in
      (s.0, (wait_for_migration_iff c.monitor).0 (r, s.1), s.2),
  λ (i, w, k).
      let v = (wait_for_migration_iff c.monitor).1 w in
      (v.0, (incoming_lem c v.0 c.incoming_error).1 (i, v.1, k)),
)
