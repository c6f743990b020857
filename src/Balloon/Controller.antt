-- ===== src/Balloon/Controller.antt =====
-- backend/qemu/internal/balloon/controller.go: one cycle of the controller, and its loop. The
-- loop's wake-ups are a list of cycles, each with what the session answers in it; the end of the
-- list is the end of the context.
pub mod Failures
pub mod Sizes
use virtle.Prelude.{
  ℕ, suc, ◌+◌, ◌≤◌, String, Bool, true, false, List, [], ◌∷◌, ◌++◌, Option, none, some, leb,
  if◌then◌else◌,
}
use virtle.Prelude.Int.{ℤ, pos, ltb_ℤ, leb_ℤ, quot, ◌-ℤ◌, wrap64}
use virtle.Prelude.Errors.{Error, wrapf, num, end, Result, ok, err}
use virtle.Balloon.Config.{BalloonControllerConfig}
use virtle.Balloon.Evaluate.{
  ControllerState, GuestStatsSample, Decision, evaluate, available_memory,
}
use virtle.Balloon.Qom.{ObjectPropertyInfo, resolve_qom_path}

abbrev pub max_consecutive_failures : ℕ
max_consecutive_failures = 5

-- The struct `stats`.
pub record Stats : Type 0 where
  pub stats : List (String × ℤ)
  pub last_update : ℤ

-- One wake-up: the clock, and what ReadBalloonStats, QueryBalloon and SetBalloonLogicalSize answer.
pub record Cycle : Type 0 where
  pub now : ℤ
  pub read_balloon_stats : Result Stats
  pub query_balloon : Result ℤ
  pub set_balloon_logical_size : ℤ → Option Error

-- What a cycle does that others can see: a size that was set, with the size before.
pub record Resize : Type 0 where
  pub before : ℤ
  pub target : ℤ

sample_from : ℤ → Option ℤ → GuestStatsSample
sample_from updated none = record {
  available_memory_bytes = pos 0;
  has_available_memory = false;
  last_update = updated;
}
sample_from updated (some v) = record {
  available_memory_bytes = v;
  has_available_memory = true;
  last_update = updated;
}

-- The results of ReadBalloonStats and, behind it, of QueryBalloon.
sample_of : Result Stats → Result ℤ → Result (ℤ × GuestStatsSample)
sample_of (err e) query = err e
sample_of (ok st) (err e) = err e
sample_of (ok st) (ok actual) = ok (actual, sample_from st.last_update (available_memory st.stats))

unfoldable pub read_sample : Cycle → Result (ℤ × GuestStatsSample)
unfolding sample_of sample_from
read_sample cycle = sample_of cycle.read_balloon_stats cycle.query_balloon

-- What one cycle leaves: the state, its error, and the sizes that were set.
abbrev pub Outcome : Type 0
Outcome = ControllerState × Option Error × List Resize

after_set : ControllerState → ℤ → ℤ → Option Error → Outcome
after_set state actual target (some e) = (state, some e, [])
after_set state actual target none = (state, none, record { before = actual; target = target } ∷ [])

apply_decision : Cycle → ℤ → ControllerState × Result Decision → Outcome
apply_decision cycle actual (state, err e) = (state, some e, [])
apply_decision cycle actual (state, ok d) =
    if d.apply
    then after_set state actual d.target (cycle.set_balloon_logical_size d.target)
    else (state, none, [])

on_sample :
    BalloonControllerConfig → ControllerState → Cycle → Result (ℤ × GuestStatsSample) → Outcome
on_sample c state cycle (err e) = (state, some e, [])
on_sample c state cycle (ok (actual, sample)) =
    apply_decision cycle actual (evaluate c state cycle.now actual sample)

unfoldable pub tick : BalloonControllerConfig → ControllerState → Cycle → Outcome
unfolding on_sample apply_decision after_set
tick c state cycle = on_sample c state cycle (read_sample cycle)

-- What the loop of `Run` returns, and all the sizes that it set, in order.
abbrev pub Ending : Type 0
Ending = Option Error × List Resize

with_resizes : List Resize → Ending → Ending
with_resizes rs (e, more) = (e, rs ++ more)

consecutive : ℕ → Error → Error
consecutive n e = wrapf "%d consecutive failures: %w" (num (pos n) end) e

-- A round that did not fail resets the count.
next_round : ℕ → Outcome → (ControllerState → ℕ → Ending) → Ending
next_round failures (state, none, rs) go_on = with_resizes rs (go_on state 0)
next_round failures (state, some e, rs) go_on =
    if leb max_consecutive_failures (failures + 1)
    then (some (consecutive (failures + 1) e), rs)
    else with_resizes rs (go_on state (failures + 1))

unfoldable pub run_loop : BalloonControllerConfig → ControllerState → ℕ → List Cycle → Ending
unfolding next_round with_resizes consecutive
run_loop c state failures [] = (none, [])
run_loop c state failures (cycle ∷ cycles) =
    next_round failures (tick c state cycle) (λ s n. run_loop c s n cycles)

-- `statsPollSeconds`: whole seconds, at least one.
unfoldable pub stats_poll_seconds : ℤ → ℤ
stats_poll_seconds interval =
    let seconds = quot interval 1000000000 in if ltb_ℤ seconds (pos 1) then pos 1 else seconds

-- The session's answers before the loop, and the loop's cycles.
pub record Session : Type 0 where
  pub list_qom_properties : String → Result (List ObjectPropertyInfo)
  pub enable_balloon_stats_polling : String → ℤ → Option Error
  pub started_at : ℤ
  pub cycles : List Cycle

after_enable : BalloonControllerConfig → Session → Option Error → Ending
after_enable c session (some e) = (some e, [])
after_enable c session none =
    run_loop c (record { started_at = session.started_at; above_threshold_since = pos 0 }) 0
      session.cycles

after_resolve : BalloonControllerConfig → Session → Result String → Ending
after_resolve c session (err e) = (some e, [])
after_resolve c session (ok path) =
    after_enable c session
      (session.enable_balloon_stats_polling path (stats_poll_seconds c.poll_interval))

-- `controller.Run`; a controller without a session does nothing.
unfoldable pub run : BalloonControllerConfig → String → Option Session → Ending
unfolding after_resolve after_enable
run c device none = (none, [])
run c device (some session) =
    after_resolve c session (resolve_qom_path session.list_qom_properties device)
