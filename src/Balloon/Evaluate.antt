-- ===== src/Balloon/Evaluate.antt =====
-- backend/qemu/internal/balloon/controller.go, `evaluate`: one decision of the controller. A
-- `time.Time` is an integer of nanoseconds whose 0 is Go's zero time; the controller's state is
-- passed in and returned.
pub mod Bounds
pub mod Holdoff
use virtle.Prelude.{
  Bool, true, false, not, if◌then◌else◌, String, str_eq, Option, none, some, List, [], ◌∷◌,
}
use virtle.Prelude.Int.{ℤ, pos, ltb_ℤ, leb_ℤ, eq_ℤ, ◌+ℤ◌, ◌-ℤ◌, ◌*ℤ◌, wrap64, saturate64}
use virtle.Prelude.Errors.{Error, plain, Result, ok, err}
use virtle.Balloon.Config.{BalloonControllerConfig, bytes}

abbrev pub guest_stats_unavailable : Error
guest_stats_unavailable = plain "balloon guest stats unavailable"

abbrev pub guest_stats_stale : Error
guest_stats_stale = plain "balloon guest stats stale"

pub record ControllerState : Type 0 where
  pub started_at : ℤ
  pub above_threshold_since : ℤ

pub record GuestStatsSample : Type 0 where
  pub available_memory_bytes : ℤ
  pub has_available_memory : Bool
  pub last_update : ℤ

-- `t.IsZero()`
abbrev pub is_zero_time : ℤ → Bool
is_zero_time t = eq_ℤ t (pos 0)

-- `t.Sub(u)` saturates at the ends of a Duration.
unfoldable pub time_sub : ℤ → ℤ → ℤ
time_sub t u = saturate64 (t -ℤ u)

-- The target size, and whether it is to be applied.
pub record Decision : Type 0 where
  pub target : ℤ
  pub apply : Bool

abbrev pub keep : Decision
keep = record { target = pos 0; apply = false }

abbrev pub resize : ℤ → Decision
resize target = record { target = target; apply = true }

-- `state.aboveThresholdSince = t`
abbrev since : ControllerState → ℤ → ControllerState
since state t = record state { above_threshold_since = t }

-- The branch of `evaluate` for too little available memory.
unfoldable pub grow :
    BalloonControllerConfig → ControllerState → ℤ → ControllerState × Result Decision
grow c state actual =
    let wanted = wrap64 (actual +ℤ bytes c.step) in
    let target = if ltb_ℤ (bytes c.max_actual) wanted then bytes c.max_actual else wanted in
    (since state (pos 0), if leb_ℤ target actual then ok keep else ok (resize target))

-- Its branch for more available memory than the reclaim threshold.
unfoldable pub reclaim :
    BalloonControllerConfig → ControllerState → ℤ → ℤ → ControllerState × Result Decision
reclaim c state now actual =
    let wanted = wrap64 (actual -ℤ bytes c.step) in
    let target = if ltb_ℤ wanted (bytes c.min_actual) then bytes c.min_actual else wanted in
    if leb_ℤ actual (bytes c.min_actual)
    then (since state (pos 0), ok keep)
    else if is_zero_time state.above_threshold_since
    then (since state now, ok keep)
    else if ltb_ℤ (time_sub now state.above_threshold_since) c.reclaim_holdoff
    then (state, ok keep)
    else (since state (pos 0), if leb_ℤ actual target then ok keep else ok (resize target))

-- What is left when the sample is fresh and holds the available memory.
unfoldable pub decide_sample :
    BalloonControllerConfig → ControllerState → ℤ → ℤ → ℤ → ControllerState × Result Decision
decide_sample c state now actual available =
    if ltb_ℤ available (bytes c.grow_below_available)
    then grow c state actual
    else if ltb_ℤ (bytes c.reclaim_above_available) available
    then reclaim c state now actual
    else (since state (pos 0), ok keep)

-- `now.Sub(state.startedAt) >= staleAfter`
abbrev pub unavailable :
    BalloonControllerConfig → ControllerState → ℤ → ControllerState × Result Decision
unavailable c state now =
    if leb_ℤ (wrap64 (c.poll_interval *ℤ 2)) (time_sub now state.started_at)
    then (state, err guest_stats_unavailable)
    else (state, ok keep)

unfoldable pub evaluate :
    BalloonControllerConfig
    → ControllerState
    → ℤ
    → ℤ
    → GuestStatsSample
    → ControllerState × Result Decision
evaluate c state now actual sample =
    let stale_after = wrap64 (c.poll_interval *ℤ 2) in
    if is_zero_time sample.last_update
    then unavailable c state now
    else if ltb_ℤ stale_after (time_sub now sample.last_update)
    then (state, err guest_stats_stale)
    else if not sample.has_available_memory
    then unavailable c state now
    else decide_sample c state now actual sample.available_memory_bytes

unfoldable pub lookup_stat : String → List (String × ℤ) → Option ℤ
lookup_stat k [] = none
lookup_stat k ((j, v) ∷ m) = if str_eq j k then some v else lookup_stat k m

-- `value, ok := m[k]; ok && value >= 0`
abbrev usable : Option ℤ → Option ℤ
usable none = none
usable (some v) = if leb_ℤ (pos 0) v then some v else none

abbrev or_else : Option ℤ → Option ℤ → Option ℤ
or_else none o = o
or_else (some v) o = some v

-- `availableMemory`: `none` is the result (0, false).
unfoldable pub available_memory : List (String × ℤ) → Option ℤ
unfolding lookup_stat
available_memory m =
    or_else (usable (lookup_stat "stat-available-memory" m))
      (usable (lookup_stat "stat-free-memory" m))
