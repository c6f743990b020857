-- ===== src/Balloon/Config.antt =====
-- internal/manifest/balloon.go and units/units.go: the balloon device's configuration, the
-- defaults that fill it in, and its validation. A MiB count is a Go int, a duration an int64 of
-- nanoseconds; a pointer that may be nil is an `Option`, and what is mutated is returned.
use virtle.Prelude.{ℕ, String, Bool, not, ◌||◌, Option, none, some, str_eq, if◌then◌else◌}
use virtle.Prelude.Int.{ℤ, pos, ltb_ℤ, leb_ℤ, eq_ℤ, ◌+ℤ◌, ◌*ℤ◌, quot, wrap64}
use virtle.Prelude.Errors.{Error, errorf, text, end, plain}

pub record BalloonControllerConfig : Type 0 where
  pub min_actual : ℤ
  pub max_actual : ℤ
  pub grow_below_available : ℤ
  pub reclaim_above_available : ℤ
  pub step : ℤ
  pub poll_interval : ℤ
  pub reclaim_holdoff : ℤ

pub record BalloonDevice : Type 0 where
  pub id : String
  pub transport : String
  pub deflate_on_oom : Bool
  pub free_page_reporting : Bool
  pub controller : Option BalloonControllerConfig

abbrev pub mebibyte : ℕ
mebibyte = 1048576

-- `MiB.Bytes` followed by `Bytes.Int64`.
unfoldable pub bytes : ℤ → ℤ
bytes m = wrap64 (m *ℤ mebibyte)

abbrev pub default_step : ℤ
default_step = pos 256

abbrev pub default_poll_interval : ℤ
default_poll_interval = pos 5000000000

abbrev pub default_reclaim_holdoff : ℤ
default_reclaim_holdoff = pos 30000000000

unfoldable pub default_min_actual : ℤ → ℤ → ℤ
default_min_actual max_actual fallback =
    let m = if leb_ℤ max_actual (pos 0) then fallback else max_actual in
    if leb_ℤ m (pos 1) then pos 1 else quot (wrap64 (m +ℤ pos 1)) 2

unfoldable pub default_grow_below_available : ℤ → ℤ
default_grow_below_available min_actual =
    if leb_ℤ min_actual (pos 1) then pos 0 else quot min_actual 2

unfoldable pub default_reclaim_above_available : ℤ → ℤ
default_reclaim_above_available min_actual = if leb_ℤ min_actual (pos 0) then pos 1 else min_actual

-- `if x == 0 { x = d }`
abbrev pub or_default : ℤ → ℤ → ℤ
or_default x d = if eq_ℤ x (pos 0) then d else x

abbrev pub zero_config : BalloonControllerConfig
zero_config = record {
  min_actual = pos 0;
  max_actual = pos 0;
  grow_below_available = pos 0;
  reclaim_above_available = pos 0;
  step = pos 0;
  poll_interval = pos 0;
  reclaim_holdoff = pos 0;
}

abbrev pub controller_or_zero : Option BalloonControllerConfig → BalloonControllerConfig
controller_or_zero none = zero_config
controller_or_zero (some c) = c

-- The part of `applyBalloonDefaults` behind its nil checks.
unfoldable pub fill_controller : ℤ → BalloonControllerConfig → BalloonControllerConfig
fill_controller memory c =
    let max_actual = or_default c.max_actual memory in
    let idle_target =
      if leb_ℤ c.min_actual (pos 0) then default_min_actual max_actual memory else c.min_actual in
    record {
      min_actual = or_default c.min_actual idle_target;
      max_actual = max_actual;
      grow_below_available =
          or_default c.grow_below_available (default_grow_below_available idle_target);
      reclaim_above_available =
          or_default c.reclaim_above_available (default_reclaim_above_available idle_target);
      step = or_default c.step default_step;
      poll_interval = or_default c.poll_interval default_poll_interval;
      reclaim_holdoff = or_default c.reclaim_holdoff default_reclaim_holdoff;
    }

unfoldable pub apply_balloon_defaults : ℤ → Option BalloonDevice → Option BalloonDevice
unfolding fill_controller
apply_balloon_defaults memory none = none
apply_balloon_defaults memory (some d) =
    some (record d { controller = some (fill_controller memory (controller_or_zero d.controller)) })

unfoldable pub validate_balloon_controller : ℤ → Option BalloonControllerConfig → Option Error
validate_balloon_controller memory none = none
validate_balloon_controller memory (some c) =
    if leb_ℤ c.min_actual (pos 0)
    then some (plain "minActualMiB must be greater than zero")
    else if ltb_ℤ c.max_actual c.min_actual
    then some (plain "minActualMiB must be less than or equal to maxActualMiB")
    else if ltb_ℤ memory c.max_actual
    then some (plain "maxActualMiB must be less than or equal to manifest.qemu.memory.sizeMiB")
    else if ltb_ℤ c.grow_below_available (pos 0)
    then some (plain "growBelowAvailableMiB must be greater than or equal to zero")
    else if ltb_ℤ c.reclaim_above_available (pos 0)
    then some (plain "reclaimAboveAvailableMiB must be greater than or equal to zero")
    else if leb_ℤ c.reclaim_above_available c.grow_below_available
    then some (plain "growBelowAvailableMiB must be less than reclaimAboveAvailableMiB")
    else if leb_ℤ c.step (pos 0)
    then some (plain "stepMiB must be greater than zero")
    else if leb_ℤ c.poll_interval (pos 0)
    then some (plain "pollInterval must be greater than zero")
    else if leb_ℤ c.reclaim_holdoff (pos 0)
    then some (plain "reclaimHoldoff must be greater than zero")
    else none

-- internal/manifest/validate.go
unfoldable pub valid_qemu_transport : String → Bool
valid_qemu_transport t = str_eq t "pci" || str_eq t "mmio" || str_eq t "ccw"

controller_error : Option Error → Option Error
controller_error none = none
controller_error (some e) = some (errorf "manifest.qemu.devices.balloon.controller.%s" (text e end))

unfoldable pub validate_balloon_device : ℤ → Option BalloonDevice → Option Error
unfolding controller_error
validate_balloon_device memory none = none
validate_balloon_device memory (some d) =
    if not (valid_qemu_transport d.transport)
    then some (plain "manifest.qemu.devices.balloon.transport must be one of pci, mmio, or ccw")
    else controller_error (validate_balloon_controller memory d.controller)
