-- ===== src/Balloon/Defaults.antt =====
-- What the defaults of internal/manifest/balloon.go and its validation mean together.
use virtle.Prelude.{◌↔◌, true, ◌≡◌, ◌≢◌, none, some, arith}
use virtle.Prelude.Int.{ℤ, pos, negsuc, ◌≤ℤ◌, ◌<ℤ◌, max_int64, ◌+ℤ◌, quot, wrap64}
use virtle.Balloon.Config.{
  BalloonControllerConfig, or_default, fill_controller, controller_or_zero, BalloonDevice,
  apply_balloon_defaults, validate_balloon_device, valid_qemu_transport, default_min_actual,
  default_grow_below_available, default_reclaim_above_available, validate_balloon_controller,
}

-- What the validation is there to guarantee, without reference to its tests.
pub record IsValidController (memory : ℤ) (c : BalloonControllerConfig) : Type 0 where
  pub min_positive : pos 0 <ℤ c.min_actual
  pub min-le-max : c.min_actual ≤ℤ c.max_actual
  pub max-le-memory : c.max_actual ≤ℤ memory
  pub grow_nonneg : pos 0 ≤ℤ c.grow_below_available
  pub band : c.grow_below_available <ℤ c.reclaim_above_available
  pub step_positive : pos 0 <ℤ c.step
  pub poll_positive : pos 0 <ℤ c.poll_interval
  pub holdoff_positive : pos 0 <ℤ c.reclaim_holdoff

validate-IsValidController :
    (memory : ℤ) (c : BalloonControllerConfig)
    → validate_balloon_controller memory (some c) ≡ none
    → IsValidController memory c
unfolding validate_balloon_controller
validate-IsValidController memory c h = ground arith

IsValidController-validate :
    (memory : ℤ) (c : BalloonControllerConfig)
    → IsValidController memory c
    → validate_balloon_controller memory (some c) ≡ none
unfolding validate_balloon_controller
IsValidController-validate memory c h = ground arith

-- The validation accepts exactly the configurations whose sizes, thresholds, step and intervals
-- satisfy the documented bounds.
pub validate_iff :
    (memory : ℤ) (c : BalloonControllerConfig)
    → (validate_balloon_controller memory (some c) ≡ none) ↔ IsValidController memory c
validate_iff memory c = (validate-IsValidController memory c, IsValidController-validate memory c)

-- (m + 1) / 2 of a count above 1 lies between 1 and m, and does not wrap around.
default_min_bounds :
    (max memory : ℤ)
    → pos 0 <ℤ max
    → max <ℤ max_int64
    → (pos 0 <ℤ default_min_actual max memory) × (default_min_actual max memory ≤ℤ max)
unfolding default_min_actual quot ◌+ℤ◌ wrap64
default_min_bounds (pos m) memory h k = ground arith
default_min_bounds (negsuc m) memory h k = ground arith

default_band :
    (m : ℤ)
    → (pos 0 ≤ℤ default_grow_below_available m)
      × (default_grow_below_available m <ℤ default_reclaim_above_available m)
unfolding default_grow_below_available default_reclaim_above_available quot
default_band (pos m) = ground arith
default_band (negsuc m) = ground arith

fill-IsValidController :
    (memory : ℤ) (c : BalloonControllerConfig)
    → pos 0 <ℤ memory
    → memory <ℤ max_int64
    → pos 0 ≤ℤ c.max_actual
    → c.max_actual ≤ℤ memory
    → pos 0 ≤ℤ c.min_actual
    → c.min_actual ≤ℤ or_default c.max_actual memory
    → c.grow_below_available ≡ pos 0
    → c.reclaim_above_available ≡ pos 0
    → pos 0 ≤ℤ c.step
    → pos 0 ≤ℤ c.poll_interval
    → pos 0 ≤ℤ c.reclaim_holdoff
    → IsValidController memory (fill_controller memory c)
unfolding fill_controller
fill-IsValidController memory c h1 h2 h3 h4 h5 h6 h7 h8 h9 h10 h11 = ground (
  arith,
  default_min_bounds (or_default c.max_actual memory) memory,
  default_band c.min_actual,
  default_band (default_min_actual (or_default c.max_actual memory) memory),
)

-- A device on a known transport, in a positive memory, whose controller sets no negative value,
-- sizes that are in order and within the memory, and no thresholds, is valid once the defaults are
-- filled in. No controller at all is such a case.
validate-apply_balloon_defaults :
    (memory : ℤ) (d : BalloonDevice)
    → pos 0 <ℤ memory
    → memory <ℤ max_int64
    → valid_qemu_transport d.transport ≡ true
    → (let c = controller_or_zero d.controller in
        (pos 0 ≤ℤ c.max_actual)
        × (c.max_actual ≤ℤ memory)
        × (pos 0 ≤ℤ c.min_actual)
        × (c.min_actual ≤ℤ or_default c.max_actual memory)
        × (c.grow_below_available ≡ pos 0)
        × (c.reclaim_above_available ≡ pos 0)
        × (pos 0 ≤ℤ c.step)
        × (pos 0 ≤ℤ c.poll_interval)
        × (pos 0 ≤ℤ c.reclaim_holdoff))
    → validate_balloon_device memory (apply_balloon_defaults memory (some d)) ≡ none
unfolding validate_balloon_device apply_balloon_defaults
validate-apply_balloon_defaults memory d lo hi t (a, b, e, f, g, h, i, j, k) =
    let c = controller_or_zero d.controller in
    rw (
      t,
      IsValidController-validate memory (fill_controller memory c)
          (fill-IsValidController memory c lo hi a b e f g h i j k),
    )

idle_ne_zero :
    (max memory : ℤ)
    → max ≤ℤ max_int64
    → memory ≤ℤ max_int64
    → default_min_actual max memory ≢ pos 0
unfolding default_min_actual quot ◌+ℤ◌ wrap64
idle_ne_zero (pos m) (pos n) h k = ground arith
idle_ne_zero (pos m) (negsuc n) h k = ground arith
idle_ne_zero (negsuc m) (pos n) h k = ground arith
idle_ne_zero (negsuc m) (negsuc n) h k = ground arith

-- Where the memory and the maximum are int64s, filling in the defaults twice changes nothing that
-- the first time left.
pub fill_idem :
    (memory : ℤ) (c : BalloonControllerConfig)
    → memory ≤ℤ max_int64
    → c.max_actual ≤ℤ max_int64
    → fill_controller memory (fill_controller memory c) ≡ fill_controller memory c
unfolding fill_controller
fill_idem memory c h k = ground (arith, idle_ne_zero (or_default c.max_actual memory) memory)
