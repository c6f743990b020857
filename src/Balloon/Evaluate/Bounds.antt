-- ===== src/Balloon/Evaluate/Bounds.antt =====
-- The sizes that `evaluate` of the balloon controller asks for.
use virtle.Prelude.{not, ◌&&◌, Bool, ◌+◌, inr, inl, Bool-cases, ℕ, ◌*◌, ◌≡◌, true, arith}
use Prim.Native.Nat.{min}
use virtle.Prelude.Int.{
  eq_of_parts, ◌-ℤ◌, -ℤ_parts, ltb_ℤ, ℤ, pos, negsuc, pos_part, neg_part, ◌≤ℤ◌, ◌<ℤ◌, IsInt64, ◌+ℤ◌,
  ◌*ℤ◌, wrap64, wrap64_id, +ℤ_parts,
}
use virtle.Prelude.Errors.{ok}
use virtle.Balloon.Config.{BalloonControllerConfig, bytes, mebibyte}
use virtle.Balloon.Defaults.{IsValidController}
use virtle.Balloon.Evaluate.{
  is_zero_time, time_sub, GuestStatsSample, decide_sample, evaluate, reclaim, ControllerState,
  Decision, grow,
}

-- Sizes for which no byte count leaves int64: 2^41 MiB each, and 2^62 bytes of guest memory.
pub record Fits (c : BalloonControllerConfig) (actual : ℤ) : Type 0 where
  pub actual_nonneg : pos 0 ≤ℤ actual
  pub actual_fits : actual ≤ℤ pos 4611686018427387904
  pub max_fits : c.max_actual ≤ℤ pos 2199023255552
  pub step_fits : c.step ≤ℤ pos 2199023255552

bytes_exact :
    (m : ℤ)
    → pos 0 ≤ℤ m
    → m ≤ℤ pos 2199023255552
    → (neg_part (bytes m) ≡ 0) × (pos_part (bytes m) ≡ pos_part m * mebibyte)
unfolding bytes wrap64 ◌*ℤ◌
bytes_exact (pos m) h k = ground arith
bytes_exact (negsuc m) h k = ground arith

wrap_parts :
    (a : ℤ) → IsInt64 a → (pos_part (wrap64 a) ≡ pos_part a) × (neg_part (wrap64 a) ≡ neg_part a)
wrap_parts a h = ground (arith, wrap64_id a h)

abbrev pub exact : ℤ → ℕ
exact m = pos_part m * mebibyte

-- A step up is upwards, by at most the step, and not past the maximum.
grow_bounds :
    (c : BalloonControllerConfig) (s : ControllerState) (memory actual : ℤ) (d : Decision)
    → IsValidController memory c
    → Fits c actual
    → (grow c s actual).1 ≡ ok d
    → d.apply ≡ true
    → (actual <ℤ d.target)
      × (d.target ≤ℤ pos (exact c.max_actual))
      × (d.target ≤ℤ actual +ℤ pos (exact c.step))
unfolding grow
grow_bounds c s memory actual d v f h a = ground (
  arith,
  bytes_exact c.max_actual,
  bytes_exact c.step,
  +ℤ_parts actual (bytes c.step),
  wrap_parts (actual +ℤ bytes c.step),
  +ℤ_parts actual (pos (exact c.step)),
)

-- A step down is downwards, by at most the step, and not past the minimum.
reclaim_bounds :
    (c : BalloonControllerConfig) (s : ControllerState) (memory now actual : ℤ) (d : Decision)
    → IsValidController memory c
    → Fits c actual
    → (reclaim c s now actual).1 ≡ ok d
    → d.apply ≡ true
    → (d.target <ℤ actual)
      × (pos (exact c.min_actual) ≤ℤ d.target)
      × (actual ≤ℤ d.target +ℤ pos (exact c.step))
unfolding reclaim
reclaim_bounds c s memory now actual d v f h a = ground (
  arith,
  bytes_exact c.min_actual,
  bytes_exact c.step,
  -ℤ_parts actual (bytes c.step),
  wrap_parts (actual -ℤ bytes c.step),
  +ℤ_parts d.target (pos (exact c.step)),
)

-- What an applied decision looks like, in exact byte counts.
pub data IsResize (c : BalloonControllerConfig) (actual available : ℤ) (d : Decision) : Type 0 where
  grown :
      available <ℤ bytes c.grow_below_available
      → actual <ℤ d.target
      → d.target ≤ℤ pos (exact c.max_actual)
      → d.target ≤ℤ actual +ℤ pos (exact c.step)
      → IsResize c actual available d
  shrunk :
      bytes c.reclaim_above_available <ℤ available
      → d.target <ℤ actual
      → pos (exact c.min_actual) ≤ℤ d.target
      → actual ≤ℤ d.target +ℤ pos (exact c.step)
      → IsResize c actual available d

decide_bounds :
    (c : BalloonControllerConfig) (s : ControllerState) (memory now actual available : ℤ)
    (d : Decision)
    → IsValidController memory c
    → Fits c actual
    → (decide_sample c s now actual available).1 ≡ ok d
    → d.apply ≡ true
    → IsResize c actual available d
unfolding decide_sample
decide_bounds c s memory now actual available d v f h a =
    elim (Bool-cases (ltb_ℤ available (bytes c.grow_below_available))) [
      | inl low ↦
          let (x, y, z) = grow_bounds c s memory actual d v f (rw low at h) a in
          grown (ground arith) x y z
      | inr not_low ↦ elim (Bool-cases (ltb_ℤ (bytes c.reclaim_above_available) available)) [
        | inl high ↦
            let (x, y, z) =
              reclaim_bounds c s memory now actual d v f (rw (not_low, high) at h) a in
            shrunk (ground arith) x y z
        | inr not_high ↦ absurd (ground arith)
      ]
    ]

-- Where the configuration is valid and no byte count overflows, every size that `evaluate` wants
-- applied is a growth on less available memory than the threshold, above the actual size and at
-- most the maximum and a step more, or a reduction on more than the reclaim threshold, below the
-- actual size and at least the minimum and a step less.
pub evaluate_bounds :
    (c : BalloonControllerConfig) (s : ControllerState) (memory now actual : ℤ)
    (sample : GuestStatsSample) (d : Decision)
    → IsValidController memory c
    → Fits c actual
    → (evaluate c s now actual sample).1 ≡ ok d
    → d.apply ≡ true
    → IsResize c actual sample.available_memory_bytes d
unfolding evaluate
evaluate_bounds c s memory now actual sample d v f h a =
    decide_bounds c s memory now actual sample.available_memory_bytes d v f (ground arith) a

-- A fresh sample: it has a time, is not stale, and holds the available memory.
abbrev pub is_informative : BalloonControllerConfig → ℤ → GuestStatsSample → Bool
is_informative c now sample =
    not (is_zero_time sample.last_update)
    && not (ltb_ℤ (wrap64 (c.poll_interval *ℤ 2)) (time_sub now sample.last_update))
    && sample.has_available_memory

-- Where the configuration is valid and no byte count overflows, a fresh sample of less available
-- memory than the threshold, at an actual size below the maximum, is answered by growing by a
-- step, or to the maximum if that is less, and the holdoff timer is reset.
evaluate_grows :
    (c : BalloonControllerConfig) (s : ControllerState) (memory now actual : ℤ)
    (sample : GuestStatsSample)
    → IsValidController memory c
    → Fits c actual
    → is_informative c now sample ≡ true
    → sample.available_memory_bytes <ℤ bytes c.grow_below_available
    → actual <ℤ pos (exact c.max_actual)
    → evaluate c s now actual sample ≡ (
      record s { above_threshold_since = pos 0 },
      ok (record {
        target = pos (min (exact c.max_actual) (pos_part actual + exact c.step));
        apply = true;
      }),
    )
unfolding evaluate decide_sample grow
evaluate_grows c s memory now actual sample v f fresh low room = ground (
  arith,
  bytes_exact c.max_actual,
  bytes_exact c.step,
  +ℤ_parts actual (bytes c.step),
  wrap_parts (actual +ℤ bytes c.step),
  eq_of_parts (bytes c.max_actual) (pos (exact c.max_actual)),
  eq_of_parts (wrap64 (actual +ℤ bytes c.step)) (pos (pos_part actual + exact c.step)),
)
