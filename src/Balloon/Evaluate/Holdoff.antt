-- ===== src/Balloon/Evaluate/Holdoff.antt =====
-- When `evaluate` of the balloon controller reclaims memory: its decisions over a whole history of
-- samples.
use virtle.Prelude.{false, ◌≡◌, ◌≢◌, sym, true, ◌⊎◌, inl, inr, Bool, List, [], ◌∷◌, arith}
use virtle.Prelude.Int.{ℤ, pos, ◌≤ℤ◌, ◌<ℤ◌}
use virtle.Prelude.Errors.{ok}
use virtle.Balloon.Config.{BalloonControllerConfig, bytes}
use virtle.Balloon.Evaluate.{
  ControllerState, GuestStatsSample, Decision, evaluate, decide_sample, grow, reclaim, time_sub,
}
use virtle.Balloon.Evaluate.Bounds.{is_informative}

-- What one cycle of the controller sees.
pub record Observation : Type 0 where
  pub now : ℤ
  pub actual : ℤ
  pub sample : GuestStatsSample

module _ (c : BalloonControllerConfig) where
  abbrev pub observe : ControllerState → Observation → ControllerState
  observe s o = (evaluate c s o.now o.actual o.sample).0

  -- The state after a history of cycles, the latest first.
  unfoldable pub after : ControllerState → List Observation → ControllerState
  after s [] = s
  after s (o ∷ h) = observe (after s h) o

  abbrev pub IsAbove : Observation → Type 0
  IsAbove o = bytes c.reclaim_above_available <ℤ o.sample.available_memory_bytes

  abbrev pub informs : Observation → Bool
  informs o = is_informative c o.now o.sample

  -- From a cycle at time `t` on, every sample that said anything was above the threshold.
  pub data HeldSince (t : ℤ) : List Observation → Type 0 where
    begun :
        {o : Observation} {h : List Observation}
        → o.now ≡ t
        → informs o ≡ true
        → IsAbove o
        → HeldSince t (o ∷ h)
    held :
        {o : Observation} {h : List Observation}
        → (informs o ≡ false) ⊎ IsAbove o
        → HeldSince t h
        → HeldSince t (o ∷ h)

  -- A timer that runs behind a cycle was started by it, or ran before it.
  observe_since :
      (s : ControllerState) (o : Observation)
      → (observe s o).above_threshold_since ≢ pos 0
      → (((observe s o).above_threshold_since ≡ o.now) × (informs o ≡ true) × IsAbove o)
        ⊎ (((observe s o).above_threshold_since ≡ s.above_threshold_since)
            × ((informs o ≡ false) ⊎ IsAbove o))
  unfolding evaluate decide_sample grow reclaim
  observe_since s o h = ground arith

  after-HeldSince :
      (s : ControllerState) (h : List Observation)
      → s.above_threshold_since ≡ pos 0
      → (after s h).above_threshold_since ≢ pos 0
      → HeldSince (after s h).above_threshold_since h
  unfolding after
  after-HeldSince s [] z n = absurd (n z)
  after-HeldSince s (o ∷ h) z n = elim (observe_since (after s h) o n) [
    | inl (e, i, a) ↦ begun (sym e) i a
    | inr (e, k) ↦ rw e (held k (after-HeldSince s h z (rw e at n)))
  ]

  grow_up :
      (s : ControllerState) (actual : ℤ) (d : Decision)
      → (grow c s actual).1 ≡ ok d
      → d.apply ≡ true
      → actual <ℤ d.target
  unfolding grow
  grow_up s actual d e a = ground arith

  reclaim_timer :
      (s : ControllerState) (now actual : ℤ) (d : Decision)
      → (reclaim c s now actual).1 ≡ ok d
      → d.apply ≡ true
      → (s.above_threshold_since ≢ pos 0)
        × (c.reclaim_holdoff ≤ℤ time_sub now s.above_threshold_since)
  unfolding reclaim
  reclaim_timer s now actual d e a = ground arith

  -- An applied decision to shrink found the timer running for the holdoff time.
  reclaim_waits :
      (s : ControllerState) (o : Observation) (d : Decision)
      → (evaluate c s o.now o.actual o.sample).1 ≡ ok d
      → d.apply ≡ true
      → d.target <ℤ o.actual
      → (s.above_threshold_since ≢ pos 0)
        × (c.reclaim_holdoff ≤ℤ time_sub o.now s.above_threshold_since)
        × IsAbove o
  unfolding evaluate decide_sample
  reclaim_waits s o d e a lt =
      ground (arith, grow_up s o.actual d, reclaim_timer s o.now o.actual d)

  -- From a state whose holdoff timer is off, a smaller size is wanted applied only if the sample
  -- is above the reclaim threshold and some earlier cycle, at least the holdoff time before, began
  -- a stretch in which every sample that said anything was above it.
  pub reclaim_needs_held :
      (s : ControllerState) (h : List Observation) (o : Observation) (d : Decision)
      → s.above_threshold_since ≡ pos 0
      → (evaluate c (after s h) o.now o.actual o.sample).1 ≡ ok d
      → d.apply ≡ true
      → d.target <ℤ o.actual
      → (t : ℤ) × HeldSince t h × (c.reclaim_holdoff ≤ℤ time_sub o.now t) × IsAbove o
  reclaim_needs_held s h o d z e a lt =
      let (running, waited, above) = reclaim_waits (after s h) o d e a lt in
      ((after s h).above_threshold_since, after-HeldSince s h z running, waited, above)
