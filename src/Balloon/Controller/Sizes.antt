-- ===== src/Balloon/Controller/Sizes.antt =====
-- The sizes that the balloon controller's loop sets.
use virtle.Prelude.{
  subst, ℕ, ◌+◌, ◌≡◌, refl, ◌⊎◌, inl, inr, true, List, [], ◌∷◌, ◌++◌, Option, none, some, arith,
  All, leb, String, Bool-cases,
}
use virtle.Balloon.Qom.{resolve_qom_path}
use virtle.Prelude.Int.{+ℤ_parts, ℤ, pos, ◌≤ℤ◌, ◌<ℤ◌, ◌+ℤ◌}
use virtle.Prelude.Errors.{Error, Result, ok, err}
use virtle.Balloon.Config.{BalloonControllerConfig}
use virtle.Balloon.Defaults.{IsValidController}
use virtle.Balloon.Evaluate.{ControllerState, GuestStatsSample, Decision, evaluate}
use virtle.Balloon.Evaluate.Bounds.{Fits, exact, IsResize, evaluate_bounds, grown, shrunk}
use virtle.Balloon.Controller.{
  Cycle, Outcome, Ending, Resize, Session, tick, read_sample, sample_of, on_sample, apply_decision,
  after_set, next_round, with_resizes, run_loop, run, after_resolve, after_enable,
}

-- One change of size: towards a bound of the configuration, not past it, and by at most a step.
pub record IsStep (c : BalloonControllerConfig) (r : Resize) : Type 0 where
  pub direction :
      ((r.before <ℤ r.target) × (r.target ≤ℤ pos (exact c.max_actual)))
      ⊎ ((r.target <ℤ r.before) × (pos (exact c.min_actual) ≤ℤ r.target))
  pub at_most_up : r.target ≤ℤ r.before +ℤ pos (exact c.step)
  pub at_most_down : r.before ≤ℤ r.target +ℤ pos (exact c.step)

-- The size that a cycle reads, if it reads one, fits.
abbrev pub FitsRead : BalloonControllerConfig → Result ℤ → Type 0
FitsRead c (ok actual) = Fits c actual
FitsRead c (err e) = Unit

abbrev pub FitsCycle : BalloonControllerConfig → Cycle → Type 0
FitsCycle c cycle = FitsRead c cycle.query_balloon

All-append :
    (c : BalloonControllerConfig) (rs ts : List Resize)
    → All (IsStep c) rs
    → All (IsStep c) ts
    → All (IsStep c) (rs ++ ts)
All-append c [] ts h k = k
All-append c (r ∷ rs) ts h k = (h.0, All-append c rs ts h.1 k)

module _ (c : BalloonControllerConfig) (memory : ℤ) (valid : IsValidController memory c) where
  IsResize-IsStep :
      (actual available : ℤ) (d : Decision)
      → IsResize c actual available d
      → IsStep c (record { before = actual; target = d.target })
  IsResize-IsStep actual available d (grown a b e f) =
      omega (arith, +ℤ_parts d.target (pos (exact c.step)))
  IsResize-IsStep actual available d (shrunk a b e f) =
      omega (arith, +ℤ_parts actual (pos (exact c.step)))

  set_IsStep :
      (s : ControllerState) (actual target : ℤ) (answer : Option Error)
      → IsStep c (record { before = actual; target = target })
      → All (IsStep c) (after_set s actual target answer).2
  unfolding after_set
  set_IsStep s actual target none h = (h, tt)
  set_IsStep s actual target (some e) h = tt

  decision_IsStep :
      (cycle : Cycle) (actual : ℤ) (r : ControllerState × Result Decision)
      → ((d : Decision)
          → r.1 ≡ ok d
          → d.apply ≡ true
          → IsStep c (record { before = actual; target = d.target }))
      → All (IsStep c) (apply_decision cycle actual r).2
  unfolding apply_decision
  decision_IsStep cycle actual (s, err e) h = tt
  decision_IsStep cycle actual (s, ok d) h = elim (Bool-cases d.apply) [
    | inl e ↦
        rw e (set_IsStep s actual d.target (cycle.set_balloon_logical_size d.target) (h d refl e))
    | inr e ↦ rw e tt
  ]

  sample_fits :
      (st : Result _) (query : Result ℤ) (actual : ℤ) (sample : GuestStatsSample)
      → sample_of st query ≡ ok (actual, sample)
      → query ≡ ok actual
  unfolding sample_of
  sample_fits (err e) q actual sample h = cc
  sample_fits (ok st) (err e) actual sample h = cc
  sample_fits (ok st) (ok a) actual sample h = ground arith

  on_sample-IsStep :
      (s : ControllerState) (cycle : Cycle) (r : Result (ℤ × GuestStatsSample))
      → ((actual : ℤ) (sample : GuestStatsSample) → r ≡ ok (actual, sample) → Fits c actual)
      → All (IsStep c) (on_sample c s cycle r).2
  unfolding on_sample
  on_sample-IsStep s cycle (err e) fits = tt
  on_sample-IsStep s cycle (ok (actual, sample)) fits =
      decision_IsStep cycle actual (evaluate c s cycle.now actual sample) (λ d e a.
        IsResize-IsStep actual sample.available_memory_bytes d (
          evaluate_bounds c s memory cycle.now actual sample d valid (fits actual sample refl) e a))

  tick-IsStep :
      (s : ControllerState) (cycle : Cycle) → FitsCycle c cycle → All (IsStep c) (tick c s cycle).2
  unfolding tick read_sample
  tick-IsStep s cycle fits =
      on_sample-IsStep s cycle (read_sample cycle)
        (λ actual sample e. subst (FitsRead c) (sample_fits _ _ actual sample e) fits)

  round_IsStep :
      (n : ℕ) (o : Outcome) (go_on : ControllerState → ℕ → Ending)
      → All (IsStep c) o.2
      → ((t : ControllerState) (m : ℕ) → All (IsStep c) (go_on t m).1)
      → All (IsStep c) (next_round n o go_on).1
  unfolding next_round with_resizes
  round_IsStep n (s, none, rs) go_on h k = All-append c rs _ h (k s 0)
  round_IsStep n (s, some e, rs) go_on h k = elim (Bool-cases (leb 5 (n + 1))) [
    | inl last ↦ rw last h
    | inr more ↦ rw more (All-append c rs _ h (k s (n + 1)))
  ]

  loop_IsStep :
      (s : ControllerState) (n : ℕ) (cycles : List Cycle)
      → All (FitsCycle c) cycles
      → All (IsStep c) (run_loop c s n cycles).1
  unfolding run_loop
  loop_IsStep s n [] h = tt
  loop_IsStep s n (cycle ∷ cycles) h =
      round_IsStep n (tick c s cycle) _ (tick-IsStep s cycle h.0)
        (λ t m. loop_IsStep t m cycles h.1)

  enabled_IsStep :
      (session : Session) (e : Option Error)
      → All (FitsCycle c) session.cycles
      → All (IsStep c) (after_enable c session e).1
  unfolding after_enable
  enabled_IsStep session (some e) h = tt
  enabled_IsStep session none h = loop_IsStep _ 0 session.cycles h

  resolved_IsStep :
      (session : Session)
      → All (FitsCycle c) session.cycles
      → (path : Result String) → All (IsStep c) (after_resolve c session path).1
  unfolding after_resolve
  resolved_IsStep session h (err e) = tt
  resolved_IsStep session h (ok path) = enabled_IsStep session _ h

  -- Where the configuration is valid and no byte count read overflows, every size that a run sets
  -- is another size than before, on the right side of the configured bounds and at most a step
  -- away.
  pub run_IsStep :
      (device : String) (session : Session)
      → All (FitsCycle c) session.cycles
      → All (IsStep c) (run c device (some session)).1
  unfolding run
  run_IsStep device session h =
      resolved_IsStep session h (resolve_qom_path session.list_qom_properties device)
