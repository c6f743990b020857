-- ===== src/Balloon/Controller/Failures.antt =====
-- When the balloon controller's loop gives up.
use virtle.Prelude.{
  if◌then◌else◌, leb, ◌-◌, ◌∙◌, sym, Bool-cases, ◌↔◌, leb, ◌-◌, sym, ◌↔◌, Bool-cases, ◌∙◌, ℕ, zero,
  suc, ◌+◌, ◌≤◌, ◌<◌, ◌≡◌, refl, ◌⊎◌, inl, inr, Bool, true, false, List, [], ◌∷◌, none, some, arith,
  is_some,
}
use virtle.Balloon.Config.{BalloonControllerConfig}
use virtle.Balloon.Evaluate.{ControllerState}
use virtle.Balloon.Controller.{
  max_consecutive_failures, Cycle, Outcome, Ending, tick, next_round, with_resizes, run_loop,
}

module _ (c : BalloonControllerConfig) where
  -- Which of the cycles fail, by `tick` alone.
  pub outcomes : ControllerState → List Cycle → List Bool
  outcomes s [] = []
  outcomes s (cycle ∷ cycles) = is_some (tick c s cycle).1 ∷ outcomes (tick c s cycle).0 cycles

-- A stretch of `n` failures in a row, somewhere in the list.
abbrev pub starts_with_failures : ℕ → List Bool → Bool
starts_with_failures zero bs = true
starts_with_failures (suc n) [] = false
starts_with_failures (suc n) (b ∷ bs) = elim b [ true ↦ starts_with_failures n bs | false ↦ false ]

pub data HasStretch (n : ℕ) : List Bool → Type 0 where
  here : {bs : List Bool} → starts_with_failures n bs ≡ true → HasStretch n bs
  there : {b : Bool} {bs : List Bool} → HasStretch n bs → HasStretch n (b ∷ bs)

round_stops :
    (n : ℕ) (o : Outcome) (go_on : ControllerState → ℕ → Ending)
    → is_some (next_round n o go_on).0 ≡ (
        if is_some o.1
        then (if leb max_consecutive_failures (n + 1) then true else is_some (go_on o.0 (n + 1)).0)
        else is_some (go_on o.0 0).0)
unfolding next_round with_resizes
round_stops n (s, none, rs) go_on = refl
round_stops n (s, some e, rs) go_on = ground arith

starts_fewer :
    (j k : ℕ) (bs : List Bool)
    → j ≤ k
    → starts_with_failures k bs ≡ true
    → starts_with_failures j bs ≡ true
starts_fewer zero k bs h e = refl
starts_fewer (suc j) zero bs h e = absurd (omega arith)
starts_fewer (suc j) (suc k) [] h e = cc
starts_fewer (suc j) (suc k) (true ∷ bs) h e = starts_fewer j k bs (omega arith) e
starts_fewer (suc j) (suc k) (false ∷ bs) h e = cc

-- What is left of a stretch after `n` failures: the list begins with the rest of it, or has another.
abbrev GivesUp : ℕ → List Bool → Type 0
GivesUp n bs =
    (starts_with_failures (max_consecutive_failures - n) bs ≡ true)
    ⊎ HasStretch max_consecutive_failures bs

one_more :
    (n : ℕ) (bs : List Bool)
    → n < 4
    → starts_with_failures (5 - n) (true ∷ bs) ≡ starts_with_failures (5 - (n + 1)) bs
one_more n bs h = let e : 5 - n ≡ suc (5 - (n + 1)) = omega arith in rw e

GivesUp-fail : (n : ℕ) (bs : List Bool) → n < 4 → GivesUp (n + 1) bs → GivesUp n (true ∷ bs)
GivesUp-fail n bs h (inl s) = inl (one_more n bs h ∙ s)
GivesUp-fail n bs h (inr t) = inr (there t)

GivesUp-reset : (n : ℕ) (b : Bool) (bs : List Bool) → GivesUp 0 bs → GivesUp n (b ∷ bs)
GivesUp-reset n b bs (inl s) = inr (there (here s))
GivesUp-reset n b bs (inr t) = inr (there t)

GivesUp-of_fail : (n : ℕ) (bs : List Bool) → n < 4 → GivesUp n (true ∷ bs) → GivesUp (n + 1) bs
GivesUp-of_fail n bs h (inl s) = inl (sym (one_more n bs h) ∙ s)
GivesUp-of_fail n bs h (inr (here s)) = inl (starts_fewer (5 - (n + 1)) 4 bs (omega arith) s)
GivesUp-of_fail n bs h (inr (there t)) = inr t

GivesUp-of_reset : (n : ℕ) (bs : List Bool) → n < 5 → GivesUp n (false ∷ bs) → GivesUp 0 bs
GivesUp-of_reset n bs h (inl s) = let e : 5 - n ≡ suc (4 - n) = omega arith in cc (rw e at s)
GivesUp-of_reset n bs h (inr (here s)) = cc
GivesUp-of_reset n bs h (inr (there t)) = inr t

module _ (c : BalloonControllerConfig) where
  stops_sound :
      (s : ControllerState) (n : ℕ) (cycles : List Cycle)
      → n < 5
      → is_some (run_loop c s n cycles).0 ≡ true
      → GivesUp n (outcomes c s cycles)
  unfolding run_loop outcomes
  stops_sound s n [] h e = cc
  stops_sound s n (cycle ∷ cycles) h e =
      let r = round_stops n (tick c s cycle) (λ t m. run_loop c t m cycles) in
      let next = (tick c s cycle).0 in
      elim (Bool-cases (is_some (tick c s cycle).1)) [
        | inr fine ↦ rw fine (
            GivesUp-reset n false _
              (stops_sound next 0 cycles (omega arith) (sym (rw fine at r) ∙ e)))
        | inl failed ↦ elim (Bool-cases (leb 5 (n + 1))) [
          | inl last ↦ let e4 : n ≡ 4 = ground arith in rw (failed, e4) (inl refl)
          | inr more ↦ rw failed (
              GivesUp-fail n _ (ground arith)
                (stops_sound next (n + 1) cycles (ground arith) (sym (rw (failed, more) at r) ∙ e)))
        ]
      ]

  stops_complete :
      (s : ControllerState) (n : ℕ) (cycles : List Cycle)
      → n < 5
      → GivesUp n (outcomes c s cycles)
      → is_some (run_loop c s n cycles).0 ≡ true
  unfolding run_loop outcomes
  stops_complete s n [] h (inl g) = let e : 5 - n ≡ suc (4 - n) = omega arith in cc (rw e at g)
  stops_complete s n [] h (inr (here g)) = cc
  stops_complete s n (cycle ∷ cycles) h g =
      let r = round_stops n (tick c s cycle) (λ t m. run_loop c t m cycles) in
      let next = (tick c s cycle).0 in
      elim (Bool-cases (is_some (tick c s cycle).1)) [
        | inr fine ↦
            rw fine at r
            ∙ stops_complete next 0 cycles (omega arith) (GivesUp-of_reset n _ h (rw fine at g))
        | inl failed ↦ elim (Bool-cases (leb 5 (n + 1))) [
          | inl last ↦ rw (failed, last) at r
          | inr more ↦
              (rw (failed, more) at r)
              ∙ stops_complete next (n + 1) cycles (ground arith)
                  (GivesUp-of_fail n _ (ground arith) (rw failed at g))
        ]
      ]

  -- The loop, started with no failures, ends with an error exactly if five cycles in a row fail.
  gives_up_iff :
      (s : ControllerState) (cycles : List Cycle)
      → (is_some (run_loop c s 0 cycles).0 ≡ true)
        ↔ HasStretch max_consecutive_failures (outcomes c s cycles)
  gives_up_iff s cycles = (
    λ e. stretch (stops_sound s 0 cycles (omega arith) e),
    λ t. stops_complete s 0 cycles (omega arith) (inr t),
  )
    where
      stretch :
          GivesUp 0 (outcomes c s cycles)
          → HasStretch max_consecutive_failures (outcomes c s cycles)
      stretch (inl g) = here g
      stretch (inr t) = t
