-- ===== src/Session/Run/Teardown.antt =====
-- What becomes of the machine when `Run` returns (`shutdownAfter`, `afterSuspend`, `foreground`).
use virtle.Prelude.{
  arith, String, Bool, true, false, ◌||◌, ◌≡◌, refl, subst, ◌⊎◌, inl, inr, List, [], ◌∷◌, ◌++◌,
  Option, none, some, Bool-cases,
}
use virtle.Prelude.Errors.{at_saved, errors_find, Error, is_saved_suspend_exit}
use virtle.SshTools.{Failure}
use virtle.Session.{
  bridge_commit, call, suspend_alone, Event, process_exited, token_read, machine_exited, request,
  timer, signal, ended, sigtstp, sigusr1, Action, shutdown, machine_gone, suspend_machine,
  handle_request, Hooks, Machine, Ended, requests, handle_suspend, after, suspend, shutdown_after,
  saved, nil_or_saved, after_suspend,
}
use virtle.Session.Waits.{wait_for_machine}
use virtle.Session.Ssh.{SshConfig, run_ssh, after_all}
use virtle.Session.Run.{
  wait_ready, Options, Surroundings, unless_saved, all_unless_saved, drop_saved, all_dropped,
  foreground, when_ready, awaited, own_machine, hinted, committed, hint_error,
}
use virtle.Session.Ssh.Order.{if_lem}

-- The machine was shut down, was seen to exit, or was suspended without an error but that of a saved
-- state.
is_down : Action → Bool
is_down shutdown = true
is_down machine_gone = true
is_down (suspend_machine e) = nil_or_saved e
is_down (handle_request e) = nil_or_saved e
is_down _ = false

unfoldable pub any_down : List Action → Bool
unfolding is_down
any_down [] = false
any_down (a ∷ did) = is_down a || any_down did

-- An end at which the machine is down.
abbrev Down : Option Ended → Type 0
Down none = Unit
Down (some r) = any_down r.actions ≡ true

or_true : (b c : Bool) → c ≡ true → b || c ≡ true
or_true true c p = refl
or_true false c p = p

append_lem : (xs ys : List Action) → any_down ys ≡ true → any_down (xs ++ ys) ≡ true
unfolding any_down
append_lem [] ys p = p
append_lem (a ∷ xs) ys p = or_true (is_down a) (any_down (xs ++ ys)) (append_lem xs ys p)

shutdown_lem :
    (m : Machine) (did : List Action) (e : Option Error)
    → Down (some (after did (shutdown_after m e)))
unfolding after shutdown_after any_down is_down
shutdown_lem m did e = append_lem did (shutdown ∷ []) refl

-- A suspend that succeeds has suspended the machine.
abbrev Suspended : Ended → Type 0
Suspended r = nil_or_saved r.error ≡ true → any_down r.actions ≡ true

or_false : (b : Bool) → b ≡ true → b || false ≡ true
or_false true p = refl
or_false false p = p

alone : (o : Option (Option Error)) → Suspended (suspend_alone o)
unfolding suspend_alone any_down is_down is_saved_suspend_exit errors_find at_saved
alone none p = absurd (ground arith)
alone (some e) p = or_false (nil_or_saved e) p

module _ (m : Machine) (h : Hooks) where
  suspended : Suspended (suspend m h)
  unfolding suspend any_down is_down
  suspended =
      if_lem Suspended (requests h)
        (record { error = call h.suspend; actions = suspend_machine (call h.suspend) ∷ [] })
        (suspend_alone m.suspender) (λ p. or_false (nil_or_saved (call h.suspend)) p)
        (alone m.suspender)

  handled : Suspended (handle_suspend h)
  unfolding handle_suspend any_down is_down
  handled p = or_false (nil_or_saved (call h.handle_suspend_request)) p

  after_lem : (r : Ended) → Suspended r → Down (some (after_suspend m r))
  unfolding after_suspend
  after_lem r s = elim (Bool-cases (nil_or_saved r.error)) [
    | inl e ↦ (rw e (s e))
    | inr e ↦ (rw e (shutdown_lem m r.actions r.error))
  ]

  machine_lem : (es : List Event) → Down (wait_for_machine m h es)
  unfolding wait_for_machine any_down is_down shutdown_after
  machine_lem [] = tt
  machine_lem (machine_exited ∷ es) = refl
  machine_lem (request ∷ es) =
      if_lem Down (requests h) (some (after_suspend m (handle_suspend h))) (wait_for_machine m h es)
        (after_lem (handle_suspend h) handled) (machine_lem es)
  machine_lem (signal sigusr1 ∷ es) = machine_lem es
  machine_lem (signal sigtstp ∷ es) = after_lem (suspend m h) suspended
  machine_lem (ended cause ∷ es) = refl
  machine_lem (process_exited _ ∷ es) = machine_lem es
  machine_lem (token_read _ ∷ es) = machine_lem es
  machine_lem (timer ∷ es) = machine_lem es

  all_lem : (did : List Action) (o : Option Ended) → Down o → Down (after_all did o)
  unfolding after
  all_lem did none p = tt
  all_lem did (some r) p = append_lem did r.actions p

  committed_lem : (w : Surroundings) (c : Ended) (e : Option Error) → Down (committed m h w c e)
  unfolding committed
  committed_lem w c none = all_lem c.actions (wait_for_machine m h w.events) (machine_lem w.events)
  committed_lem w c (some e) = shutdown_lem m c.actions (some e)

  hinted_lem : (w : Surroundings) (e : Option Error) → Down (hinted m h w e)
  unfolding hinted shutdown_after any_down is_down
  hinted_lem w none = committed_lem w (bridge_commit h) (bridge_commit h).error
  hinted_lem w (some e) = refl

-- An end of an error that is not one of a saved state, or whose machine is down.
abbrev Released : Option Ended → Type 0
Released none = Unit
Released (some r) = (saved r.error ≡ true) ⊎ (any_down r.actions ≡ true)

unless_lem : (m : Machine) (o : Option Ended) → Released (all_unless_saved m o)
unfolding unless_saved
unless_lem m none = tt
unless_lem m (some r) = elim (Bool-cases (saved r.error)) [
  | inl e ↦ (rw e (inl e))
  | inr e ↦ (rw e (inr (shutdown_lem m r.actions r.error)))
]

released : (o : Option Ended) → Down o → Released o
released none p = tt
released (some r) p = inr p

module _ (m : Machine) (h : Hooks) (classify : Option Error → String → Failure) (config : SshConfig)
    (w : Surroundings) (o : Options) where
  foreground_lem : Released (foreground m h classify config w o)
  unfolding foreground
  foreground_lem =
      if_lem Released o.ssh (all_unless_saved m (run_ssh m h classify config w.attempts))
        (hinted m h w (hint_error w config.argv m.reporter))
        (unless_lem m (run_ssh m h classify config w.attempts))
        (released (hinted m h w (hint_error w config.argv m.reporter))
          (hinted_lem m h w (hint_error w config.argv m.reporter)))

  -- The foreground of a machine that has started ends with the machine shut down, seen to exit or
  -- suspended without an error, or with the error of a saved state.
  foreground_releases :
      (r : Ended)
      → foreground m h classify config w o ≡ some r
      → (saved r.error ≡ true) ⊎ (any_down r.actions ≡ true)
  foreground_releases r e = subst Released e foreground_lem

-- An end without an error, or whose machine is down.
abbrev Closed : Option Ended → Type 0
Closed none = Unit
Closed (some r) = (r.error ≡ none) ⊎ (any_down r.actions ≡ true)

drop_lem : (r : Ended) → Released (some r) → Closed (some (drop_saved r))
unfolding drop_saved
drop_lem r p = elim (Bool-cases (saved r.error)) [
  | inl e ↦ rw e (inl refl)
  | inr e ↦ rw e (elim p [ inl q ↦ absurd (ground arith) | inr q ↦ inr q ])
]

dropped : (o : Option Ended) → Released o → Closed (all_dropped o)
dropped none p = tt
dropped (some r) p = drop_lem r p

after_closed_lem : (did : List Action) (o : Option Ended) → Closed o → Closed (after_all did o)
unfolding after
after_closed_lem did none p = tt
after_closed_lem did (some r) (inl e) = inl e
after_closed_lem did (some r) (inr q) = inr (append_lem did r.actions q)

module _ (m : Machine) (h : Hooks) (classify : Option Error → String → Failure) (config : SshConfig)
    (w : Surroundings) (o : Options) where
  ready_lem : (r : Ended) (e : Option Error) → Closed (when_ready m h classify config w o r e)
  unfolding when_ready
  ready_lem r none =
      after_closed_lem r.actions (all_dropped (foreground m h classify config w o))
        (dropped (foreground m h classify config w o) (foreground_lem m h classify config w o))
  ready_lem r (some e) =
      if_lem Closed (is_saved_suspend_exit e) (some (record { error = none; actions = r.actions }))
        (some (after r.actions (shutdown_after m (some e)))) (inl refl)
        (inr (shutdown_lem m r.actions (some e)))

  awaited_lem : (a : Option Ended) → Closed (awaited m h classify config w o a)
  unfolding awaited
  awaited_lem none = tt
  awaited_lem (some r) = ready_lem r r.error

  own_lem : (resumed : Bool) → Closed (own_machine m h classify config w o resumed)
  unfolding own_machine
  own_lem true =
      dropped (foreground m h classify config w o) (foreground_lem m h classify config w o)
  own_lem false = awaited_lem (wait_ready m h w.dial_error w.ready_events)

-- `Run` never returns an error for a machine that has started without having shut it down, seen it exit
-- or suspended it without an error.
pub own_machine_closes :
    (m : Machine) (h : Hooks) (classify : Option Error → String → Failure) (config : SshConfig)
    (w : Surroundings) (o : Options) (resumed : Bool) (r : Ended) (e : Error)
    → own_machine m h classify config w o resumed ≡ some r
    → r.error ≡ some e
    → any_down r.actions ≡ true
own_machine_closes m h classify config w o resumed r e q f =
    elim (subst Closed q (own_lem m h classify config w o resumed)) [
      | inl none_lem ↦ absurd (ground arith)
      | inr p ↦ p
    ]
