-- ===== src/Executor/Process/Escalation.antt =====
-- What `Stop` of internal/executor/process.go guarantees on its way from a shutdown to a kill.
use virtle.Prelude.{
  ◌≡◌, ◌≢◌, refl, ◌⊎◌, Bool, true, false, List, [], ◌∷◌, ◌++◌, Option, none, some, ◌||◌, arith,
}
use virtle.Prelude.Errors.{errorf, end, str, wrapf, Error, errors_join}
use virtle.Executor.Process.{
  or_empty, Process, Action, shutdown, sigterm, sigkill, wait, is_failure, get_grace_period,
  join_shutdown, kill_wait, after_kill, kill_rung, after_term, term_rung, shutdown_rung,
  stop_process,
}

join_fails : (s : Option Error) (e : Error) → join_shutdown s e ≢ none
unfolding join_shutdown errors_join
join_fails none e = ground arith
join_fails (some s) e = ground arith

kill_rung-ok :
    (p : Process) (s : Option Error) (did : List Action)
    → (kill_rung p s did).error ≡ none
    → (kill_rung p s did).saw_exit ≡ true
unfolding kill_rung after_kill
kill_rung-ok p s did h = ground (
  arith,
  join_fails s (wrapf "kill %s: %w" (str p.name end) (or_empty p.kill_error)),
  join_fails s (errorf "kill %s: process did not exit" (str p.name end)),
)

term_rung-ok :
    (p : Process) (s : Option Error) (did : List Action)
    → (term_rung p s did).error ≡ none
    → (term_rung p s did).saw_exit ≡ true
unfolding term_rung after_term
term_rung-ok p s did h = ground (
  arith,
  join_fails s (wrapf "stop %s: %w" (str p.name end) (or_empty p.term_error)),
  kill_rung-ok p s did,
  kill_rung-ok p s (did ++ sigterm ∷ wait (get_grace_period p) ∷ []),
)

shutdown_rung-ok :
    (p : Process) (s : Option Error)
    → (shutdown_rung p s).error ≡ none
    → (shutdown_rung p s).saw_exit ≡ true
unfolding shutdown_rung
shutdown_rung-ok p none h =
    ground (arith, term_rung-ok p none (shutdown ∷ wait (get_grace_period p) ∷ []))
shutdown_rung-ok p (some e) h =
    term_rung-ok p (some (wrapf "shutdown %s: %w" (str p.name end) e)) (shutdown ∷ []) h

-- If Stop reports no error, then it saw the process exit.
pub stop_no_error : (p : Process) → (stop_process p).error ≡ none → (stop_process p).saw_exit ≡ true
unfolding stop_process
stop_no_error p h = ground (arith, term_rung-ok p none [], shutdown_rung-ok p p.shutdown_error)

is_sigkill : Action → Bool
is_sigkill sigkill = true
is_sigkill _ = false

-- Whether a SIGKILL was sent.
unfoldable pub kills : List Action → Bool
unfolding is_sigkill
kills [] = false
kills (a ∷ did) = is_sigkill a || kills did

kills-append : (xs ys : List Action) → kills (xs ++ ys) ≡ kills xs || kills ys
unfolding kills
kills-append [] ys = refl
kills-append (x ∷ xs) ys = ground (arith, kills-append xs ys)

-- Why a process may still run: SIGTERM failed and no SIGKILL was sent, or a SIGKILL was sent and it
-- failed or the process survived it.
abbrev pub IsLeft : Process → List Action → Type 0
IsLeft p did =
    ((is_failure p.term_error ≡ true) × (kills did ≡ false))
    ⊎ ((kills did ≡ true) × ((is_failure p.kill_error ≡ true) ⊎ (p.exits_after_kill ≡ false)))

-- Why a SIGKILL may be sent: the context ended first, or the process survived a SIGTERM.
abbrev pub MayKill : Process → Type 0
MayKill p =
    (p.ctx_ended_before_term ≡ true)
    ⊎ ((is_failure p.term_error ≡ false) × (p.exits_after_term ≡ false))

kill_rung-IsLeft :
    (p : Process) (s : Option Error) (did : List Action)
    → (kill_rung p s did).saw_exit ≡ false
    → IsLeft p (kill_rung p s did).actions
unfolding kill_rung after_kill kills is_sigkill
kill_rung-IsLeft p s did h =
    ground
      (arith, kills-append did (sigkill ∷ []), kills-append did (sigkill ∷ wait (kill_wait p) ∷ []))

term_rung-IsLeft :
    (p : Process) (s : Option Error) (did : List Action)
    → kills did ≡ false
    → (term_rung p s did).saw_exit ≡ false
    → IsLeft p (term_rung p s did).actions
unfolding term_rung after_term kills is_sigkill
term_rung-IsLeft p s did n h = ground (
  arith,
  kills-append did (sigterm ∷ []),
  kill_rung-IsLeft p s did,
  kill_rung-IsLeft p s (did ++ sigterm ∷ wait (get_grace_period p) ∷ []),
)

shutdown_rung-IsLeft :
    (p : Process) (s : Option Error)
    → (shutdown_rung p s).saw_exit ≡ false
    → IsLeft p (shutdown_rung p s).actions
unfolding shutdown_rung kills is_sigkill
shutdown_rung-IsLeft p none h =
    ground (arith, term_rung-IsLeft p none (shutdown ∷ wait (get_grace_period p) ∷ []) refl)
shutdown_rung-IsLeft p (some e) h =
    term_rung-IsLeft p (some (wrapf "shutdown %s: %w" (str p.name end) e)) (shutdown ∷ []) refl h

-- If Stop did not see the process exit, then SIGTERM failed and no SIGKILL was sent, or a SIGKILL was
-- sent and it failed or the process survived it.
pub stop_leaves :
    (p : Process) → (stop_process p).saw_exit ≡ false → IsLeft p (stop_process p).actions
unfolding stop_process kills
stop_leaves p h =
    ground (arith, term_rung-IsLeft p none [] refl, shutdown_rung-IsLeft p p.shutdown_error)

term_rung-kills :
    (p : Process) (s : Option Error) (did : List Action)
    → kills did ≡ false
    → kills (term_rung p s did).actions ≡ true
    → MayKill p
unfolding term_rung after_term kills is_sigkill
term_rung-kills p s did n h = ground (
  arith,
  kills-append did (sigterm ∷ []),
  kills-append did (sigterm ∷ wait (get_grace_period p) ∷ []),
)

shutdown_rung-kills :
    (p : Process) (s : Option Error) → kills (shutdown_rung p s).actions ≡ true → MayKill p
unfolding shutdown_rung kills is_sigkill
shutdown_rung-kills p none h =
    ground (arith, term_rung-kills p none (shutdown ∷ wait (get_grace_period p) ∷ []) refl)
shutdown_rung-kills p (some e) h =
    term_rung-kills p (some (wrapf "shutdown %s: %w" (str p.name end) e)) (shutdown ∷ []) refl h

-- If Stop sends SIGKILL, then the context ended before the SIGTERM, or a SIGTERM did not fail and
-- the process did not exit in time.
stop_kills : (p : Process) → kills (stop_process p).actions ≡ true → MayKill p
unfolding stop_process kills
stop_kills p h =
    ground (arith, term_rung-kills p none [] refl, shutdown_rung-kills p p.shutdown_error)
