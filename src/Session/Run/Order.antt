-- ===== src/Session/Run/Order.antt =====
-- The order of what `Run` does with a machine whose session is an ssh command.
use virtle.Prelude.{
  str_eq, String, Bool, true, false, ◌≡◌, refl, subst, List, [], ◌∷◌, Option, none, some,
}
use virtle.Prelude.Errors.{Error, Result, ok, err, is_saved_suspend_exit}
use virtle.SshTools.{Failure}
use virtle.Session.{
  Event, process_exited, token_read, machine_exited, request, timer, signal, ended, sigtstp,
  sigusr1, Action, Hooks, Machine, Status, Ended, requests, handle_suspend, after, shutdown_after,
  saved,
}
use virtle.Session.Waits.{wait_ready, ready_loop, ready_dial, ready_status}
use virtle.Session.Ssh.{SshConfig, run_ssh}
use virtle.Session.Run.{
  Options, Surroundings, unless_saved, all_unless_saved, drop_saved, all_dropped, foreground,
  when_ready, awaited, own_machine,
}
use virtle.Session.Ssh.Order.{
  Ordered, ssh_trace, ssh_step, if_lem, after_lem, after_all_lem, handled, suspended,
  run_ssh_ordered,
}

module _ (m : Machine) (h : Hooks) where
  loop_lem : (es : List Event) → Ordered false (ready_loop m h es)
  unfolding ready_loop ssh_trace ssh_step
  loop_lem [] = tt
  loop_lem (token_read e ∷ es) = refl
  loop_lem (machine_exited ∷ es) = refl
  loop_lem (request ∷ es) =
      if_lem (Ordered false) (requests h) (some (handle_suspend h)) (ready_loop m h es)
        (handled m h) (loop_lem es)
  loop_lem (signal sigtstp ∷ es) = suspended m h
  loop_lem (signal sigusr1 ∷ es) = loop_lem es
  loop_lem (ended cause ∷ es) = refl
  loop_lem (process_exited _ ∷ es) = loop_lem es
  loop_lem (timer ∷ es) = loop_lem es

  dial_lem : (es : List Event) (e : Option Error) → Ordered false (ready_dial m h es e)
  unfolding ready_dial ssh_trace
  dial_lem es none = loop_lem es
  dial_lem es (some e) = refl

  status_lem :
      (e : Option Error) (es : List Event) (o : Option (Result Status))
      → Ordered false (ready_status m h e es o)
  unfolding ready_status ssh_trace
  status_lem e es none = refl
  status_lem e es (some (err f)) = refl
  status_lem e es (some (ok s)) =
      if_lem (Ordered false) (str_eq s.ready_socket "")
        (some (record { error = none; actions = [] })) (ready_dial m h es e) refl (dial_lem es e)

  shutdown_lem :
      (did : List Action) (e : Option Error)
      → ssh_trace false did ≡ some false
      → Ordered false (some (after did (shutdown_after m e)))
  unfolding shutdown_after ssh_trace ssh_step
  shutdown_lem did e p = after_lem false false did (shutdown_after m e) p refl

  unless_lem : (o : Option Ended) → Ordered false o → Ordered false (all_unless_saved m o)
  unfolding unless_saved
  unless_lem none p = tt
  unless_lem (some r) p =
      if_lem (λ s. Ordered false (some s)) (saved r.error) r
        (after r.actions (shutdown_after m r.error)) p (shutdown_lem r.actions r.error p)

  dropped : (o : Option Ended) → Ordered false o → Ordered false (all_dropped o)
  unfolding drop_saved
  dropped none p = tt
  dropped (some r) p =
      if_lem (λ s. Ordered false (some s)) (saved r.error) (record r { error = none }) r p p

  module _ (classify : Option Error → String → Failure) (config : SshConfig) (w : Surroundings)
      (o : Options) (ssh : o.ssh ≡ true) where
    foreground_lem : Ordered false (foreground m h classify config w o)
    unfolding foreground
    foreground_lem = rw ssh (
        unless_lem (run_ssh m h classify config w.attempts)
          (run_ssh_ordered m h classify config w.attempts))

    ready_lem :
        (r : Ended) (e : Option Error)
        → Ordered false (some r)
        → Ordered false (when_ready m h classify config w o r e)
    unfolding when_ready
    ready_lem r none p =
        after_all_lem false false r.actions (all_dropped (foreground m h classify config w o)) p
          (dropped (foreground m h classify config w o) foreground_lem)
    ready_lem r (some e) p =
        if_lem (Ordered false) (is_saved_suspend_exit e)
          (some (record { error = none; actions = r.actions }))
          (some (after r.actions (shutdown_after m (some e)))) p (shutdown_lem r.actions (some e) p)

    awaited_lem :
        (a : Option Ended) → Ordered false a → Ordered false (awaited m h classify config w o a)
    unfolding awaited
    awaited_lem none p = tt
    awaited_lem (some r) p = ready_lem r r.error p

    own_lem : (resumed : Bool) → Ordered false (own_machine m h classify config w o resumed)
    unfolding own_machine wait_ready
    own_lem true = dropped (foreground m h classify config w o) foreground_lem
    own_lem false =
        awaited_lem (wait_ready m h w.dial_error w.ready_events)
          (status_lem w.dial_error w.ready_events m.reporter)

-- A session whose foreground is an ssh command, from the start of the machine to the end of `Run`: a
-- command is started only when none runs, the resumed state is given up only while one runs, the
-- machine is suspended, shut down or seen to exit, and a key installed, only when none runs, and none is left at the end.
pub own_machine_order :
    (m : Machine) (h : Hooks) (classify : Option Error → String → Failure) (config : SshConfig)
    (w : Surroundings) (o : Options) (resumed : Bool) (r : Ended)
    → o.ssh ≡ true
    → own_machine m h classify config w o resumed ≡ some r
    → ssh_trace false r.actions ≡ some false
own_machine_order m h classify config w o resumed r ssh e =
    subst (Ordered false) e (own_lem m h classify config w o ssh resumed)
