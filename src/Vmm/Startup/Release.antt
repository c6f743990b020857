-- ===== src/Vmm/Startup/Release.antt =====
-- What a launch holds when `startWithPlan` returns.
use virtle.Prelude.{
  Bool, true, false, ◌≡◌, refl, List, [], ◌∷◌, ◌++◌, Option, none, some, if◌then◌else◌,
}
use virtle.Prelude.Errors.{plain, Error}
use virtle.Vmm.Startup.{
  missing, missing_qmp, guest_files_error, staged, Action, acquire_lock, start_qemu, connect_qmp,
  reach_sockets, create_runtime, start_control, start_balloon, Calls, Progress, Outcome, check,
  start_loop, no_runner, resolved, start_runs, and_did, with_control, with_runtime, with_monitor,
  with_qemu, with_runs, with_sockets, with_lock, refused, locked, in_directory, start_with_plan,
}
use virtle.Vmm.Startup.Held.{
  nothing, take, held_after, Holds, holding, Agrees, Proper, check_lem, agrees_lem, balloon_lem,
}

module _ (w : Calls) where
  control_lem :
      (p : Progress)
      → held_after nothing p.did ≡ holding true true true true true
      → p.has_qmp ≡ true
      → p.sockets_reached ≡ true
      → Proper (with_control w p)
  unfolding with_control
  control_lem p a q s =
      let agrees : Agrees p = (true, true, true, rw (q, s) a) in
      let more : List Action = if w.has_balloon then start_balloon ∷ [] else [] in
      check_lem w p w.queued_error
        (check w p (guest_files_error w) (record { error = none; did = p.did ++ more })) agrees
        (check_lem w p (guest_files_error w) (record { error = none; did = p.did ++ more }) agrees
          (agrees_lem p.did more (holding true true true true true)
            (holding true true true true true) a
            (balloon_lem w.has_balloon (holding true true true true true))))

  runtime_lem :
      (p : Progress)
      → held_after nothing p.did ≡ holding true true true true false
      → p.has_qmp ≡ true
      → p.sockets_reached ≡ true
      → Proper (with_runtime w p)
  unfolding with_runtime held_after take
  runtime_lem p a q s =
      check_lem w p (staged "control startup" w.control_error)
        (with_control w (and_did p (start_control ∷ []))) (true, true, false, rw (q, s) a)
        (control_lem (and_did p (start_control ∷ []))
          (agrees_lem p.did (start_control ∷ []) (holding true true true true false)
            (holding true true true true true) a refl)
          q s)

  monitor_lem :
      (p : Progress)
      → held_after nothing p.did ≡ holding true true true false false
      → p.has_qmp ≡ true
      → p.sockets_reached ≡ true
      → Proper (with_monitor w p)
  unfolding with_monitor held_after take
  monitor_lem p a q s =
      check_lem w p (if w.resumes then w.restore_error else none)
        (with_runtime w (record p { did = p.did ++ create_runtime ∷ []; started = true }))
        (true, false, false, rw (q, s) a)
        (runtime_lem (record p { did = p.did ++ create_runtime ∷ []; started = true })
          (agrees_lem p.did (create_runtime ∷ []) (holding true true true false false)
            (holding true true true true false) a refl)
          q s)

  qemu_lem :
      (p : Progress)
      → held_after nothing p.did ≡ holding true false true false false
      → p.has_qmp ≡ false
      → p.sockets_reached ≡ true
      → Proper (with_qemu w p)
  unfolding with_qemu held_after take
  qemu_lem p a q s =
      check_lem w p (missing_qmp w.qmp)
        (with_monitor w (record p { did = p.did ++ connect_qmp ∷ []; has_qmp = true }))
        (true, false, false, rw (q, s) a)
        (monitor_lem (record p { did = p.did ++ connect_qmp ∷ []; has_qmp = true })
          (agrees_lem p.did (connect_qmp ∷ []) (holding true false true false false)
            (holding true true true false false) a refl)
          refl s)

  runs_lem :
      (p : Progress) (b : Bool)
      → held_after nothing p.did ≡ holding b false true false false
      → p.has_qmp ≡ false
      → p.sockets_reached ≡ true
      → Proper (with_runs w p)
  unfolding with_runs held_after take
  runs_lem p b a q s =
      let agrees : Agrees p = (b, false, false, rw (q, s) a) in
      let next : Outcome = with_qemu w (and_did p (start_qemu ∷ [])) in
      check_lem w p (if w.has_virtiofs then w.sockets_error else none)
        (check w p (missing "vm startup" "qemu process is required" w.qemu) next) agrees
        (check_lem w p (missing "vm startup" "qemu process is required" w.qemu) next agrees (
          qemu_lem (and_did p (start_qemu ∷ []))
            (agrees_lem p.did (start_qemu ∷ []) (holding b false true false false)
              (holding true false true false false) a refl)
            q s))

  -- The runs change nothing but the processes.
  start_lem :
      (runs : List (Option Error)) (b : Bool)
      → (c : Bool) × (held_after (holding b false true false false) (start_loop runs).1
          ≡ holding c false true false false)
  unfolding start_loop held_after take
  start_lem [] b = (b, refl)
  start_lem (some e ∷ runs) b = (false, refl)
  start_lem (none ∷ runs) b = start_lem runs true

  runner_lem :
      (has_runner : Bool) (runs : List (Option Error)) (b : Bool)
      → (c : Bool) × (held_after (holding b false true false false) (no_runner has_runner runs).1
          ≡ holding c false true false false)
  unfolding no_runner held_after
  runner_lem has_runner [] b = (b, refl)
  runner_lem true (r ∷ runs) b = start_lem (r ∷ runs) b
  runner_lem false (r ∷ runs) b = (b, refl)

  resolved_lem :
      (e : Option Error)
      → (c : Bool) × (held_after (holding false false true false false) (resolved w e).1
          ≡ holding c false true false false)
  unfolding resolved held_after
  resolved_lem (some e) = (false, refl)
  resolved_lem none = runner_lem w.has_runner w.runs false

  sockets_lem :
      (p : Progress)
      → held_after nothing p.did ≡ holding false false true false false
      → p.has_qmp ≡ false
      → p.sockets_reached ≡ true
      → Proper (with_sockets w p)
  unfolding with_sockets start_runs
  sockets_lem p a q s =
      let (c, r) = resolved_lem w.runs_error in
      let did : List Action = (resolved w w.runs_error).1 in
      let held : held_after nothing (p.did ++ did) ≡ holding c false true false false =
        agrees_lem p.did did (holding false false true false false)
          (holding c false true false false) a r in
      check_lem w (and_did p did) (resolved w w.runs_error).0 (with_runs w (and_did p did))
        (c, false, false, rw (q, s) held) (runs_lem (and_did p did) c held q s)

  lock_lem :
      (p : Progress)
      → held_after nothing p.did ≡ holding false false false false false
      → p.has_qmp ≡ false
      → p.sockets_reached ≡ false
      → Proper (with_lock w p)
  unfolding with_lock held_after take
  lock_lem p a q s =
      let agrees : Agrees p = (false, false, false, rw (q, s) a) in
      let reached : Progress = record p {
        did = p.did ++ reach_sockets ∷ [];
        sockets_reached = true;
      } in
      let next : Outcome = with_sockets w reached in
      check_lem w p (staged "preflight" w.cid_error)
        (check w p (staged "preflight" w.command_error)
          (check w p (staged "preflight" w.prepare_error) next))
        agrees
        (check_lem w p (staged "preflight" w.command_error)
          (check w p (staged "preflight" w.prepare_error) next) agrees
          (check_lem w p (staged "preflight" w.prepare_error) next agrees (
            sockets_lem reached
              (agrees_lem p.did (reach_sockets ∷ []) (holding false false false false false)
                (holding false false true false false) a refl)
              q refl)))

  locked_lem : (e : Option Error) → Proper (locked w e)
  unfolding locked refused held_after take
  locked_lem (some e) = (false, false, refl)
  locked_lem none =
      lock_lem
        (record {
          did = acquire_lock ∷ [];
          has_qmp = false;
          sockets_reached = false;
          started = false;
        })
        refl refl refl

  directory_lem : (e : Option Error) → Proper (in_directory w e)
  unfolding in_directory refused held_after take
  directory_lem (some e) = (false, false, refl)
  directory_lem none = locked_lem w.lock_error

  plan_lem :
      (b : Bool)
      → Proper (
          if b
          then in_directory w w.directory_error
          else refused [] (plain "launch plan is required"))
  unfolding refused held_after
  plan_lem true = directory_lem w.directory_error
  plan_lem false = (false, false, refl)

  -- Wherever a launch fails, it has given back the lock, the processes, the monitor and the socket files
  -- that it took; a runtime that it created by then is not shut down, nor is a control server that it
  -- started. A launch that succeeds holds them all.
  pub start_with_plan_releases : Holds (start_with_plan w).error (start_with_plan w).did
  unfolding start_with_plan
  start_with_plan_releases = plan_lem w.has_plan
