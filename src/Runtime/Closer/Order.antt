-- ===== src/Runtime/Closer/Order.antt =====
-- What a teardown of backend/qemu/internal/runtime/closer.go does, and what it reports.
use virtle.Prelude.{
  append-nil, sym, Bool, true, false, not, ◌&&◌, ◌≡◌, refl, ◌↔◌, ◌⊎◌, inl, inr, List, [], ◌∷◌, ◌++◌,
  Option, none, some, arith, All, is_some,
}
use virtle.Prelude.Errors.{Error, errors_join}
use virtle.Runtime.Closer.{
  Action, write_back, close_control, close_processes, disconnect_qmp, clean_up, CloseActions,
  perform, run, unless,
}

-- An action that is set and fails.
abbrev pub fails : Option (Option Error) → Bool
fails none = false
fails (some e) = is_some e

abbrev pub when : Bool → Action → List Action
when true a = a ∷ []
when false a = []

perform_ok :
    (a : Action) (o : Option (Option Error)) (p : Option Error × List Action)
    → ((perform a o p).0 ≡ none) ↔ ((p.0 ≡ none) × (fails o ≡ false))
unfolding perform errors_join
perform_ok a none (e, did) = (λ h. (h, refl), λ h. h.0)
perform_ok a (some none) (none, did) = (λ h. (refl, refl), λ h. refl)
perform_ok a (some none) (some e, did) = (λ h. absurd (ground arith), λ h. absurd (ground arith))
perform_ok a (some (some x)) (none, did) = (λ h. absurd (ground arith), λ h. absurd (ground arith))
perform_ok a (some (some x)) (some e, did) =
    (λ h. absurd (ground arith), λ h. absurd (ground arith))

perform_did :
    (a : Action) (o : Option (Option Error)) (p : Option Error × List Action)
    → (perform a o p).1 ≡ p.1 ++ when (is_some o) a
unfolding perform
perform_did a none (e, did) = sym (append-nil did)
perform_did a (some x) (e, did) = refl

unless-fails :
    (s : Bool) (o : Option (Option Error))
    → (fails (unless s o) ≡ false) ↔ ((s ≡ true) ⊎ (fails o ≡ false))
unfolding unless
unless-fails true o = (λ h. inl refl, λ h. refl)
unless-fails false o = (λ h. inr h, λ h. ground arith)

-- A teardown reports no error exactly if no action that is set fails, where a write-back that is
-- skipped does not count.
run_ok_iff :
    (a : CloseActions)
    → ((run a).0 ≡ none) ↔ (
        All (λ o. fails o ≡ false) (a.control ∷ a.processes ∷ a.qmp ∷ a.cleanup ∷ [])
        × ((a.skip_write_back ≡ true) ⊎ (fails a.write_back ≡ false)))
unfolding run
run_ok_iff a =
    let w = perform write_back (unless a.skip_write_back a.write_back) (none, []) in
    let c = perform close_control a.control w in
    let p = perform close_processes a.processes c in
    let q = perform disconnect_qmp a.qmp p in
    ground (
      arith,
      unless-fails a.skip_write_back a.write_back,
      perform_ok write_back (unless a.skip_write_back a.write_back) (none, []),
      perform_ok close_control a.control w,
      perform_ok close_processes a.processes c,
      perform_ok disconnect_qmp a.qmp p,
      perform_ok clean_up a.cleanup q,
    )

-- A teardown takes every action that is set, whatever the others answer, in this order: the write-
-- back, unless it is skipped, the control server, the processes, QMP, the clean-up.
pub run_did :
    (a : CloseActions)
    → (run a).1
      ≡ when (is_some a.write_back && not a.skip_write_back) write_back
        ++ when (is_some a.control) close_control
        ++ when (is_some a.processes) close_processes
        ++ when (is_some a.qmp) disconnect_qmp
        ++ when (is_some a.cleanup) clean_up
unfolding run unless perform
run_did a = ground arith
