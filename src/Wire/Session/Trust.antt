-- ===== src/Wire/Session/Trust.antt =====
-- When `Session` of backend/qemu/internal/qmpwire/session.go still trusts its connection.
use virtle.Prelude.{
  ◌≡◌, refl, ◌↔◌, ◌⊎◌, inl, inr, Bool, Option, true, false, List, [], ◌∷◌, none, some, arith, All,
}
use virtle.Prelude.Errors.{
  nil, canceled, deadline_exceeded, not_exist, process_done, saved_suspend_exit, unsupported, eof,
  net_closed, timeout, rpc, exceeded, exit, errorf, first_some, cons, Errors, join, command_error,
  stage_error, errors_find_all, errors_find, wire_error, Error, wrapf, broken, text, end,
}
use virtle.Wire.Session.{
  at_wire, found, is_wire_error, Operation, settle, refuse, at_deadline, at_context, session_do,
  session_run,
}

-- A failure of the connection stands somewhere in an error, itself or wrapped.
unfoldable mutual
  pub HasWireError : Error → Type 0
  HasWireError (wire_error e) = Unit
  HasWireError (wrapf s xs e) = HasWireError e
  HasWireError (stage_error s e) = HasWireError e
  HasWireError (command_error s c x e) = HasWireError e
  HasWireError (join es) = OneHasWireError es
  HasWireError _ = ⊥

  pub OneHasWireError : Errors → Type 0
  OneHasWireError nil = ⊥
  OneHasWireError (cons e es) = HasWireError e ⊎ OneHasWireError es

-- What the search for one finds.
Finds : Option Bool → Type 0 → Type 0
Finds o P = ((o ≡ some true) × P) ⊎ ((o ≡ none) × (¬ P))

or_lem : (a b : Option Bool) (P Q : Type 0) → Finds a P → Finds b Q → Finds (first_some a b) (P ⊎ Q)
unfolding Finds
or_lem a b P Q (inl (f, p)) q = inl (rw f refl, inl p)
or_lem a b P Q (inr (f, n)) (inl (g, q)) = inl (rw (f, g) refl, inr q)
or_lem a b P Q (inr (f, n)) (inr (g, m)) =
    inr (rw (f, g) refl, λ s. elim s [ inl p ↦ n p | inr q ↦ m q ])

mutual
  unfolding errors_find errors_find_all at_wire HasWireError OneHasWireError Finds

  find_lem : (e : Error) → Finds (errors_find at_wire e) (HasWireError e)
  find_lem (errorf s xs) = inr (refl, λ p. p)
  find_lem (wrapf s xs e) = find_lem e
  find_lem (exit c) = inr (refl, λ p. p)
  find_lem canceled = inr (refl, λ p. p)
  find_lem deadline_exceeded = inr (refl, λ p. p)
  find_lem not_exist = inr (refl, λ p. p)
  find_lem process_done = inr (refl, λ p. p)
  find_lem broken = inr (refl, λ p. p)
  find_lem saved_suspend_exit = inr (refl, λ p. p)
  find_lem unsupported = inr (refl, λ p. p)
  find_lem eof = inr (refl, λ p. p)
  find_lem net_closed = inr (refl, λ p. p)
  find_lem timeout = inr (refl, λ p. p)
  find_lem (wire_error e) = inl (refl, tt)
  find_lem (exceeded r n u) = inr (refl, λ p. p)
  find_lem (rpc c m) = inr (refl, λ p. p)
  find_lem (stage_error s e) = find_lem e
  find_lem (command_error s c x e) = find_lem e
  find_lem (join es) = find_all_lem es

  find_all_lem : (es : Errors) → Finds (errors_find_all at_wire es) (OneHasWireError es)
  find_all_lem nil = inr (refl, λ p. p)
  find_all_lem (cons e es) =
      or_lem (errors_find at_wire e) (errors_find_all at_wire es) (HasWireError e)
        (OneHasWireError es) (find_lem e) (find_all_lem es)

found_lem : (o : Option Bool) (P : Type 0) → Finds o P → (found o ≡ true) ↔ P
unfolding Finds found
found_lem o P (inl (f, p)) = (λ q. p, λ q. rw f refl)
found_lem o P (inr (f, n)) = (λ q. absurd (ground arith), λ p. absurd (n p))

wire_error_iff : (e : Error) → (is_wire_error e ≡ true) ↔ HasWireError e
unfolding is_wire_error
wire_error_iff e = found_lem (errors_find at_wire e) (HasWireError e) (find_lem e)

-- Why an operation loses the connection: it ran and failed, with a failure of the connection or after
-- the context ended.
abbrev pub IsLoss : Operation → Error → Type 0
IsLoss op e =
    (op.ended ≡ none)
    × (op.deadline_error ≡ none)
    × (op.fn_error ≡ some e)
    × (((op.can_end ≡ true) × (op.ended_meanwhile ≡ true)) ⊎ HasWireError e)

-- An operation on a session that is not broken breaks it with an error exactly if it ran, failed
-- with that error, and either the error has a failure of the connection in it or the context can end and
-- did so while the operation ran.
pub session_do_breaks :
    (op : Operation) (e : Error) → ((session_do none op).broken_by ≡ some e) ↔ IsLoss op e
unfolding session_do at_context at_deadline settle refuse
session_do_breaks op e =
    (λ h. ground (arith, wire_error_iff e), λ h. ground (arith, wire_error_iff e))

-- On a broken session no operation runs: each fails with the error that says so and only quotes
-- the earlier one, and the session stays as it is.
session_run_broken :
    (e : Error) (ops : List Operation)
    → All
        (λ d.
          (d.ran ≡ false)
          × (d.broken_by ≡ some e)
          × (d.error ≡ some (wrapf "%w: %v" (text e end) broken)))
        (session_run (some e) ops)
unfolding session_run session_do refuse
session_run_broken e [] = tt
session_run_broken e (op ∷ ops) = ((refl, refl, refl), session_run_broken e ops)
