-- ===== src/Wire/Dial/Clients.antt =====
-- What becomes of the clients that `DialWithRetry` dials.
use virtle.Prelude.{
  ℕ, ◌==◌, Bool, true, false, ◌≡◌, refl, subst, List, [], ◌∷◌, Option, none, some, if◌then◌else◌,
  arith,
}
use virtle.Prelude.Errors.{Error, Result, ok, err}
use virtle.Wire.Dial.{
  Attempt, Action, dialed, closed, Retry, Dialed, after_all, unless_ended, probed, with_client,
  check, checked, begun, dial_with_retry,
}

step : Option ℕ → Action → Option (Option ℕ)
step none (dialed c) = some (some c)
step none (closed c) = none
step (some d) (dialed c) = none
step (some d) (closed c) = if d == c then some none else none

go_on : Option (Option ℕ) → (Option ℕ → Option (Option ℕ)) → Option (Option ℕ)
go_on none f = none
go_on (some o) f = f o

-- The client that is open after some actions, given the one before them; `none` where a client is
-- dialed while another is open, or one is closed that is not.
unfoldable pub open_after : Option ℕ → List Action → Option (Option ℕ)
unfolding step go_on
open_after o [] = some o
open_after o (a ∷ did) = go_on (step o a) (λ p. open_after p did)

abbrev pub client_of : Result ℕ → Option ℕ
client_of (ok c) = some c
client_of (err e) = none

-- An end at which just the client that is returned is open.
abbrev Kept : Option ℕ → Option Dialed → Type 0
Kept o none = Unit
Kept o (some d) = open_after o d.actions ≡ some (client_of d.result)

close_lem : (c : ℕ) (o : Option Dialed) → Kept none o → Kept (some c) (after_all (closed c ∷ []) o)
unfolding open_after step go_on
close_lem c none h = tt
close_lem c (some d) h = ground arith

dial_lem : (c : ℕ) (o : Option Dialed) → Kept (some c) o → Kept none (after_all (dialed c ∷ []) o)
unfolding open_after step go_on
dial_lem c none h = tt
dial_lem c (some d) h = h

unless_lem :
    (e : Option Error) (later : Option Dialed) → Kept none later → Kept none (unless_ended e later)
unfolding unless_ended open_after
unless_lem none later h = h
unless_lem (some e) later h = refl

if_lem : {A : Type 0} (P : A → Type 0) (b : Bool) (r s : A) → P r → P s → P (if b then r else s)
if_lem P true r s p q = p
if_lem P false r s p q = q

module _ (retry : Retry) (has_close : retry.has_close ≡ true) where
  probed_lem :
      (a : Attempt) (c : ℕ) (e : Option Error) (later : Option Dialed)
      → Kept none later
      → Kept (some c) (probed retry a c e later)
  unfolding probed open_after
  probed_lem a c none later h = refl
  probed_lem a c (some e) later h =
      rw has_close
        (close_lem c (unless_ended a.ended_after later) (unless_lem a.ended_after later h))

  client_lem :
      (a : Attempt) (r : Result ℕ) (later : Option Dialed)
      → Kept none later
      → Kept none (with_client retry a r later)
  unfolding with_client open_after
  client_lem a (err e) later h = unless_lem a.ended_after later h
  client_lem a (ok c) later h =
      dial_lem c
        (if retry.has_probe
          then probed retry a c a.probe_error later
          else some (record { result = ok c; actions = [] }))
        (if_lem (Kept (some c)) retry.has_probe (probed retry a c a.probe_error later)
          (some (record { result = ok c; actions = [] })) (probed_lem a c a.probe_error later h)
          refl)

  checked_lem :
      (a : Attempt) (e : Option Error) (later : Option Dialed)
      → Kept none later
      → Kept none (checked retry a e later)
  unfolding checked open_after
  checked_lem a none later h = client_lem a a.client later h
  checked_lem a (some e) later h = refl

  begun_lem :
      (a : Attempt) (e : Option Error) (later : Option Dialed)
      → Kept none later
      → Kept none (begun retry a e later)
  unfolding begun open_after
  begun_lem a none later h = checked_lem a (check retry a) later h
  begun_lem a (some e) later h = refl

  loop_lem : (attempts : List Attempt) → Kept none (dial_with_retry retry attempts)
  unfolding dial_with_retry
  loop_lem [] = tt
  loop_lem (a ∷ attempts) = begun_lem a a.ended (dial_with_retry retry attempts) (loop_lem attempts)

  -- Where a failed probe closes its client, no two clients are open at once, and at the end just the
  -- client that is returned is open: none, if an error is returned.
  pub dial_with_retry_closes :
      (attempts : List Attempt) (d : Dialed)
      → dial_with_retry retry attempts ≡ some d
      → open_after none d.actions ≡ some (client_of d.result)
  dial_with_retry_closes attempts d e = subst (Kept none) e (loop_lem attempts)
