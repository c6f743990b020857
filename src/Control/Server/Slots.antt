-- ===== src/Control/Server/Slots.antt =====
-- The bound on concurrent handlers (`Serve`, `Close`), whatever the order of connections and ends.
use virtle.Prelude.{inl, inr, ◌⊎◌, ℕ, ◌+◌, ◌≤◌, false, ◌≡◌, refl, arith}
use virtle.Control.Server.{
  State, new_server, serve, accept, close, Step, served, connected, handled, rejected, stopped,
  Reach, here, next,
}

-- No more handlers than slots, every connection accounted for, and none accepted after a close.
unfoldable pub IsBounded : ℕ → State → Type 0
IsBounded max s =
    (s.active ≤ max)
    × (s.accepted ≡ s.active + s.rejecting + s.done)
    × ((s.closed ≡ false) ⊎ (s.serving ≡ false))

serve-IsBounded : (max : ℕ) (s : State) → IsBounded max s → IsBounded max (serve s)
unfolding IsBounded serve
serve-IsBounded max s h = ground arith

accept-IsBounded : (max : ℕ) (s : State) → IsBounded max s → IsBounded max (accept max s)
unfolding IsBounded accept
accept-IsBounded max s h = ground arith

step_lem : (max : ℕ) {s t : State} → Step max s t → IsBounded max s → IsBounded max t
unfolding IsBounded close
step_lem max (served s) h = serve-IsBounded max s h
step_lem max (connected s e) h = accept-IsBounded max s h
step_lem max (handled s n e) h = (omega arith, omega arith, h.2)
step_lem max (rejected s n e) h = (omega arith, omega arith, h.2)
step_lem max (stopped s) h = (h.0, h.1, inr refl)

reach_lem : (max : ℕ) {s t : State} → IsBounded max s → Reach max s t → IsBounded max t
reach_lem max h here = h
reach_lem max h (next r st) = step_lem max st (reach_lem max h r)

-- A server that has run in whatever way has no more handlers than slots, has every connection that it
-- accepted with a handler, in rejection or done, and accepts none once it is closed.
pub server-IsBounded : (max : ℕ) (s : State) → Reach max new_server s → IsBounded max s
unfolding IsBounded
server-IsBounded max s r = reach_lem max (omega arith, omega arith, inl refl) r
