-- ===== src/Vmm/Quit/Ladder.antt =====
-- When the shutdown of QEMU succeeds.
use virtle.Prelude.{true, ◌≡◌, ◌⊎◌, ◌↔◌, List, [], ◌∷◌, none, arith}
use virtle.Vmm.Quit.{
  wait_for_guest, request_guest_shutdown, Calls, Action, is_broken, fresh_dialed, quit_fresh_qmp,
  force_quit, waited, requested, shutdown_qemu,
}

-- The guest was asked and has exited.
abbrev pub GuestExits : Calls → Type 0
GuestExits w = (w.has_remote_control ≡ true) × (w.request_error ≡ none) × (w.wait_error ≡ none)

-- QEMU took a quit, on the connection or on a new one where the connection is broken.
abbrev pub Quits : Calls → Type 0
Quits w =
    (w.quit_error ≡ none)
    ⊎ ((is_broken w.quit_error ≡ true) × (w.dial_error ≡ none) × (w.fresh_error ≡ none))

quit_iff : (w : Calls) (did : List Action) → ((force_quit did w).error ≡ none) ↔ Quits w
unfolding force_quit quit_fresh_qmp fresh_dialed is_broken
quit_iff w did = (λ h. ground arith, λ h. ground arith)

-- The shutdown of QEMU reports no error exactly if the guest was asked and exited, or QEMU took a quit:
-- on the connection that the machine has, or on a new one if that is broken.
pub shutdown_qemu_iff : (w : Calls) → ((shutdown_qemu w).error ≡ none) ↔ (GuestExits w ⊎ Quits w)
unfolding shutdown_qemu requested waited
shutdown_qemu_iff w = (
  λ h. ground (
    arith,
    quit_iff w [],
    quit_iff w (request_guest_shutdown ∷ []),
    quit_iff w (request_guest_shutdown ∷ wait_for_guest ∷ []),
  ),
  λ h. ground (
    arith,
    quit_iff w [],
    quit_iff w (request_guest_shutdown ∷ []),
    quit_iff w (request_guest_shutdown ∷ wait_for_guest ∷ []),
  ),
)
