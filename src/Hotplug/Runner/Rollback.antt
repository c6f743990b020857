-- ===== src/Hotplug/Runner/Rollback.antt =====
-- What `attach` of backend/qemu/internal/hotplug/hotplug.go leaves on its error paths: the registry
-- as it was, and no helper process that nobody stops.
use virtle.Prelude.{
  not, ◌&&◌, str_eq, ℕ, ◌≡◌, ◌≢◌, refl, ◌⊎◌, inl, inr, true, ◌∷◌, Option, none, some, arith,
  Option-cases, Bool-cases, ◌∙◌, sym,
}
use virtle.Prelude.Errors.{Error, Result, ok, err}
use virtle.Hotplug.Device.{HotplugDevice}
use virtle.Hotplug.Host.{Host, History, Process, start, stop, unstopped}
use virtle.Hotplug.Adapter.{attach_device}
use virtle.Hotplug.Adapter.Trace.{unstopped-attach_device, unstopped-detach_device}
use virtle.Hotplug.Registry.{Runtime, lookup, allocate_port, register}
use virtle.Hotplug.Runner.{
  is_virtio_fs, Outcome, bus_name, stop_helper, rollback_host, attach_host, start_helper,
  wait_helper, attach_guest, rollback_qmp, with_guest, with_qmp, with_port, with_host, attach_new,
  attach,
}

-- No process is left running that was not running before.
abbrev pub NoneLeft : History → History → Type 0
NoneLeft h h' = (p : Process) → unstopped p h' ≡ true → unstopped p h ≡ true

-- No process but the helper is left running.
abbrev pub OnlyLeft : Option Process → History → History → Type 0
OnlyLeft helper h h' =
    (p : Process) → unstopped p h' ≡ true → (helper ≡ some p) ⊎ (unstopped p h ≡ true)

-- The two results of an attach: an error with nothing left behind, or an attachment on a port that
-- was allocated.
pub data IsAttach (r : Runtime) (ports : ℕ) (device : HotplugDevice) (preferred : ℕ) (h : History)
    (o : Outcome) : Type 0 where
  refused :
      (e : Error) → o.1 ≡ some e → o.0 ≡ r → NoneLeft h o.2 → IsAttach r ports device preferred h o
  attached :
      (port : ℕ) (helper : Option Process)
      → o.1 ≡ none
      → lookup device.id r.attachments ≡ none
      → allocate_port r preferred ports ≡ some port
      → o.0 ≡ register r device port helper
      → OnlyLeft helper h o.2
      → IsAttach r ports device preferred h o

module _ (host : Host) (r : Runtime) (ports : ℕ) (device : HotplugDevice) (preferred : ℕ)
    (h : History) where
  -- A helper that was started can be stopped.
  abbrev Started : Option Process → Type 0
  Started helper = helper ≢ none → host.has_starter ≡ true

  rollback_host-NoneLeft :
      (helper : Option Process) (h' : History)
      → Started helper
      → OnlyLeft helper h h'
      → NoneLeft h (rollback_host host helper h')
  unfolding rollback_host unstopped
  rollback_host-NoneLeft none h' s only p u = ground (arith, only p)
  rollback_host-NoneLeft (some q) h' s only p u = ground (arith, only p, s)

  OnlyLeft-same :
      (helper : Option Process) (h1 h2 : History)
      → OnlyLeft helper h h1
      → ((p : Process) → unstopped p h2 ≡ unstopped p h1)
      → OnlyLeft helper h h2
  OnlyLeft-same helper h1 h2 only same p u = only p (sym (same p) ∙ u)

  with_guest-IsAttach :
      (helper : Option Process) (port : ℕ) (g : Option Error × History)
      → lookup device.id r.attachments ≡ none
      → allocate_port r preferred ports ≡ some port
      → Started helper
      → OnlyLeft helper h g.1
      → IsAttach r ports device preferred h (with_guest host r device helper port g)
  unfolding with_guest rollback_qmp
  with_guest-IsAttach helper port (some e, h') l a s only = refused e refl refl (
      rollback_host-NoneLeft helper _ s
        (OnlyLeft-same helper h' _ only (λ p. unstopped-detach_device host p device none h')))
  with_guest-IsAttach helper port (none, h') l a s only = attached port helper refl l a refl only

  guest_same :
      (h' : History) (p : Process) → unstopped p (attach_guest host device h').1 ≡ unstopped p h'
  unfolding attach_guest unstopped
  guest_same h' p = ground arith

  with_qmp-IsAttach :
      (helper : Option Process) (port : ℕ) (g : Option Error × History)
      → lookup device.id r.attachments ≡ none
      → allocate_port r preferred ports ≡ some port
      → Started helper
      → OnlyLeft helper h g.1
      → IsAttach r ports device preferred h (with_qmp host r device helper port g)
  unfolding with_qmp
  with_qmp-IsAttach helper port (some e, h') l a s only =
      refused e refl refl (rollback_host-NoneLeft helper h' s only)
  with_qmp-IsAttach helper port (none, h') l a s only =
      with_guest-IsAttach helper port (attach_guest host device h') l a s
        (OnlyLeft-same helper h' _ only (guest_same h'))

  with_port-IsAttach :
      (helper : Option Process) (port : Option ℕ) (h' : History)
      → lookup device.id r.attachments ≡ none
      → allocate_port r preferred ports ≡ port
      → Started helper
      → OnlyLeft helper h h'
      → IsAttach r ports device preferred h (with_port host r ports device helper port h')
  unfolding with_port
  with_port-IsAttach helper none h' l a s only =
      refused _ refl refl (rollback_host-NoneLeft helper h' s only)
  with_port-IsAttach helper (some port) h' l a s only =
      with_qmp-IsAttach helper port (attach_device host device (bus_name port) h') l a s (
        OnlyLeft-same helper h' _ only
          (λ p. unstopped-attach_device host p device (bus_name port) h'))

  -- The host side: a helper that is handed on, or none that is left.
  pub data IsHost (g : Result (Option Process) × History) : Type 0 where
    no_helper : (e : Error) → g.0 ≡ err e → NoneLeft h g.1 → IsHost g
    helper : (q : Option Process) → g.0 ≡ ok q → Started q → OnlyLeft q h g.1 → IsHost g

  started_only : (p : Process) → OnlyLeft (some p) h (start p ∷ h)
  unfolding unstopped
  started_only p q u = ground arith

  stopped_none : (p : Process) → NoneLeft h (stop p ∷ start p ∷ h)
  unfolding unstopped
  stopped_none p q u = ground arith

  wait-IsHost :
      (p : Process) → host.has_starter ≡ true → IsHost (wait_helper host device p (start p ∷ h))
  unfolding wait_helper stop_helper
  wait-IsHost p s =
      elim (Bool-cases (not (str_eq device.virtiofs.socket_path "") && host.has_sockets)) [
        | inr e ↦ rw e (helper (some p) refl (λ _. s) (started_only p))
        | inl e ↦ rw e (elim (Option-cases (host.wait_socket (start p ∷ h))) [
          | inl f ↦ helper (some p) (ground arith) (λ _. s) (λ q u. started_only p q (ground arith))
          | inr (x, f) ↦ no_helper x (ground arith) (λ q u. stopped_none p q (ground arith))
        ])
      ]

  start-IsHost : host.has_starter ≡ true → IsHost (start_helper host device h)
  unfolding start_helper
  start-IsHost s = by_start (host.start_process h) refl
    where
      by_start :
          (x : Result Process) → host.start_process h ≡ x → IsHost (start_helper host device h)
      by_start (err e) f = no_helper e (ground arith) (λ q u. ground arith)
      by_start (ok p) f = rw (f, start_helper) (wait-IsHost p s)

  attach_host-IsHost : IsHost (attach_host host device h)
  unfolding attach_host
  attach_host-IsHost = elim (Bool-cases (is_virtio_fs device.kind)) [
    | inr e ↦ rw e (helper none refl (λ n. absurd (n refl)) (λ p u. inr u))
    | inl e ↦ elim (Bool-cases host.has_starter) [
      | inl s ↦ simp (e, s) (start-IsHost s)
      | inr s ↦ simp (e, s) (no_helper _ refl (λ p u. u))
    ]
  ]

  with_host-IsAttach :
      (g : Result (Option Process) × History)
      → lookup device.id r.attachments ≡ none
      → IsHost g
      → IsAttach r ports device preferred h (with_host host r ports device preferred g)
  unfolding with_host
  with_host-IsAttach (err e, h') l (no_helper x f left) = refused e refl refl left
  with_host-IsAttach (err e, h') l (helper q f s only) = cc
  with_host-IsAttach (ok q, h') l (no_helper x f left) = cc
  with_host-IsAttach (ok q, h') l (helper q' f s only) =
      let e : q ≡ q' = cc in
      with_port-IsAttach q (allocate_port r preferred ports) h' l refl (rw e s) (rw e only)

  -- An attach fails, and then the registry is as it was and no helper that it started is left
  -- without being told to stop, or it succeeds: the id was not attached, and the device is
  -- registered on the port that was allocated, with the only helper that is left running.
  pub attach-IsAttach : IsAttach r ports device preferred h (attach host r ports device preferred h)
  unfolding attach attach_new
  attach-IsAttach = elim (Option-cases (lookup device.id r.attachments)) [
    | inr (a, l) ↦ rw l (refused _ refl refl (λ p u. u))
    | inl l ↦ rw l (with_host-IsAttach (attach_host host device h) l attach_host-IsHost)
  ]
