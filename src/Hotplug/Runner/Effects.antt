-- ===== src/Hotplug/Runner/Effects.antt =====
-- What attaching and detaching do to the registry of backend/qemu/internal/hotplug.
use virtle.Prelude.{
  ℕ, ◌≡◌, ◌≢◌, ◌⊎◌, inl, inr, String, Option, none, some, arith, if◌then◌else◌, eq_iff, str_eq, ◌∷◌,
  false,
}
use virtle.Prelude.Errors.{Error}
use virtle.Hotplug.Device.{HotplugDevice}
use virtle.Hotplug.Host.{remove_file, Host, History, Process}
use virtle.Hotplug.Adapter.{detach_device}
use virtle.Hotplug.Registry.{Attachment, Runtime, lookup, remove, helper_exited, new_runtime}
use virtle.Hotplug.Registry.Ports.{allocate_sound}
use virtle.Hotplug.Registry.Attachments.{
  PortsOk, nil, register-PortsOk, remove-PortsOk, helper_exited-PortsOk, lookup-register,
  lookup-remove,
}
use virtle.Hotplug.Runner.{
  is_virtio_fs, Outcome, has_guest_mount, attach, detach_guest, detach_host, detach,
  detach_attached, with_unmounted, with_released, finish_detach,
}
use virtle.Hotplug.Runner.Rollback.{IsAttach, attach-IsAttach, refused, attached}

module _ (host : Host) where
  pub attach-PortsOk :
      (r : Runtime) (ports : ℕ) (device : HotplugDevice) (preferred : ℕ) (h : History)
      → PortsOk ports r.attachments
      → PortsOk ports (attach host r ports device preferred h).0.attachments
  attach-PortsOk r ports device preferred h ok_ports =
      by_result (attach-IsAttach host r ports device preferred h)
    where
      by_result :
          IsAttach r ports device preferred h (attach host r ports device preferred h)
          → PortsOk ports (attach host r ports device preferred h).0.attachments
      by_result (refused e f same left) = rw same ok_ports
      by_result (attached port helper f l a reg only) =
          let (lt, free) = allocate_sound r preferred ports a in
          rw reg (register-PortsOk r ports device port helper ok_ports lt free)

  -- A detach either leaves the registry alone or removes the id.
  detach_registry :
      (r : Runtime) (id : String) (h : History)
      → ((detach host r id h).0 ≡ r) ⊎ ((detach host r id h).0 ≡ remove r id)
  unfolding detach detach_attached with_unmounted with_released finish_detach
  detach_registry r id h = ground arith

  pub detach-PortsOk :
      (r : Runtime) (ports : ℕ) (id : String) (h : History)
      → PortsOk ports r.attachments
      → PortsOk ports (detach host r id h).0.attachments
  detach-PortsOk r ports id h ok_ports = elim (detach_registry r id h) [
    | inl e ↦ rw e ok_ports
    | inr e ↦ rw e (remove-PortsOk r ports id ok_ports)
  ]

  -- The unmount and the QMP side of a detach, as they are called.
  abbrev pub unmounted : Attachment → History → Option Error × History
  unmounted a h = detach_guest host a.device h

  abbrev pub released : Attachment → History → Option Error × History
  released a h =
      let h' = (unmounted a h).1 in
      detach_device host a.device (if has_guest_mount a.device then none else host.ctx_err h') h'

  -- The last that was done is to remove the socket of a virtiofs device that names one.
  unfoldable pub HasNoSocket : HotplugDevice → History → Type 0
  HasNoSocket d h =
      (is_virtio_fs d.kind ≡ false)
      ⊎ ((d.virtiofs.socket_path ≡ "")
          ⊎ ((before : History) × (h ≡ remove_file d.virtiofs.socket_path ∷ before)))

  -- The results of a detach, by what the guest, QEMU and the host answer.
  pub data IsDetach (r : Runtime) (id : String) (h : History) (o : Outcome) : Type 0 where
    unknown : lookup id r.attachments ≡ none → o.0 ≡ r → o.1 ≢ none → o.2 ≡ h → IsDetach r id h o
    kept :
        (a : Attachment) (e : Error)
        → lookup id r.attachments ≡ some a
        → ((unmounted a h).0 ≡ some e) ⊎ (((unmounted a h).0 ≡ none) × ((released a h).0 ≡ some e))
        → o.0 ≡ r
        → o.1 ≡ some e
        → IsDetach r id h o
    freed :
        (a : Attachment)
        → lookup id r.attachments ≡ some a
        → (unmounted a h).0 ≡ none
        → (released a h).0 ≡ none
        → ((j : String)
            → lookup j o.0.attachments ≡ (if str_eq id j then none else lookup j r.attachments))
        → o.1 ≡ (detach_host host a (released a h).1).0
        → HasNoSocket a.device o.2
        → IsDetach r id h o

  detach_done :
      (r : Runtime) (id : String) (h : History)
      → (detach host r id h).1 ≡ none
      → (detach host r id h).0 ≡ remove r id
  unfolding detach detach_attached with_unmounted with_released finish_detach
  detach_done r id h e = ground arith

  -- If an attach and then a detach of the same id succeed, every id is attached as it was before.
  pub detach-attach :
      (r : Runtime) (ports : ℕ) (device : HotplugDevice) (preferred : ℕ) (h h' : History)
      → (attach host r ports device preferred h).1 ≡ none
      → (detach host (attach host r ports device preferred h).0 device.id h').1 ≡ none
      → (j : String)
      → lookup j (detach host (attach host r ports device preferred h).0 device.id h').0.attachments
        ≡ lookup j r.attachments
  detach-attach r ports device preferred h h' e d j =
      by_result (attach-IsAttach host r ports device preferred h)
    where
      r' : Runtime
      r' = (attach host r ports device preferred h).0

      by_result :
          IsAttach r ports device preferred h (attach host r ports device preferred h)
          → lookup j (detach host r' device.id h').0.attachments ≡ lookup j r.attachments
      by_result (refused x f same left) = cc
      by_result (attached port helper f l a reg only) =
          rw (detach_done r' device.id h' d, lookup-remove, reg, lookup-register)
            (ground (arith, eq_iff device.id j))

-- One event in the life of the registry: a call of the Runner, or the exit of a helper.
pub data Step (host : Host) (ports : ℕ) (r : Runtime) : Runtime → Type 0 where
  attaching :
      (device : HotplugDevice) (preferred : ℕ) (h : History)
      → Step host ports r (attach host r ports device preferred h).0
  detaching : (id : String) (h : History) → Step host ports r (detach host r id h).0
  exiting : (id : String) (ref : ℕ) (p : Process) → Step host ports r (helper_exited r id ref p)

pub data Reach (ports : ℕ) : Runtime → Type 0 where
  new : Reach ports new_runtime
  next : {r s : Runtime} → Reach ports r → (host : Host) → Step host ports r s → Reach ports s

Step-PortsOk :
    (host : Host) (ports : ℕ) (r : Runtime) {s : Runtime}
    → Step host ports r s
    → PortsOk ports r.attachments
    → PortsOk ports s.attachments
Step-PortsOk host ports r (attaching device preferred h) k =
    attach-PortsOk host r ports device preferred h k
Step-PortsOk host ports r (detaching id h) k = detach-PortsOk host r ports id h k
Step-PortsOk host ports r (exiting id ref p) k = helper_exited-PortsOk r ports id ref p k

-- Whatever is attached, detached or exits, in any order: no two attachments share a port, and every
-- port is one of the reserved ones.
pub Reach-PortsOk : (ports : ℕ) {r : Runtime} → Reach ports r → PortsOk ports r.attachments
Reach-PortsOk ports new = nil
Reach-PortsOk ports (next {r = r} reach host step) =
    Step-PortsOk host ports r step (Reach-PortsOk ports reach)
