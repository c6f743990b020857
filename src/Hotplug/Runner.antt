-- ===== src/Hotplug/Runner.antt =====
-- backend/qemu/internal/hotplug/hotplug.go: the Runner's attach and detach, over the QMP adapter.
-- Each stage hands its result to the next; the registry and the history are passed along. The lock
-- of the registry makes each call one step.
pub mod Rollback
pub mod Effects
use Prim.Native.String.{◌++◌ as append}
use virtle.Prelude.{
  ℕ, suc, ◌+◌, ◌==◌, String, Bool, true, false, not, ◌&&◌, List, [], ◌∷◌, Option, none, some,
  str_eq, length, if◌then◌else◌,
}
use virtle.Prelude.Int.{pos}
use virtle.Prelude.Decimal.{decimal}
use virtle.Prelude.Errors.{Error, errorf, str, num, end, plain, Result, ok, err}
use virtle.Hotplug.Device.{HotplugDevice, HotplugKind, virtio_fs}
use virtle.Hotplug.Host.{
  Host, History, Event, Process, start, stop, guest_run, remove_file, succeeded,
}
use virtle.Hotplug.Adapter.{attach_device, detach_device}
use virtle.Hotplug.Registry.{Attachment, Runtime, lookup, allocate_port, register, remove}

abbrev pub Outcome : Type 0
Outcome = Runtime × Option Error × History

abbrev is_virtio_fs : HotplugKind → Bool
is_virtio_fs virtio_fs = true
is_virtio_fs _ = false

-- `BusName`
unfoldable pub bus_name : ℕ → String
bus_name index = append "pcie.hotplug." (decimal index)

find_from : ℕ → String → List HotplugDevice → Option (HotplugDevice × ℕ)
find_from i id [] = none
find_from i id (d ∷ ds) = if str_eq d.id id then some (d, i) else find_from (i + 1) id ds

-- `r.find`: `none` is its error.
unfoldable pub find : String → List HotplugDevice → Option (HotplugDevice × ℕ)
unfolding find_from
find id devices = find_from 0 id devices

-- A virtiofs device that is to be mounted in the guest.
abbrev pub has_guest_mount : HotplugDevice → Bool
has_guest_mount device = is_virtio_fs device.kind && not (str_eq device.virtiofs.target "")

module _ (host : Host) where
  -- `r.Start.Stop`
  unfoldable pub stop_helper : Process → History → Option Error × History
  stop_helper p h = (host.stop_process h p, stop p ∷ h)

  -- `rollbackHost`
  unfoldable pub rollback_host : Option Process → History → History
  unfolding stop_helper
  rollback_host none h = h
  rollback_host (some p) h = if host.has_starter then (stop_helper p h).1 else h

  wait_helper : HotplugDevice → Process → History → Result (Option Process) × History
  wait_helper device p h =
      if not (str_eq device.virtiofs.socket_path "") && host.has_sockets
      then elim (host.wait_socket h) [
        | some e ↦ (err e, (stop_helper p h).1)
        | none ↦ (ok (some p), h)
      ]
      else (ok (some p), h)

  start_helper : HotplugDevice → History → Result (Option Process) × History
  start_helper device h = elim (host.start_process h) [
    | err e ↦ (err e, h)
    | ok p ↦ wait_helper device p (start p ∷ h)
  ]

  -- `attachVirtioFSHost`, for the devices that want it.
  unfoldable pub attach_host : HotplugDevice → History → Result (Option Process) × History
  unfolding start_helper wait_helper stop_helper
  attach_host device h =
      if is_virtio_fs device.kind
      then (if host.has_starter
          then start_helper device h
          else (err (plain "hotplug process starter is not configured"), h))
      else (ok none, h)

  run_guest : List String → History → Option Error × History
  run_guest argv h = let e = host.run_guest h argv in (e, guest_run argv (succeeded e) ∷ h)

  unfoldable pub attach_guest : HotplugDevice → History → Option Error × History
  unfolding run_guest
  attach_guest device h =
      if has_guest_mount device
      then run_guest ("mount" ∷ "-t" ∷ "virtiofs" ∷ device.id ∷ device.virtiofs.target ∷ []) h
      else (none, h)

  unfoldable pub detach_guest : HotplugDevice → History → Option Error × History
  unfolding run_guest
  detach_guest device h =
      if has_guest_mount device
      then run_guest ("umount" ∷ device.virtiofs.target ∷ []) h
      else (none, h)

  -- The function that AttachDevice returns: it detaches the device under no context.
  rollback_qmp : HotplugDevice → History → History
  rollback_qmp device h = (detach_device host device none h).1

  with_guest : Runtime → HotplugDevice → Option Process → ℕ → Option Error × History → Outcome
  with_guest r device helper port (some e, h) =
      (r, some e, rollback_host helper (rollback_qmp device h))
  with_guest r device helper port (none, h) = (register r device port helper, none, h)

  with_qmp : Runtime → HotplugDevice → Option Process → ℕ → Option Error × History → Outcome
  with_qmp r device helper port (some e, h) = (r, some e, rollback_host helper h)
  with_qmp r device helper port (none, h) = with_guest r device helper port (attach_guest device h)

  no_port : ℕ → Error
  no_port ports =
      if ports == 0
      then plain "no PCIe hotplug ports are reserved"
      else errorf "all %d PCIe hotplug ports are occupied" (num (pos ports) end)

  with_port : Runtime → ℕ → HotplugDevice → Option Process → Option ℕ → History → Outcome
  with_port r ports device helper none h = (r, some (no_port ports), rollback_host helper h)
  with_port r ports device helper (some port) h =
      with_qmp r device helper port (attach_device host device (bus_name port) h)

  with_host : Runtime → ℕ → HotplugDevice → ℕ → Result (Option Process) × History → Outcome
  with_host r ports device preferred (err e, h) = (r, some e, h)
  with_host r ports device preferred (ok helper, h) =
      with_port r ports device helper (allocate_port r preferred ports) h

  attach_new : Runtime → ℕ → HotplugDevice → ℕ → Option Attachment → History → Outcome
  attach_new r ports device preferred (some a) h =
      (r, some (errorf "hotplug %q is already attached" (str device.id end)), h)
  attach_new r ports device preferred none h =
      with_host r ports device preferred (attach_host device h)

  -- `r.attach`
  unfoldable pub attach : Runtime → ℕ → HotplugDevice → ℕ → History → Outcome
  unfolding attach_new with_host with_port no_port with_qmp with_guest rollback_qmp
  attach r ports device preferred h =
      attach_new r ports device preferred (lookup device.id r.attachments) h

  attach_found : Runtime → ℕ → String → Option (HotplugDevice × ℕ) → History → Outcome
  attach_found r ports id none h =
      (r, some (errorf "manifest.hotplug id %q not found" (str id end)), h)
  attach_found r ports id (some (device, index)) h = attach r ports device index h

  -- `r.Attach`, and `r.AttachDevice` for a device that is not in the manifest.
  unfoldable pub attach_by_id : Runtime → ℕ → List HotplugDevice → String → History → Outcome
  unfolding attach_found
  attach_by_id r ports devices id h = attach_found r ports id (find id devices) h

  unfoldable pub attach_ad_hoc :
      Runtime → ℕ → List HotplugDevice → HotplugDevice → History → Outcome
  attach_ad_hoc r ports devices device h = attach r ports device (length devices) h

  -- What is left of the host side once QEMU has let the device go: its error is reported.
  stop_host : HotplugDevice → Option Process → History → Option Error × History
  stop_host device none h = (none, h)
  stop_host device (some p) h = stop_helper p h

  remove_socket : HotplugDevice → Option Error × History → Option Error × History
  remove_socket device (e, h) =
      if str_eq device.virtiofs.socket_path ""
      then (e, h)
      else (e, remove_file device.virtiofs.socket_path ∷ h)

  unfoldable pub detach_host : Attachment → History → Option Error × History
  unfolding stop_host remove_socket stop_helper
  detach_host a h =
      if is_virtio_fs a.device.kind
      then remove_socket a.device (stop_host a.device a.helper h)
      else (none, h)

  finish_detach : Runtime → String → Option Error × History → Outcome
  finish_detach r id (e, h) = (remove r id, e, h)

  with_released : Runtime → String → Attachment → Option Error × History → Outcome
  with_released r id a (some e, h) = (r, some e, h)
  with_released r id a (none, h) = finish_detach r id (detach_host a h)

  with_unmounted : Runtime → String → Attachment → Option Error × History → Outcome
  with_unmounted r id a (some e, h) = (r, some e, h)
  with_unmounted r id a (none, h) =
      with_released r id a
        (detach_device host a.device (if has_guest_mount a.device then none else host.ctx_err h) h)

  detach_attached : Runtime → String → Option Attachment → History → Outcome
  detach_attached r id none h = (r, some (errorf "hotplug %q is not attached" (str id end)), h)
  detach_attached r id (some a) h = with_unmounted r id a (detach_guest a.device h)

  -- `r.detach`
  unfoldable pub detach : Runtime → String → History → Outcome
  unfolding detach_attached with_unmounted with_released finish_detach
  detach r id h = detach_attached r id (lookup id r.attachments) h
