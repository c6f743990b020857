-- ===== src/Hotplug/Tests.antt =====
-- The hotplug theorems at concrete inputs.
use virtle.Prelude.{◌≢◌, if◌then◌else◌, ◌≡◌, refl, true, false, [], ◌∷◌, none, some, str_eq, ◌⊎◌}
use virtle.Prelude.Decimal.{decimal}
use virtle.Prelude.Errors.{Error, ok, plain}
use virtle.Hotplug.Device.{
  HotplugDevice, virtio_fs, net, plan_for, QmpCommand, text, field, end, qemu_device_id, net_plan,
  virtio_fs_plan,
}
use virtle.Hotplug.Host.{Host, run_raw, device_del}
use virtle.Hotplug.Adapter.{attach_device, detach_device, raw, release_all}
use virtle.Hotplug.Adapter.Trace.{
  FailedAttach, FailedDetach, attach_device-FailedAttach, detach_device-FailedDetach,
}
use virtle.Hotplug.Registry.{
  Runtime, new_runtime, lookup, occupied, allocate_port, register, remove, delete,
}
use virtle.Hotplug.Registry.Attachments.{PortsOk}
use virtle.Hotplug.Runner.{
  attach, attach_host, attach_guest, detach, detach_guest, detach_host, bus_name,
}
use virtle.Hotplug.Runner.Rollback.{IsAttach, attach-IsAttach}
use virtle.Hotplug.Runner.Effects.{detach-attach, attaching, new, next, Reach-PortsOk}

abbrev workspace : HotplugDevice
workspace = record {
  kind = virtio_fs;
  id = "ws";
  virtiofs = record {
    source = "/src";
    target = "/mnt";
    socket_path = "/run/ws.sock";
    bin = "virtiofsd";
    args = [];
  };
  net = record { backend = "user"; mac = ""; forward = [] };
  block = record { image_path = ""; format = ""; read_only = false; serial = "" };
}

-- All calls succeed; processes are numbered by 7.
abbrev willing : Host
willing = record {
  has_starter = true;
  has_sockets = true;
  start_process = λ h. ok 7;
  wait_socket = λ h. none;
  stop_process = λ h p. none;
  run = λ h c. none;
  delete_device = λ h id. none;
  run_guest = λ h argv. none;
  ctx_err = λ h. none;
}

abbrev refusal : Error
refusal = plain "device_add refused"

-- QEMU refuses the device itself.
abbrev refusing : Host
refusing = record willing {
  run = λ h c. if str_eq c.execute "device_add" then some refusal else none;
}

abbrev first : Runtime
first = (attach willing new_runtime 2 workspace 0 []).0

attach_runs : (attach willing new_runtime 2 workspace 0 []).1 ≡ none
unfolding attach lookup attach_host allocate_port occupied attach_device raw release_all plan_for
    attach_guest virtio_fs_plan bus_name decimal
attach_runs = refl

attach-IsAttach_example :
    IsAttach new_runtime 2 workspace 0 [] (attach refusing new_runtime 2 workspace 0 [])
attach-IsAttach_example = attach-IsAttach refusing new_runtime 2 workspace 0 []

detach_runs : (detach willing first "ws" []).1 ≡ none
unfolding attach lookup attach_host allocate_port occupied attach_device raw release_all plan_for
    attach_guest virtio_fs_plan bus_name decimal register delete detach detach_guest detach_device
    detach_host remove
detach_runs = refl

detach-attach_example : lookup "ws" (detach willing first "ws" []).0.attachments ≡ none
unfolding lookup
detach-attach_example =
    detach-attach willing new_runtime 2 workspace 0 [] [] attach_runs detach_runs "ws"

Reach-PortsOk_example : PortsOk 2 first.attachments
Reach-PortsOk_example = Reach-PortsOk 2 (next new willing (attaching workspace 0 []))

abbrev nic : HotplugDevice
nic = record workspace { kind = net; id = "n1" }

abbrev netdev_add : QmpCommand
netdev_add = record {
  execute = "netdev_add";
  arguments = field "id" (text "netdev-n1") (field "type" (text "user") end);
}

abbrev netdev_del : QmpCommand
netdev_del = record { execute = "netdev_del"; arguments = field "id" (text "netdev-n1") end }

attach_device-FailedAttach_example :
    FailedAttach netdev_add netdev_del
      (plan_for nic "pcie.hotplug.0").device_add
      []
      (attach_device refusing nic "pcie.hotplug.0" []).1
unfolding plan_for net_plan attach_device raw
attach_device-FailedAttach_example =
    attach_device-FailedAttach refusing nic "pcie.hotplug.0" netdev_add netdev_del [] {x = refusal}
      refl refl refl

detach_device-FailedDetach_example :
    ((detach_device willing nic none []).0 ≡ none)
      × ((detach_device willing nic none []).1
          ≡ run_raw netdev_del true ∷ device_del (qemu_device_id "n1") true ∷ [])
    ⊎ (((detach_device willing nic none []).0 ≢ none)
        × FailedDetach netdev_del (qemu_device_id "n1") [] (detach_device willing nic none []).1)
unfolding plan_for net_plan
detach_device-FailedDetach_example = detach_device-FailedDetach willing nic none netdev_del [] refl
