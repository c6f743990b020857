-- ===== src/Manifest/Validate.antt =====
-- `applyDefaults` and `Validate` of internal/manifest/validate.go.
pub mod Machine
pub mod Sound
use virtle.Prelude.{
  ℕ, String, Bool, true, false, not, ◌&&◌, ◌||◌, List, [], ◌∷◌, Option, none, some, str_eq, length,
  map, if◌then◌else◌,
}
use virtle.Prelude.Int.{ℤ, pos, leb_ℤ, ltb_ℤ, eq_ℤ}
use virtle.Prelude.Errors.{Error, plain, errorf, num, end}
use virtle.Balloon.Config.{
  valid_qemu_transport, apply_balloon_defaults, validate_balloon_device, or_default,
}
use virtle.Manifest.{Manifest, Qemu, QemuDevices, Volume, Run}
use virtle.Manifest.Checked.{
  Checked, passed, refused, refuse_if, in_order, each, from_error, followed,
}
use virtle.Manifest.Templates.{Node}
use virtle.Manifest.Devices.{
  validate_hotplugs, validate_run, validate_write_files, validate_volume, validate_share,
  validate_transport, validate_block, validate_mount, default_volume_fs_type,
}

abbrev pub default_vsock_cid_start : ℤ
default_vsock_cid_start = pos 3

abbrev pub default_vsock_cid_end : ℤ
default_vsock_cid_end = pos 65535

default_volume : Volume → Volume
default_volume v = if str_eq v.fs_type "" then record v { fs_type = default_volume_fs_type } else v

default_devices : ℤ → QemuDevices → QemuDevices
default_devices memory_size d = record d { balloon = apply_balloon_defaults memory_size d.balloon }

-- `applyDefaults` of a manifest that is not nil
unfoldable pub apply_defaults : Manifest → Manifest
unfolding default_volume default_devices
apply_defaults m = record m {
  cid_start = or_default m.cid_start default_vsock_cid_start;
  cid_end = or_default m.cid_end default_vsock_cid_end;
  volumes = map default_volume m.volumes;
  qemu = record m.qemu { devices = default_devices m.qemu.memory_size m.qemu.devices };
}

abbrev empty : String → Bool
empty s = str_eq s ""

abbrev is_set {ℓ} : {A : Type ℓ} → List A → Bool
is_set [] = false
is_set (x ∷ xs) = true

-- `CPUs.Set && CPUs.Value <= 0`
abbrev no_cpus : Option ℤ → Bool
no_cpus none = false
no_cpus (some n) = leb_ℤ n (pos 0)

-- `len(exec) > 0 && exec[0] == ""`
abbrev empty_program : List String → Bool
empty_program [] = false
empty_program (a ∷ args) = str_eq a ""

valid_graphics_backend : String → Bool
valid_graphics_backend backend = str_eq backend "gtk" || str_eq backend "cocoa"

-- The required values of the switch of `Validate`.
required : Manifest → Checked
required m = in_order (
    refuse_if (empty m.host_name) (plain "manifest.identity.hostName is required")
    ∷ refuse_if (empty m.working_dir) (plain "manifest.paths.workingDir is required")
    ∷ refuse_if (empty m.lock_path) (plain "manifest.paths.lockPath is required")
    ∷ refuse_if (empty m.ssh_user) (plain "manifest.ssh.user is required")
    ∷ refuse_if (leb_ℤ m.retry_delay (pos 0)) (
        plain
          "manifest.ssh.retryDelay must be greater than zero; omit manifest.ssh.retry_delay for the 500ms default")
    ∷ refuse_if (leb_ℤ m.qemu.memory_size (pos 0))
        (plain "manifest.qemu.memory.sizeMiB must be greater than zero")
    ∷ refuse_if (no_cpus m.qemu.cpus)
        (plain "manifest.qemu.smp.cpus must be greater than zero when set")
    ∷ refuse_if (empty m.qemu.binary_path) (plain "manifest.qemu.binaryPath is required")
    ∷ refuse_if (empty m.qemu.qmp_socket_path) (plain "manifest.qemu.qmp.socketPath is required")
    ∷ [])

-- Its tests of the guest agent.
agent : Manifest → Checked
agent m = in_order (
    refuse_if (ltb_ℤ m.qemu.command_timeout (pos 0))
      (plain "manifest.qemu.guestAgent.commandTimeout must be greater than or equal to zero")
    ∷ refuse_if (ltb_ℤ m.qemu.shutdown_timeout (pos 0))
        (plain "manifest.qemu.guestAgent.shutdownTimeout must be greater than or equal to zero")
    ∷ refuse_if (empty_program m.qemu.shutdown_exec)
        (plain "manifest.qemu.guestAgent.shutdownExec[0] is required")
    ∷ refuse_if (is_set m.qemu.shutdown_exec && empty m.qemu.agent_socket_path)
        (plain "manifest.qemu.guestAgent.socketPath is required when shutdown_exec is set")
    ∷ refuse_if (is_set m.write_files && empty m.qemu.agent_socket_path)
        (plain "manifest.qemu.guestAgent.socketPath is required when manifest.writeFiles is set")
    ∷ [])

-- Its tests of the vsock and of the transports, and the test of the graphics after it.
vsock : Manifest → Checked
unfolding valid_graphics_backend
vsock m = in_order (
    refuse_if (ltb_ℤ m.cid_start default_vsock_cid_start)
      (errorf "manifest.vsock.cidRange.start must be at least %d" (num default_vsock_cid_start end))
    ∷ refuse_if (ltb_ℤ m.cid_end m.cid_start)
        (plain "manifest.vsock.cidRange.end must be greater than or equal to start")
    ∷ refuse_if (not (valid_qemu_transport m.qemu.devices.rng_transport))
        (plain "manifest.qemu.devices.rng.transport must be one of pci, mmio, or ccw")
    ∷ refuse_if (not (valid_qemu_transport m.qemu.devices.vsock_transport))
        (plain "manifest.qemu.devices.vsock.transport must be one of pci, mmio, or ccw")
    ∷ refuse_if
        (not (empty m.qemu.graphics_backend)
          && not (valid_graphics_backend m.qemu.graphics_backend))
        (plain "manifest.qemu.graphics.backend must be one of gtk or cocoa")
    ∷ [])

-- The ports for hotplug devices.
ports : Manifest → Checked
ports m = in_order (
    refuse_if (ltb_ℤ m.qemu.pcie_ports (pos 0))
      (plain "manifest.qemu.hotplug.pciePorts must be greater than or equal to zero")
    ∷ refuse_if (ltb_ℤ m.qemu.pcie_ports (pos (length m.hotplug)))
        (plain "manifest.qemu.hotplug.pciePorts must be at least manifest.hotplug length")
    ∷ refuse_if (ltb_ℤ (pos 0) m.qemu.pcie_ports && not (str_eq m.qemu.devices.rng_transport "pci"))
        (plain "manifest.qemu.hotplug.pciePorts requires pci transport")
    ∷ [])

-- The loops over the devices of QEMU.
pub devices : QemuDevices → Checked
devices d = in_order (
    each validate_share 0 d.virtiofs
    ∷ each
        (validate_transport
          "manifest.qemu.devices.9p[%d].transport must be one of pci, mmio, or ccw")
        0 d.nine_p_transports
    ∷ each validate_block 0 d.block
    ∷ each validate_mount 0 d.mounts
    ∷ each
        (validate_transport
          "manifest.qemu.devices.network[%d].transport must be one of pci, mmio, or ccw")
        0 d.network_transports
    ∷ [])

cleanup_file : ℕ → String → Checked
cleanup_file i path =
    refuse_if (str_eq path "")
      (errorf "manifest.cleanupFiles[%d] must not be empty" (num (pos i) end))

module _ (parse : String → Option Node) (renderer_error : Run → Option Error) where
  -- `Validate` after its defaults.
  unfoldable pub validate_defaulted : Manifest → Checked
  unfolding required agent vsock ports devices cleanup_file
  validate_defaulted m = in_order (
      required m
      ∷ agent m
      ∷ vsock m
      ∷ each (validate_run parse renderer_error) 0 m.run
      ∷ ports m
      ∷ validate_hotplugs m.hotplug
      ∷ each cleanup_file 0 m.cleanup_files
      ∷ devices m.qemu.devices
      ∷ from_error (validate_balloon_device m.qemu.memory_size m.qemu.devices.balloon)
      ∷ validate_write_files m.write_files
      ∷ each validate_volume 0 m.volumes
      ∷ [])

  -- `Validate`: what it comes to, and the manifest with its defaults.
  unfoldable pub validate : Option Manifest → Checked × Option Manifest
  validate none = (refused (plain "manifest is nil"), none)
  validate (some m) = (validate_defaulted (apply_defaults m), some (apply_defaults m))
