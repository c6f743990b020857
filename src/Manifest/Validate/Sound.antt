-- ===== src/Manifest/Validate/Sound.antt =====
-- What a manifest that passes its validation has (`Validate`).
use virtle.Prelude.{none, String, true, false, ◌≡◌, ◌≢◌, ◌⊎◌, Option, some, length, All}
use virtle.Prelude.Int.{pos, ◌≤ℤ◌, ◌<ℤ◌}
use virtle.Manifest.Devices.{is_file_mode, is_none_kind, validate_volume, is_abs, is_path_kind}
use virtle.Manifest.Devices.Hotplug.{Distinct, IsDevice}
use virtle.Manifest.{ℤ, Volume, WriteFile, Manifest, Run}
use virtle.Manifest.Templates.{Node}
use virtle.Manifest.Devices.Runs.{HasProgram, IsRun}
use virtle.Manifest.Validate.Machine.{IsTransport, HasDevices, HasBalloon}
use virtle.Manifest.Validate.{devices, Error, validate_volume, is_set}

-- The range of vsock CIDs lies within what the host leaves to guests, the transports are known, and so
-- are the graphics if there are any.
HasRange : Manifest → Type 0
HasRange m =
    (pos 3 ≤ℤ m.cid_start)
    × (m.cid_start ≤ℤ m.cid_end)
    × IsTransport m.qemu.devices.rng_transport
    × IsTransport m.qemu.devices.vsock_transport
    × ((m.qemu.graphics_backend ≡ "")
        ⊎ (m.qemu.graphics_backend ≡ "gtk")
        ⊎ (m.qemu.graphics_backend ≡ "cocoa"))

-- There is a port for each hotplug device, on a bus that has such ports.
HasPorts : Manifest → Type 0
HasPorts m =
    (pos 0 ≤ℤ m.qemu.pcie_ports)
    × (pos (length m.hotplug) ≤ℤ m.qemu.pcie_ports)
    × ((m.qemu.pcie_ports ≤ℤ pos 0) ⊎ (m.qemu.devices.rng_transport ≡ "pci"))

abbrev pub HasCpus : Option ℤ → Type 0
HasCpus none = Unit
HasCpus (some n) = pos 0 <ℤ n

-- What a manifest names, and a number of processors if it is set.
HasRequired : Manifest → Type 0
HasRequired m =
    (m.host_name ≢ "")
    × (m.working_dir ≢ "")
    × (m.lock_path ≢ "")
    × (m.ssh_user ≢ "")
    × (pos 0 <ℤ m.retry_delay)
    × (pos 0 <ℤ m.qemu.memory_size)
    × HasCpus m.qemu.cpus
    × (m.qemu.binary_path ≢ "")
    × (m.qemu.qmp_socket_path ≢ "")

-- The guest agent's timeouts, the command that shuts the guest down, and what the agent is needed for.
HasAgent : Manifest → Type 0
HasAgent m =
    (pos 0 ≤ℤ m.qemu.command_timeout)
    × (pos 0 ≤ℤ m.qemu.shutdown_timeout)
    × HasProgram m.qemu.shutdown_exec
    × ((is_set m.qemu.shutdown_exec ≡ false) ⊎ (m.qemu.agent_socket_path ≢ ""))
    × ((is_set m.write_files ≡ false) ⊎ (m.qemu.agent_socket_path ≢ ""))

-- A volume that is created has a place, a size and the one file system.
IsVolume : Volume → Type 0
IsVolume v =
    (v.auto_create ≡ false) ⊎ ((v.image_path ≢ "") × (pos 256 ≤ℤ v.size) × (v.fs_type ≡ "ext4"))

-- A file to write has an absolute path, a content and a mode that is a mode if it is given, and one that
-- is written back has a file on the host.
IsFile : String × WriteFile → Type 0
IsFile (path, f) =
    (is_abs path ≡ true)
    × ((is_path_kind f.kind ≡ false) ⊎ (f.path ≢ ""))
    × ((f.write_back ≡ false) ⊎ (is_path_kind f.kind ≡ true))
    × (is_none_kind f.kind ≡ false)
    × ((f.mode ≡ "") ⊎ (is_file_mode f.mode ≡ true))

module _ (parse : String → Option Node) (renderer_error : Run → Option Error) where
  -- What the validation checks, without its tests.
  unfoldable pub IsValid : Manifest → Type 0
  unfolding HasRequired HasAgent HasRange HasPorts IsFile IsVolume
  IsValid m =
      HasRequired m
      × HasAgent m
      × HasRange m
      × HasPorts m
      × Distinct m.hotplug
      × All IsDevice m.hotplug
      × All IsFile m.write_files
      × All IsVolume m.volumes
      × All (IsRun parse renderer_error) m.run
      × All (λ path. path ≢ "") m.cleanup_files
      × HasDevices m.qemu.devices
      × HasBalloon m.qemu.memory_size m.qemu.devices.balloon
