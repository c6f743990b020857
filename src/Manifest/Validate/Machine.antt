-- ===== src/Manifest/Validate/Machine.antt =====
-- What the devices of QEMU and the balloon have that pass the validation (`Validate`).
use virtle.Prelude.{
  ℕ, String, true, false, not, ◌&&◌, ◌≡◌, ◌≢◌, ◌⊎◌, [], ◌∷◌, Option, none, some, eq_iff, All, arith,
}
use virtle.Prelude.Int.{ℤ}
use virtle.Balloon.Config.{
  BalloonControllerConfig, BalloonDevice, valid_qemu_transport, validate_balloon_device,
  validate_balloon_controller,
}
use virtle.Balloon.Defaults.{IsValidController, validate_iff}
use virtle.Manifest.{QemuDevices, VirtioFsShare, BlockDevice}
use virtle.Manifest.Checked.{passed, each, each-passed, in_order-passed, from_error}
use virtle.Manifest.Devices.{
  valid_image_format, validate_share, validate_transport, validate_block, validate_mount,
}
use virtle.Manifest.Devices.Runs.{filled}
use virtle.Manifest.Validate.{devices, empty}

-- A virtio transport of QEMU.
abbrev pub IsTransport : String → Type 0
IsTransport t = (t ≡ "pci") ⊎ (t ≡ "mmio") ⊎ (t ≡ "ccw")

pub transport_lem : (t : String) → valid_qemu_transport t ≡ true → IsTransport t
unfolding valid_qemu_transport
transport_lem t e = ground (arith, eq_iff t "pci", eq_iff t "mmio", eq_iff t "ccw")

abbrev pub IsFormat : String → Type 0
IsFormat f = (f ≡ "") ⊎ (f ≡ "raw") ⊎ (f ≡ "qcow2")

format_lem : (f : String) → (not (empty f) && not (valid_image_format f)) ≡ false → IsFormat f
unfolding valid_image_format
format_lem f e = ground (arith, eq_iff f "", eq_iff f "raw", eq_iff f "qcow2")

-- The devices of QEMU.
abbrev pub IsShare : VirtioFsShare → Type 0
IsShare s = (s.socket_path ≢ "") × IsTransport s.transport

share_lem : (i : ℕ) (s : VirtioFsShare) → validate_share i s ≡ passed → IsShare s
share_lem i s e = (filled s.socket_path (ground arith), transport_lem s.transport (ground arith))

transports_lem :
    (format : String) (i : ℕ) (t : String) → validate_transport format i t ≡ passed → IsTransport t
transports_lem format i t e = transport_lem t (ground arith)

abbrev pub IsBlock : BlockDevice → Type 0
IsBlock b = IsTransport b.transport × IsFormat b.format

block_lem : (i : ℕ) (b : BlockDevice) → validate_block i b ≡ passed → IsBlock b
block_lem i b e = (transport_lem b.transport (ground arith), format_lem b.format (ground arith))

abbrev pub IsMount : Option BlockDevice → Type 0
IsMount none = Unit
IsMount (some b) = IsFormat b.format

mount_lem : (i : ℕ) (b : Option BlockDevice) → validate_mount i b ≡ passed → IsMount b
mount_lem i none e = tt
mount_lem i (some b) e = format_lem b.format (ground arith)

abbrev pub HasDevices : QemuDevices → Type 0
HasDevices d =
    All IsShare d.virtiofs
    × All IsTransport d.nine_p_transports
    × All IsBlock d.block
    × All IsMount d.mounts
    × All IsTransport d.network_transports

pub devices_lem : (d : QemuDevices) → devices d ≡ passed → HasDevices d
unfolding devices
devices_lem d e =
    let nine_p : String =
      "manifest.qemu.devices.9p[%d].transport must be one of pci, mmio, or ccw" in
    let network : String =
      "manifest.qemu.devices.network[%d].transport must be one of pci, mmio, or ccw" in
    let (a, (b, (c, (f, (g, last))))) =
      in_order-passed
        (each validate_share 0 d.virtiofs
          ∷ each (validate_transport nine_p) 0 d.nine_p_transports
          ∷ each validate_block 0 d.block
          ∷ each validate_mount 0 d.mounts
          ∷ each (validate_transport network) 0 d.network_transports
          ∷ [])
        e in
    (
      each-passed IsShare validate_share share_lem 0 d.virtiofs a,
      each-passed IsTransport (validate_transport nine_p) (transports_lem nine_p) 0
          d.nine_p_transports b,
      each-passed IsBlock validate_block block_lem 0 d.block c,
      each-passed IsMount validate_mount mount_lem 0 d.mounts f,
      each-passed IsTransport (validate_transport network) (transports_lem network) 0
          d.network_transports g,
    )

-- The balloon: its transport and the bounds of its controller.
abbrev pub HasController : ℤ → Option BalloonControllerConfig → Type 0
HasController memory none = Unit
HasController memory (some c) = IsValidController memory c

abbrev pub HasBalloon : ℤ → Option BalloonDevice → Type 0
HasBalloon memory none = Unit
HasBalloon memory (some b) = IsTransport b.transport × HasController memory b.controller

controller_lem :
    (memory : ℤ) (c : Option BalloonControllerConfig)
    → validate_balloon_controller memory c ≡ none
    → HasController memory c
controller_lem memory none e = tt
controller_lem memory (some c) e = (validate_iff memory c).0 e

pub balloon_lem :
    (memory : ℤ) (b : Option BalloonDevice)
    → from_error (validate_balloon_device memory b) ≡ passed
    → HasBalloon memory b
unfolding validate_balloon_device
balloon_lem memory none e = tt
balloon_lem memory (some b) e =
    (transport_lem b.transport (ground arith), controller_lem memory b.controller (ground arith))
