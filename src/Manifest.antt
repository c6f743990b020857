-- ===== src/Manifest.antt =====
-- internal/manifest: the resolved manifest, as far as its validation looks at it. A nil pointer is
-- `none`, and a map is a list in the order of sort.Strings.
pub mod Checked
pub mod Templates
pub mod Devices
pub mod Validate
pub mod Ports
pub mod Networks
mod Tests
mod NetworkTests
use virtle.Prelude.{String, Bool, List, Option}
use virtle.Prelude.Int.{ℤ}
use virtle.Balloon.Config.{BalloonDevice}
use virtle.Hotplug.Device.{HotplugDevice}

pub data WriteFileContentKind : Type 0 where
  content_none content_text content_path : WriteFileContentKind

pub record WriteFile : Type 0 where
  pub mode : String
  pub write_back : Bool
  pub kind : WriteFileContentKind
  pub path : String

pub record Run : Type 0 where
  pub exec : List String
  pub env : List String
  pub vars : List String

pub record Volume : Type 0 where
  pub image_path : String
  pub size : ℤ
  pub fs_type : String
  pub auto_create : Bool

pub record VirtioFsShare : Type 0 where
  pub socket_path : String
  pub transport : String

pub record BlockDevice : Type 0 where
  pub format : String
  pub transport : String

-- `QEMUDevices`; of a 9p share and of a network device the transport, and of a mount its block device.
pub record QemuDevices : Type 0 where
  pub rng_transport : String
  pub vsock_transport : String
  pub virtiofs : List VirtioFsShare
  pub nine_p_transports : List String
  pub block : List BlockDevice
  pub mounts : List (Option BlockDevice)
  pub network_transports : List String
  pub balloon : Option BalloonDevice

-- `QEMU`; `cpus` is `none` where it is not set.
pub record Qemu : Type 0 where
  pub binary_path : String
  pub memory_size : ℤ
  pub cpus : Option ℤ
  pub graphics_backend : String
  pub qmp_socket_path : String
  pub agent_socket_path : String
  pub command_timeout : ℤ
  pub shutdown_timeout : ℤ
  pub shutdown_exec : List String
  pub pcie_ports : ℤ
  pub devices : QemuDevices

pub record Manifest : Type 0 where
  pub host_name : String
  pub working_dir : String
  pub lock_path : String
  pub ssh_user : String
  pub retry_delay : ℤ
  pub qemu : Qemu
  pub volumes : List Volume
  pub cid_start : ℤ
  pub cid_end : ℤ
  pub write_files : List (String × WriteFile)
  pub run : List Run
  pub hotplug : List HotplugDevice
  pub cleanup_files : List String
