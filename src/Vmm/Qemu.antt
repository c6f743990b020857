-- ===== src/Vmm/Qemu.antt =====
-- The arguments of QEMU: what buildQEMUArgs of backend/qemu/internal/vmm/qemu.go reads of
-- internal/manifest/qemu.go, and the parts that the govmm library gives.
pub mod Devices
pub mod Args
pub mod Layout
use virtle.Prelude.{
  ℕ, suc, String, str_eq, Bool, true, false, ◌||◌, List, [], ◌∷◌, ◌++◌, Option, none, some,
  if◌then◌else◌,
}
use Prim.Native.String.{◌++◌ as str_append}
use virtle.Prelude.Int.{ℤ, pos, negsuc}
use virtle.Prelude.Decimal.{decimal}
use virtle.Prelude.Errors.{Error, Result, ok, err}

pub data Transport : Type 0 where
  pci mmio ccw : Transport

-- The parameters of a device and the names of drivers in govmm; the first argument is the machine's type.
pub record Govmm : Type 0 where
  pub rng : String → String → Transport → List String
  pub vhost_user_fs : String → String → String → String → Transport → List String
  pub vsock : String → String → ℤ → Transport → List String
  pub net_driver : Transport → String
  pub block_driver : Transport → String
  pub balloon_driver : Transport → String

pub record VirtioFsShare : Type 0 where
  pub id : String
  pub socket_path : String
  pub tag : String
  pub transport : String

pub record NinePShare : Type 0 where
  pub id : String
  pub source_path : String
  pub tag : String
  pub security_model : String
  pub read_only : Bool
  pub transport : String

pub record BlockDevice : Type 0 where
  pub id : String
  pub image_path : String
  pub format : String
  pub aio : String
  pub cache : String
  pub read_only : Bool
  pub serial : String
  pub transport : String

pub record MountDevice : Type 0 where
  pub kind : String
  pub virtiofs : Option VirtioFsShare
  pub nine_p : Option NinePShare
  pub block : Option BlockDevice

pub record NetDevice : Type 0 where
  pub id : String
  pub backend : String
  pub mac_address : String
  pub transport : String
  pub rom_file : String
  pub disable_rom : Bool
  pub netdev_options : List String
  pub mq_vectors : ℤ

-- The id and the transport of a device.
pub record SimpleDevice : Type 0 where
  pub id : String
  pub transport : String

pub record BalloonDevice : Type 0 where
  pub id : String
  pub transport : String
  pub deflate_on_oom : Bool
  pub free_page_reporting : Bool

-- `QEMU`, without what only other functions read.
pub record Qemu : Type 0 where
  pub name : String
  pub machine_type : String
  pub machine_options : List String
  pub cpu_model : String
  pub enable_kvm : Bool
  pub memory_size : ℤ
  pub memory_backend : String
  pub memory_shared : Bool
  pub kernel_path : String
  pub initrd_path : String
  pub kernel_params : String
  pub cpus : Option ℤ
  pub console : String
  pub no_defaults : Bool
  pub no_user_config : Bool
  pub no_reboot : Bool
  pub no_graphic : Bool
  pub seccomp_sandbox : Bool
  pub graphics_backend : String
  pub qmp_socket_path : String
  pub agent_socket_path : String
  pub ready_socket_path : String
  pub pcie_ports : ℤ
  pub rng : SimpleDevice
  pub i8042 : Bool
  pub balloon : Option BalloonDevice
  pub virtiofs : List VirtioFsShare
  pub nine_p : List NinePShare
  pub block : List BlockDevice
  pub mounts : List MountDevice
  pub network : List NetDevice
  pub vsock : SimpleDevice
  pub machine_id : String
  pub passthrough_args : List String

-- What fmt.Sprintf makes of texts and arguments in order.
abbrev pub texts : List String → String
texts [] = ""
texts (s ∷ ss) = str_append s (texts ss)

-- `strings.Join(ss, ",")`
unfoldable pub comma_join : List String → String
comma_join [] = ""
comma_join (s ∷ []) = s
comma_join (s ∷ t ∷ ss) = str_append s (str_append "," (comma_join (t ∷ ss)))

abbrev pub decimal_ℤ : ℤ → String
decimal_ℤ (pos n) = decimal n
decimal_ℤ (negsuc n) = str_append "-" (decimal (suc n))

-- `OnOff`
abbrev pub on_off : Bool → String
on_off b = if b then "on" else "off"

-- Arguments that there are under a condition.
abbrev pub when_set : Bool → List String → List String
when_set b args = if b then args else []

-- Arguments of one part and, if there was no error, those of the next ones.
abbrev pub and_args : Result (List String) → Result (List String) → Result (List String)
and_args (err e) next = err e
and_args (ok args) (err e) = err e
and_args (ok args) (ok more) = ok (args ++ more)

abbrev pub after_args : List String → Result (List String) → Result (List String)
after_args args next = and_args (ok args) next

-- The arguments of a loop over devices.
unfoldable pub args_of {ℓ} :
    {A : Type ℓ} → (A → Result (List String)) → List A → Result (List String)
args_of f [] = ok []
args_of f (d ∷ ds) = and_args (f d) (args_of f ds)
