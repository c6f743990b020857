-- ===== src/Vmm/QemuTests.antt =====
-- The theorem on the arguments of QEMU at a concrete input.
use virtle.Vmm.Qemu.Devices.{
  resolve_qemu_transport, virtio_serial_socket, balloon_args, block_args, network_args, vsock_args,
}
use virtle.Prelude.{◌++◌, ◌⊎◌, ◌≤◌, String, true, false, ◌≡◌, refl, List, [], ◌∷◌, some}
use virtle.Prelude.Int.{pos}
use virtle.Prelude.Errors.{Result, ok, err}
use virtle.Vmm.Qemu.{args_of, Govmm, Qemu}
use virtle.Vmm.Qemu.Args.{memory_args, build_qemu_args, device_args}
use virtle.Vmm.Qemu.Layout.{HasPort, expected_end, build_qemu_args_layout}

-- A library that names devices and drivers only.
abbrev govmm : Govmm
govmm = record {
  rng = λ machine id t. "-device" ∷ "virtio-rng-pci" ∷ [];
  vhost_user_fs = λ machine path chardev tag t. "-device" ∷ "vhost-user-fs-pci" ∷ [];
  vsock = λ machine id cid t. "-device" ∷ "vhost-vsock-pci" ∷ [];
  net_driver = λ t. "virtio-net-pci";
  block_driver = λ t. "virtio-blk-pci";
  balloon_driver = λ t. "virtio-balloon-pci";
}

-- A machine with a disk, a network, two ports for hotplug and an argument of its own.
abbrev config : Qemu
config = record {
  name = "box";
  machine_type = "q35";
  machine_options = "accel=kvm" ∷ [];
  cpu_model = "host";
  enable_kvm = true;
  memory_size = pos 512;
  memory_backend = "memfd";
  memory_shared = true;
  kernel_path = "/boot/bzImage";
  initrd_path = "/boot/initrd";
  kernel_params = "quiet";
  cpus = some (pos 2);
  console = "print";
  no_defaults = true;
  no_user_config = true;
  no_reboot = true;
  no_graphic = true;
  seccomp_sandbox = true;
  graphics_backend = "";
  qmp_socket_path = "/run/qmp.sock";
  agent_socket_path = "/run/qga.sock";
  ready_socket_path = "";
  pcie_ports = pos 2;
  rng = record { id = "rng0"; transport = "pci" };
  i8042 = false;
  balloon = some (record {
    id = "balloon0";
    transport = "pci";
    deflate_on_oom = true;
    free_page_reporting = true;
  });
  virtiofs = [];
  nine_p = [];
  block =
      record {
        id = "vda";
        image_path = "/var/disk.img";
        format = "";
        aio = "io_uring";
        cache = "";
        read_only = false;
        serial = "root";
        transport = "pci";
      }
      ∷ [];
  mounts = [];
  network =
      record {
        id = "net0";
        backend = "user";
        mac_address = "02:02:00:00:00:01";
        transport = "pci";
        rom_file = "";
        disable_rom = true;
        netdev_options = [];
        mq_vectors = pos 6;
      }
      ∷ [];
  vsock = record { id = "vsock0"; transport = "pci" };
  machine_id = "";
  passthrough_args = "-snapshot" ∷ [];
}

abbrev args_or_none : Result (List String) → List String
args_or_none (ok args) = args
args_or_none (err e) = []

abbrev built : List String
built = args_or_none (build_qemu_args govmm (pos 8) config (pos 3) true)

is_built : build_qemu_args govmm (pos 8) config (pos 3) true ≡ ok built
unfolding build_qemu_args device_args args_of resolve_qemu_transport virtio_serial_socket
    memory_args balloon_args block_args network_args vsock_args
is_built = refl

build_qemu_args_layout_example :
    ((2 ≤ 1) ⊎ HasPort 1 built)
    × ((shared : List String) × (built ≡ shared ++ expected_end true ("-snapshot" ∷ []))
        × (build_qemu_args govmm (pos 8) config (pos 3) false
            ≡ ok (shared ++ expected_end false ("-snapshot" ∷ []))))
build_qemu_args_layout_example =
    build_qemu_args_layout govmm (pos 8) config (pos 3) true built 1 is_built
