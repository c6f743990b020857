-- ===== src/Vmm/Qemu/Args.antt =====
-- `buildQEMUArgs` of backend/qemu/internal/vmm/qemu.go. The number of processors of the host is a
-- parameter.
use virtle.Prelude.{
  ℕ, zero, suc, String, str_eq, not, ◌||◌, Bool, List, [], ◌∷◌, ◌++◌, Option, none, some,
  if◌then◌else◌,
}
use Prim.Native.String.{◌++◌ as str_append}
use virtle.Prelude.Int.{ℤ, pos, pos_part, ltb_ℤ}
use virtle.Prelude.Decimal.{decimal}
use virtle.Prelude.Errors.{Result, ok, err, errorf, str, end}
use virtle.Hotplug.Runner.{bus_name}
use virtle.Vmm.Qemu.{
  Govmm, Qemu, texts, comma_join, decimal_ℤ, on_off, when_set, and_args, after_args, args_of,
}
use virtle.Vmm.Qemu.Devices.{
  resolve_qemu_transport, with_transport, virtio_serial_socket, nine_p_args, graphics_args,
  virtio_fs_args, block_args, mount_args, network_args, balloon_args, vsock_args,
}

-- `Enabled` and `Interactive` of QEMUConsole
abbrev interactive : String → Bool
interactive console = str_eq console "console"

abbrev enabled : String → Bool
enabled console = str_eq console "print" || interactive console

-- `qemuCPUCount`
unfoldable pub qemu_cpu_count : ℤ → Option ℤ → ℤ
qemu_cpu_count num_cpu none = if ltb_ℤ num_cpu (pos 1) then pos 1 else num_cpu
qemu_cpu_count num_cpu (some cpus) = cpus

machine_arg : Qemu → List String → String
machine_arg q [] = q.machine_type
machine_arg q (o ∷ os) = str_append q.machine_type (str_append "," (comma_join (o ∷ os)))

-- Up to the number of processors.
unfoldable pub front_args : ℤ → Qemu → List String
unfolding machine_arg
front_args num_cpu q =
    "-name"
    ∷ q.name
    ∷ "-M"
    ∷ machine_arg q q.machine_options
    ∷ "-m"
    ∷ decimal_ℤ q.memory_size
    ∷ "-smp"
    ∷ decimal_ℤ (qemu_cpu_count num_cpu q.cpus)
    ∷ []

-- The port for hotplug with this index, whose id is the bus of a device that is attached to it.
unfoldable pub root_port : ℕ → String
root_port i = texts (
    "pcie-root-port,id="
    ∷ bus_name i
    ∷ ",bus=pcie.0,chassis="
    ∷ decimal (suc i)
    ∷ ",slot="
    ∷ decimal (suc i)
    ∷ [])

-- The loop over the ports, with how many are left.
unfoldable pub root_ports : ℕ → ℕ → List String
root_ports i zero = []
root_ports i (suc left) = "-device" ∷ root_port i ∷ root_ports (suc i) left

knob_args : Qemu → List String
knob_args q =
    when_set q.no_defaults ("-nodefaults" ∷ [])
    ++ (when_set q.no_user_config ("-no-user-config" ∷ [])
        ++ (when_set q.no_reboot ("-no-reboot" ∷ [])
            ++ ("-kernel"
                ∷ q.kernel_path
                ∷ "-initrd"
                ∷ q.initrd_path
                ∷ when_set (enabled q.console) (
                    "-chardev"
                    ∷ (if interactive q.console
                        then "stdio,id=stdio,mux=on,signal=off"
                        else "stdio,id=stdio,signal=off")
                    ∷ []))))

cpu_args : Qemu → List String
cpu_args q =
    when_set (not (str_eq q.machine_id ""))
      ("-smbios" ∷ texts ("type=1,uuid=" ∷ q.machine_id ∷ []) ∷ [])
    ++ (when_set (enabled q.console) ("-serial" ∷ "chardev:stdio" ∷ [])
        ++ (when_set q.enable_kvm ("-enable-kvm" ∷ [])
            ++ ("-cpu"
                ∷ q.cpu_model
                ∷ (when_set (not (str_eq q.kernel_params "")) ("-append" ∷ q.kernel_params ∷ [])
                    ++ when_set q.i8042 ("-device" ∷ "i8042" ∷ [])))))

display_args : Qemu → Result (List String)
display_args q =
    if q.no_graphic
    then ok ("-nographic" ∷ [])
    else if not (str_eq q.graphics_backend "")
    then graphics_args q.graphics_backend
    else ok []

socket_args : Qemu → List String
socket_args q =
    when_set q.seccomp_sandbox ("-sandbox" ∷ "on" ∷ [])
    ++ ("-qmp" ∷ texts ("unix:" ∷ q.qmp_socket_path ∷ ",server,nowait" ∷ []) ∷ [])

serial_args : Qemu → String → String → String → String → Result (List String)
serial_args q path chardev serial port =
    if str_eq path ""
    then ok []
    else virtio_serial_socket q.vsock.transport path chardev serial port

-- The memory's backend.
unfoldable pub memory_args : Qemu → Result (List String)
memory_args q =
    if str_eq q.memory_backend "" || str_eq q.memory_backend "default"
    then ok []
    else if str_eq q.memory_backend "memfd"
    then ok (
        "-numa"
        ∷ "node,memdev=mem"
        ∷ "-object"
        ∷ texts (
            "memory-backend-memfd,id=mem,size="
            ∷ decimal_ℤ q.memory_size
            ∷ "M,share="
            ∷ on_off q.memory_shared
            ∷ [])
        ∷ [])
    else err (errorf "unsupported qemu memory backend %q" (str q.memory_backend end))

-- What a machine is given to migrate from, and the manifest's own arguments.
unfoldable pub last_args : Bool → Qemu → List String
last_args incoming q = when_set incoming ("-incoming" ∷ "defer" ∷ []) ++ q.passthrough_args

module _ (govmm : Govmm) (num_cpu : ℤ) where
  -- The shares and disks, which the mounts replace if there are any.
  storage_args : Qemu → Result (List String)
  storage_args q = elim q.mounts [
    | [] ↦ and_args (args_of (virtio_fs_args govmm q.machine_type) q.virtiofs) (
        and_args (args_of nine_p_args q.nine_p) (args_of (block_args govmm q.machine_type) q.block))
    | m ∷ ms ↦ args_of (mount_args govmm q.machine_type) (m ∷ ms)
  ]

  -- From the knobs to the vsock device.
  unfoldable pub device_args : Qemu → ℤ → Result (List String)
  unfolding knob_args cpu_args display_args socket_args serial_args storage_args
  device_args q cid =
      args_of (λ a. a)
        (ok (knob_args q)
          ∷ with_transport (resolve_qemu_transport q.rng.transport)
              (govmm.rng q.machine_type q.rng.id)
          ∷ ok (cpu_args q)
          ∷ display_args q
          ∷ ok (socket_args q)
          ∷ serial_args q q.agent_socket_path "qga0" "qga0-serial" "org.qemu.guest_agent.0"
          ∷ serial_args q q.ready_socket_path "ready_char" "ready-serial" "virtle.ready"
          ∷ memory_args q
          ∷ balloon_args govmm q.machine_type q.balloon
          ∷ storage_args q
          ∷ args_of (network_args govmm q.machine_type) q.network
          ∷ vsock_args govmm q.machine_type q.vsock cid
          ∷ [])

  -- `buildQEMUArgs`
  unfoldable pub build_qemu_args : Qemu → ℤ → Bool → Result (List String)
  unfolding front_args
  build_qemu_args q cid incoming = after_args (front_args num_cpu q) (
      after_args (root_ports 0 (pos_part q.pcie_ports))
        (and_args (device_args q cid) (ok (last_args incoming q))))
