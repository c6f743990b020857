-- ===== src/Vmm/Qemu/Devices.antt =====
-- The arguments of one device in backend/qemu/internal/vmm/qemu.go, and AppendQEMUArgs of
-- backend/qemu/internal/balloon/feature.go.
use virtle.Prelude.{String, str_eq, not, List, [], ◌∷◌, ◌++◌, Option, none, some, if◌then◌else◌}
use Prim.Native.String.{◌++◌ as str_append}
use virtle.Prelude.Int.{ℤ, pos, ltb_ℤ}
use virtle.Prelude.Errors.{Error, Result, ok, err, errorf, str, end}
use virtle.Vmm.Qemu.{
  Transport, pci, mmio, ccw, Govmm, VirtioFsShare, NinePShare, BlockDevice, MountDevice, NetDevice,
  SimpleDevice, BalloonDevice, texts, comma_join, decimal_ℤ, on_off, when_set,
}

-- `resolveQEMUTransport`
unfoldable pub resolve_qemu_transport : String → Result Transport
resolve_qemu_transport value =
    if str_eq value "pci"
    then ok pci
    else if str_eq value "mmio"
    then ok mmio
    else if str_eq value "ccw"
    then ok ccw
    else err (errorf "unsupported qemu transport %q" (str value end))

abbrev pub with_transport : Result Transport → (Transport → List String) → Result (List String)
with_transport (err e) args = err e
with_transport (ok t) args = ok (args t)

-- `guestAgentSerialDriver`
unfoldable pub guest_agent_serial_driver : Transport → String
guest_agent_serial_driver pci = "virtio-serial-pci"
guest_agent_serial_driver mmio = "virtio-serial-device"
guest_agent_serial_driver ccw = "virtio-serial-ccw"

-- `ninePDriver`
unfoldable pub nine_p_driver : Transport → String
nine_p_driver pci = "virtio-9p-pci"
nine_p_driver mmio = "virtio-9p-device"
nine_p_driver ccw = "virtio-9p-ccw"

-- `appendVirtioSerialSocket`
unfoldable pub virtio_serial_socket :
    String → String → String → String → String → Result (List String)
virtio_serial_socket transport path chardev serial port =
    with_transport (resolve_qemu_transport transport) (λ t.
      "-chardev"
      ∷ texts ("socket,path=" ∷ path ∷ ",server=on,wait=off,id=" ∷ chardev ∷ [])
      ∷ "-device"
      ∷ texts (guest_agent_serial_driver t ∷ ",id=" ∷ serial ∷ [])
      ∷ "-device"
      ∷ texts ("virtserialport,chardev=" ∷ chardev ∷ ",name=" ∷ port ∷ [])
      ∷ [])

-- `appendNinePArgs`
unfoldable pub nine_p_args : NinePShare → Result (List String)
nine_p_args share = with_transport (resolve_qemu_transport share.transport) (λ t.
    "-fsdev"
    ∷ comma_join (
        "local"
        ∷ texts ("id=" ∷ share.id ∷ [])
        ∷ texts ("path=" ∷ share.source_path ∷ [])
        ∷ texts ("security_model=" ∷ share.security_model ∷ [])
        ∷ texts ("readonly=" ∷ on_off share.read_only ∷ [])
        ∷ [])
    ∷ "-device"
    ∷ comma_join (
        nine_p_driver t
        ∷ texts ("fsdev=" ∷ share.id ∷ [])
        ∷ texts ("mount_tag=" ∷ share.tag ∷ [])
        ∷ [])
    ∷ [])

-- `qemuGraphicsArgs`
unfoldable pub graphics_args : String → Result (List String)
graphics_args backend =
    let input = "-device" ∷ "qemu-xhci" ∷ "-device" ∷ "usb-tablet" ∷ "-device" ∷ "usb-kbd" ∷ [] in
    if str_eq backend "gtk"
    then ok ("-display" ∷ "gtk,gl=off" ∷ "-device" ∷ "virtio-vga" ∷ input)
    else if str_eq backend "cocoa"
    then ok ("-display" ∷ "cocoa" ∷ "-device" ∷ "virtio-gpu" ∷ input)
    else err (errorf "unsupported qemu graphics backend %q" (str backend end))

abbrev missing : String → String → Error
missing format kind = errorf format (str kind end)

module _ (govmm : Govmm) (machine : String) where
  -- `appendVirtioFSArgs`
  unfoldable pub virtio_fs_args : VirtioFsShare → Result (List String)
  virtio_fs_args share =
      with_transport (resolve_qemu_transport share.transport)
        (govmm.vhost_user_fs machine share.socket_path (str_append "char-" share.id) share.tag)

  drive_params : BlockDevice → List String
  drive_params b =
      (texts ("id=" ∷ b.id ∷ [])
        ∷ texts ("format=" ∷ (if str_eq b.format "" then "raw" else b.format) ∷ [])
        ∷ texts ("file=" ∷ b.image_path ∷ [])
        ∷ "if=none"
        ∷ [])
      ++ (when_set (not (str_eq b.aio "")) (texts ("aio=" ∷ b.aio ∷ []) ∷ [])
          ++ ("discard=unmap"
              ∷ (when_set (not (str_eq b.cache "")) (texts ("cache=" ∷ b.cache ∷ []) ∷ [])
                  ++ (texts ("read-only=" ∷ on_off b.read_only ∷ []) ∷ []))))

  -- `appendBlockArgs`
  unfoldable pub block_args : BlockDevice → Result (List String)
  unfolding drive_params
  block_args b = with_transport (resolve_qemu_transport b.transport) (λ t.
      "-drive"
      ∷ comma_join (drive_params b)
      ∷ "-device"
      ∷ comma_join (
          govmm.block_driver t
          ∷ texts ("drive=" ∷ b.id ∷ [])
          ∷ when_set (not (str_eq b.serial "")) (texts ("serial=" ∷ b.serial ∷ []) ∷ []))
      ∷ [])

  mount_or : String → String → Option (Result (List String)) → Result (List String)
  mount_or format kind none = err (missing format kind)
  mount_or format kind (some args) = args

  of_some : {A : Type 0} → (A → Result (List String)) → Option A → Option (Result (List String))
  of_some f none = none
  of_some f (some a) = some (f a)

  -- `appendQEMUMountArgs`
  unfoldable pub mount_args : MountDevice → Result (List String)
  unfolding mount_or of_some
  mount_args m =
      if str_eq m.kind "virtiofs"
      then mount_or "qemu mount %q missing virtiofs device" m.kind
          (of_some virtio_fs_args m.virtiofs)
      else if str_eq m.kind "9p"
      then mount_or "qemu mount %q missing 9p device" m.kind (of_some nine_p_args m.nine_p)
      else if str_eq m.kind "image"
      then mount_or "qemu mount %q missing block device" m.kind (of_some block_args m.block)
      else err (missing "unsupported qemu mount type %q" m.kind)

  rom_params : NetDevice → List String
  rom_params n =
      if n.disable_rom
      then "romfile=" ∷ []
      else when_set (not (str_eq n.rom_file "")) (texts ("romfile=" ∷ n.rom_file ∷ []) ∷ [])

  -- The body of the loop over the network devices.
  unfoldable pub network_args : NetDevice → Result (List String)
  unfolding rom_params
  network_args n = with_transport (resolve_qemu_transport n.transport) (λ t.
      "-netdev"
      ∷ comma_join (n.backend ∷ texts ("id=" ∷ n.id ∷ []) ∷ n.netdev_options)
      ∷ "-device"
      ∷ comma_join (
          govmm.net_driver t
          ∷ texts ("netdev=" ∷ n.id ∷ [])
          ∷ texts ("mac=" ∷ n.mac_address ∷ [])
          ∷ (rom_params n
              ++ when_set (ltb_ℤ (pos 0) n.mq_vectors)
                  ("mq=on" ∷ texts ("vectors=" ∷ decimal_ℤ n.mq_vectors ∷ []) ∷ [])))
      ∷ [])

  -- `balloon.AppendQEMUArgs`
  unfoldable pub balloon_args : Option BalloonDevice → Result (List String)
  balloon_args none = ok []
  balloon_args (some d) = with_transport (resolve_qemu_transport d.transport) (λ t.
      "-device"
      ∷ comma_join (
          govmm.balloon_driver t
          ∷ texts ("id=" ∷ d.id ∷ [])
          ∷ texts ("deflate-on-oom=" ∷ on_off d.deflate_on_oom ∷ [])
          ∷ texts ("free-page-reporting=" ∷ on_off d.free_page_reporting ∷ [])
          ∷ [])
      ∷ [])

  -- The vsock device, where there is one.
  unfoldable pub vsock_args : SimpleDevice → ℤ → Result (List String)
  vsock_args d cid =
      if str_eq d.id ""
      then ok []
      else with_transport (resolve_qemu_transport d.transport) (govmm.vsock machine d.id cid)
