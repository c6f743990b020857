-- ===== src/Hotplug/Device.antt =====
-- internal/manifest/hotplug_device.go and the plans of backend/qemu/internal/hotplug/hotplug.go: a
-- hotplug device, and the QMP commands that attach and release it. A command is its value, before
-- json.Marshal prints it.
use Prim.Native.String.{◌++◌ as append}
use virtle.Prelude.{String, Bool, false, List, [], ◌∷◌, str_eq, if◌then◌else◌}

mutual
  -- The values of Go's map[string]any that the plans build; the keys stand in source order.
  pub data Json : Type 0 where
    text : String → Json
    flag : Bool → Json
    texts : List String → Json
    object : Fields → Json

  pub data Fields : Type 0 where
    end : Fields
    field : String → Json → Fields → Fields

pub record QmpCommand : Type 0 where
  pub execute : String
  pub arguments : Fields

pub data HotplugKind : Type 0 where
  virtio_fs net block : HotplugKind
  -- Any other text; validation refuses it before a device gets here.
  other : String → HotplugKind

pub record HotplugVirtioFs : Type 0 where
  pub source : String
  pub target : String
  pub socket_path : String
  pub bin : String
  pub args : List String

pub record HotplugForward : Type 0 where
  pub proto : String
  pub host : String
  pub guest : String

pub record HotplugNet : Type 0 where
  pub backend : String
  pub mac : String
  pub forward : List HotplugForward

pub record HotplugBlock : Type 0 where
  pub image_path : String
  pub format : String
  pub read_only : Bool
  pub serial : String

pub record HotplugDevice : Type 0 where
  pub kind : HotplugKind
  pub id : String
  pub virtiofs : HotplugVirtioFs
  pub net : HotplugNet
  pub block : HotplugBlock

abbrev pub qemu_device_id : String → String
qemu_device_id id = append "dev-" id

abbrev pub char_id : String → String
char_id id = append "char-" id

abbrev pub netdev_id : String → String
netdev_id id = append "netdev-" id

abbrev pub block_node_id : String → String
block_node_id id = append "block-" id

pub record DevicePlan : Type 0 where
  pub backend : List QmpCommand
  pub device_add : QmpCommand
  pub release : List QmpCommand

abbrev command : String → Fields → QmpCommand
command execute arguments = record { execute = execute; arguments = arguments }

unfoldable pub virtio_fs_plan : HotplugDevice → String → DevicePlan
virtio_fs_plan device bus =
    let id = device.id in
    let path = device.virtiofs.socket_path in
    let addr =
      object
        (field "type" (text "unix") (field "data" (object (field "path" (text path) end)) end)) in
    let backend = object (
      field "type" (text "socket")
        (field "data" (object (field "addr" addr (field "server" (flag false) end))) end)) in
    record {
      backend =
          command "chardev-add" (field "id" (text (char_id id)) (field "backend" backend end)) ∷ [];
      device_add = command "device_add" (
          field "driver" (text "vhost-user-fs-pci") (
            field "id" (text (qemu_device_id id)) (
              field "chardev" (text (char_id id))
                (field "tag" (text id) (field "bus" (text bus) end)))));
      release = command "chardev-remove" (field "id" (text (char_id id)) end) ∷ [];
    }

hostfwd : HotplugForward → String
hostfwd f = append f.proto (append ":" (append f.host (append "-" f.guest)))

hostfwds : List HotplugForward → List String
hostfwds [] = []
hostfwds (f ∷ fs) = hostfwd f ∷ hostfwds fs

-- The key is left out for an empty list.
netdev_forward : List HotplugForward → Fields
netdev_forward [] = end
netdev_forward (f ∷ fs) = field "hostfwd" (texts (hostfwds (f ∷ fs))) end

unfoldable pub net_plan : HotplugDevice → String → DevicePlan
unfolding hostfwd hostfwds netdev_forward
net_plan device bus =
    let id = device.id in
    record {
      backend =
          command "netdev_add" (
            field "id" (text (netdev_id id))
              (field "type" (text "user") (netdev_forward device.net.forward)))
          ∷ [];
      device_add = command "device_add" (
          field "driver" (text "virtio-net-pci") (
            field "id" (text (qemu_device_id id)) (
              field "netdev" (text (netdev_id id))
                (field "mac" (text device.net.mac) (field "bus" (text bus) end)))));
      release = command "netdev_del" (field "id" (text (netdev_id id)) end) ∷ [];
    }

unfoldable pub block_plan : HotplugDevice → String → DevicePlan
block_plan device bus =
    let id = device.id in
    let file =
      object (field "driver" (text "file") (field "filename" (text device.block.image_path) end)) in
    let serial =
      if str_eq device.block.serial ""
      then end
      else field "serial" (text device.block.serial) end in
    record {
      backend =
          command "blockdev-add" (
            field "node-name" (text (block_node_id id)) (
              field "driver" (text device.block.format)
                (field "file" file (field "read-only" (flag device.block.read_only) end))))
          ∷ [];
      device_add = command "device_add" (
          field "driver" (text "virtio-blk-pci") (
            field "id" (text (qemu_device_id id))
              (field "drive" (text (block_node_id id)) (field "bus" (text bus) serial))));
      release = command "blockdev-del" (field "node-name" (text (block_node_id id)) end) ∷ [];
    }

-- The zero devicePlan; its device_add is the empty text.
abbrev no_plan : DevicePlan
no_plan = record { backend = []; device_add = command "" end; release = [] }

plan_of_kind : HotplugKind → HotplugDevice → String → DevicePlan
plan_of_kind virtio_fs device bus = virtio_fs_plan device bus
plan_of_kind net device bus = net_plan device bus
plan_of_kind block device bus = block_plan device bus
plan_of_kind (other k) device bus = no_plan

unfoldable pub plan_for : HotplugDevice → String → DevicePlan
unfolding plan_of_kind
plan_for device bus = plan_of_kind device.kind device bus
