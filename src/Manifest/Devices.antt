-- ===== src/Manifest/Devices.antt =====
-- The parts of `Validate` in internal/manifest/validate.go: hotplug devices, runs, files to write,
-- devices and volumes. What text/template makes of a text (`parse`, `none` where it is refused) and the
-- error of NewTemplateRenderer for a run are parameters.
pub mod Hotplug
pub mod Runs
use virtle.Prelude.{
  ℕ, suc, ◌≤◌, String, Bool, true, false, not, ◌&&◌, ◌||◌, List, [], ◌∷◌, Option, none, some,
  str_eq, leb, ◌==◌, contains, if◌then◌else◌,
}
use Prim.Native.String.{len, char_at, ◌++◌ as str_append}
use Prim.Native.Char.{Char, code}
use virtle.Prelude.Int.{ℤ, pos, leb_ℤ, ltb_ℤ}
use virtle.Prelude.Decimal.{decimal}
use virtle.Prelude.Errors.{Error, plain, errorf, wrapf, str, num, end}
use virtle.Balloon.Config.{valid_qemu_transport}
use virtle.Hotplug.Device.{HotplugDevice, HotplugKind, virtio_fs, net, block, other}
use virtle.Manifest.{
  WriteFile, WriteFileContentKind, content_none, content_text, content_path, Run, Volume,
  VirtioFsShare, BlockDevice,
}
use virtle.Manifest.Checked.{
  Checked, passed, refused, panicked, followed, refuse_if, in_order, each, from_error,
}
use virtle.Manifest.Templates.{Node, template_uses_bare_workspace}

-- `validImageFormat`
unfoldable pub valid_image_format : String → Bool
valid_image_format format = str_eq format "raw" || str_eq format "qcow2"

abbrev pub named : String → String → Error
named format prefix = errorf format (str prefix end)

-- The switch of `validateHotplug`.
validate_kind : String → HotplugDevice → HotplugKind → Checked
validate_kind prefix d virtio_fs = in_order (
    refuse_if (str_eq d.virtiofs.source "") (named "%s.virtiofs.source is required" prefix)
    ∷ refuse_if (str_eq d.virtiofs.socket_path "") (named "%s.virtiofs.socket is required" prefix)
    ∷ refuse_if (str_eq d.virtiofs.bin "") (named "%s.virtiofs.bin is required" prefix)
    ∷ [])
validate_kind prefix d net = in_order (
    refuse_if (not (str_eq d.net.backend "user")) (named "%s.net.backend must be user" prefix)
    ∷ refuse_if (str_eq d.net.mac "") (named "%s.net.mac is required" prefix)
    ∷ [])
validate_kind prefix d block = in_order (
    refuse_if (str_eq d.block.image_path "") (named "%s.block.image is required" prefix)
    ∷ refuse_if (not (valid_image_format d.block.format))
        (named "%s.block.format must be raw or qcow2" prefix)
    ∷ [])
validate_kind prefix d (other kind) = refused (named "%s.kind is required" prefix)

-- `validateHotplug`
unfoldable pub validate_hotplug : String → HotplugDevice → Checked
unfolding validate_kind
validate_hotplug prefix d = in_order (
    refuse_if (str_eq d.id "") (named "%s.id is required" prefix)
    ∷ refuse_if (contains d.id "/" || contains d.id "\\")
        (named "%s.id must not contain path separators" prefix)
    ∷ validate_kind prefix d d.kind
    ∷ [])

-- `hotplugIDs[id]`, where the latest entry of an id comes first.
lookup : List (String × ℕ) → String → Option ℕ
lookup [] id = none
lookup ((id', i) ∷ seen) id = let later = lookup seen id in if str_eq id' id then some i else later

unless_seen : ℕ → HotplugDevice → Option ℕ → Checked
unless_seen i d none = passed
unless_seen i d (some previous) = refused (
    errorf "manifest.hotplug[%d].id duplicates manifest.hotplug[%d].id %q"
      (num (pos i) (num (pos previous) (str d.id end))))

abbrev hotplug_prefix : ℕ → String
hotplug_prefix i = str_append "manifest.hotplug[" (str_append (decimal i) "]")

-- The loop over `m.Hotplug`, with the ids that it has seen.
hotplug_loop : List (String × ℕ) → ℕ → List HotplugDevice → Checked
unfolding lookup unless_seen
hotplug_loop seen i [] = passed
hotplug_loop seen i (d ∷ ds) =
    followed (validate_hotplug (hotplug_prefix i) d)
      (followed (unless_seen i d (lookup seen d.id)) (hotplug_loop ((d.id, i) ∷ seen) (suc i) ds))

unfoldable pub validate_hotplugs : List HotplugDevice → Checked
unfolding hotplug_loop
validate_hotplugs ds = hotplug_loop [] 0 ds

module _ (parse : String → Option Node) (renderer_error : Run → Option Error) where
  bare : ℕ → String → ℕ → Option Bool → Checked
  bare index field i none = panicked
  bare index field i (some false) = passed
  bare index field i (some true) = refused (
      errorf
        "manifest.run[%d].%s[%d] uses {{.Workspace}}; use {{.Workspace.GuestPath}} or {{.Workspace.HostPath}}"
        (num (pos index) (str field (num (pos i) end))))

  parsed : ℕ → String → ℕ → Option Node → Checked
  unfolding bare
  parsed index field i none = passed
  parsed index field i (some root) = bare index field i (template_uses_bare_workspace root)

  -- `validateRunTemplates`
  unfoldable pub validate_run_templates : ℕ → String → List String → Checked
  unfolding parsed
  validate_run_templates index field values =
      each (λ i value. parsed index field i (parse value)) 0 values

  is_reserved : String → Bool
  is_reserved key =
      str_eq key "CID" || str_eq key "StateDir" || str_eq key "Workspace" || str_eq key "Env"

  validate_exec : ℕ → List String → Checked
  validate_exec index [] =
      refused (errorf "manifest.run[%d].exec is required" (num (pos index) end))
  validate_exec index (a ∷ args) =
      refuse_if (str_eq a "") (errorf "manifest.run[%d].exec[0] is required" (num (pos index) end))

  wrap_vars : ℕ → Option Error → Checked
  wrap_vars index none = passed
  wrap_vars index (some e) = refused (wrapf "manifest.run[%d].vars: %w" (num (pos index) end) e)

  -- `validateRun`
  unfoldable pub validate_run : ℕ → Run → Checked
  unfolding validate_exec is_reserved wrap_vars
  validate_run index run = in_order (
      validate_exec index run.exec
      ∷ validate_run_templates index "exec" run.exec
      ∷ validate_run_templates index "env" run.env
      ∷ each
          (λ i key.
            refuse_if (is_reserved key)
              (errorf "manifest.run[%d].vars key %q is reserved" (num (pos index) (str key end))))
          0 run.vars
      ∷ wrap_vars index (renderer_error run)
      ∷ [])

abbrev is_octal : Char → Bool
is_octal c = leb 48 (code c) && leb (code c) 55

-- `filepath.IsAbs` on Linux, and the pattern ^0?[0-7]{3}$.
abbrev pub is_abs : String → Bool
is_abs path = code (char_at path 0) == 47

octal_from : String → ℕ → Bool
octal_from s i =
    is_octal (char_at s i) && (is_octal (char_at s (suc i)) && is_octal (char_at s (suc (suc i))))

unfoldable pub is_file_mode : String → Bool
unfolding octal_from
is_file_mode s =
    (len s == 3 && octal_from s 0) || (len s == 4 && (code (char_at s 0) == 48 && octal_from s 1))

abbrev pub is_path_kind : WriteFileContentKind → Bool
is_path_kind content_none = false
is_path_kind content_text = false
is_path_kind content_path = true

abbrev pub is_none_kind : WriteFileContentKind → Bool
is_none_kind content_none = true
is_none_kind content_text = false
is_none_kind content_path = false

-- The switch of `validateWriteFiles`; its case for a kind that is none of the three cannot arise.
unfoldable pub validate_write_file : ℕ → String × WriteFile → Checked
validate_write_file i (path, f) = in_order (
    refuse_if (str_eq path "") (plain "manifest.writeFiles contains an empty guest path")
    ∷ refuse_if (not (is_abs path))
        (named "manifest.writeFiles[%q] guest path must be absolute" path)
    ∷ refuse_if (is_none_kind f.kind)
        (named "manifest.writeFiles[%q] must set exactly one of text or path" path)
    ∷ refuse_if (is_path_kind f.kind && str_eq f.path "")
        (named "manifest.writeFiles[%q].path must not be empty" path)
    ∷ refuse_if (f.write_back && not (is_path_kind f.kind))
        (named "manifest.writeFiles[%q].writeBack requires path" path)
    ∷ refuse_if (not (str_eq f.mode "") && not (is_file_mode f.mode))
        (named "manifest.writeFiles[%q].mode must match ^0?[0-7]{3}$" path)
    ∷ [])

-- `validateWriteFiles`
unfoldable pub validate_write_files : List (String × WriteFile) → Checked
unfolding validate_write_file
validate_write_files files = each validate_write_file 0 files

abbrev pub min_auto_volume_size : ℤ
min_auto_volume_size = pos 256

abbrev pub default_volume_fs_type : String
default_volume_fs_type = "ext4"

unfoldable pub validate_volume : ℕ → Volume → Checked
validate_volume i v = in_order (
    refuse_if (v.auto_create && str_eq v.image_path "")
      (errorf "manifest.mounts.image[%d].source is required" (num (pos i) end))
    ∷ refuse_if (v.auto_create && leb_ℤ v.size (pos 0)) (
        errorf
          "manifest.mounts.image[%d].image.size must be greater than zero when image.create is true"
          (num (pos i) end))
    ∷ refuse_if (v.auto_create && ltb_ℤ v.size min_auto_volume_size) (
        errorf "manifest.mounts.image[%d].image.size must be at least %d when image.create is true"
          (num (pos i) (num min_auto_volume_size end)))
    ∷ refuse_if (v.auto_create && not (str_eq v.fs_type default_volume_fs_type)) (
        errorf "manifest.mounts.image[%d].image.fs must be %q when image.create is true"
          (num (pos i) (str default_volume_fs_type end)))
    ∷ [])

abbrev indexed : String → ℕ → Error
indexed format i = errorf format (num (pos i) end)

abbrev pub validate_share : ℕ → VirtioFsShare → Checked
validate_share i share = in_order (
    refuse_if (str_eq share.socket_path "")
      (indexed "manifest.qemu.devices.virtiofs[%d].socketPath is required" i)
    ∷ refuse_if (not (valid_qemu_transport share.transport))
        (indexed "manifest.qemu.devices.virtiofs[%d].transport must be one of pci, mmio, or ccw" i)
    ∷ [])

abbrev pub validate_transport : String → ℕ → String → Checked
validate_transport format i transport =
    refuse_if (not (valid_qemu_transport transport)) (indexed format i)

abbrev pub validate_block : ℕ → BlockDevice → Checked
validate_block i b = in_order (
    validate_transport "manifest.qemu.devices.block[%d].transport must be one of pci, mmio, or ccw"
      i b.transport
    ∷ refuse_if (not (str_eq b.format "") && not (valid_image_format b.format))
        (indexed "manifest.qemu.devices.block[%d].format must be raw or qcow2" i)
    ∷ [])

abbrev pub validate_mount : ℕ → Option BlockDevice → Checked
validate_mount i none = passed
validate_mount i (some b) =
    refuse_if (not (str_eq b.format "") && not (valid_image_format b.format))
      (indexed "manifest.qemu.devices.mounts[%d].block.format must be raw or qcow2" i)
