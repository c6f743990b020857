-- ===== src/Manifest/Devices/Hotplug.antt =====
-- What validation shows of the hotplug devices of a manifest (`validateHotplug`, `Validate`).
use virtle.Prelude.{
  ℕ, suc, String, Bool, true, false, ◌||◌, ◌≡◌, ◌≢◌, refl, ◌⊎◌, List, [], ◌∷◌, Option, none, some,
  str_eq, eq_iff, contains, All, arith,
}
use virtle.Hotplug.Device.{HotplugDevice, HotplugKind, virtio_fs, net, block, other}
use virtle.Manifest.Checked.{in_order, refuse_if, Checked, passed, followed, followed-passed}
use virtle.Manifest.Devices.{
  Error, named, validate_kind, validate_hotplug, lookup, unless_seen, hotplug_loop, hotplug_prefix,
  validate_hotplugs, valid_image_format,
}

-- What a device of a kind needs.
HasKind : HotplugDevice → HotplugKind → Type 0
HasKind d virtio_fs =
    (d.virtiofs.source ≢ "") × (d.virtiofs.socket_path ≢ "") × (d.virtiofs.bin ≢ "")
HasKind d net = (d.net.backend ≡ "user") × (d.net.mac ≢ "")
HasKind d block =
    (d.block.image_path ≢ "") × ((d.block.format ≡ "raw") ⊎ (d.block.format ≡ "qcow2"))
HasKind d (other kind) = ⊥

-- A hotplug device that can be attached, and whose id can stand in a path.
unfoldable pub IsDevice : HotplugDevice → Type 0
unfolding HasKind
IsDevice d =
    (d.id ≢ "") × (contains d.id "/" ≡ false) × (contains d.id "\\" ≡ false) × HasKind d d.kind

kind_lem :
    (prefix : String) (d : HotplugDevice) (k : HotplugKind)
    → validate_kind prefix d k ≡ passed
    → HasKind d k
unfolding validate_kind HasKind valid_image_format
kind_lem prefix d virtio_fs e =
    ground (
      arith,
      eq_iff d.virtiofs.source "",
      eq_iff d.virtiofs.socket_path "",
      eq_iff d.virtiofs.bin "",
    )
kind_lem prefix d net e = ground (arith, eq_iff d.net.backend "user", eq_iff d.net.mac "")
kind_lem prefix d block e = ground (
  arith,
  eq_iff d.block.image_path "",
  eq_iff d.block.format "raw",
  eq_iff d.block.format "qcow2",
)
kind_lem prefix d (other kind) e = absurd (ground arith)

filled : (s : String) → str_eq s "" ≡ false → s ≢ ""
filled s e = ground (arith, eq_iff s "")

tests_lem :
    (a b c : Bool) (e f : Error) (k : Checked)
    → in_order (refuse_if a e ∷ refuse_if (b || c) f ∷ k ∷ []) ≡ passed
    → (a ≡ false) × (b ≡ false) × (c ≡ false) × (k ≡ passed)
tests_lem true b c e f k p = absurd (ground arith)
tests_lem false true c e f k p = absurd (ground arith)
tests_lem false false true e f k p = absurd (ground arith)
tests_lem false false false e f k p = (refl, refl, refl, (followed-passed k passed p).0)

device_lem : (prefix : String) (d : HotplugDevice) → validate_hotplug prefix d ≡ passed → IsDevice d
unfolding validate_hotplug IsDevice
device_lem prefix d e =
    let (a, b, c, k) =
      tests_lem (str_eq d.id "") (contains d.id "/") (contains d.id "\\")
        (named "%s.id is required" prefix) (named "%s.id must not contain path separators" prefix)
        (validate_kind prefix d d.kind) e in
    (filled d.id a, b, c, kind_lem prefix d d.kind k)

-- The ids of the devices are all different.
unfoldable pub Distinct : List HotplugDevice → Type 0
Distinct [] = Unit
Distinct (d ∷ ds) = All (λ e. d.id ≢ e.id) ds × Distinct ds

unseen_lem : (i : ℕ) (d : HotplugDevice) (o : Option ℕ) → unless_seen i d o ≡ passed → o ≡ none
unfolding unless_seen
unseen_lem i d none e = refl
unseen_lem i d (some j) e = absurd (ground arith)

lookup_lem :
    (id id' : String) (i : ℕ) (seen : List (String × ℕ))
    → lookup ((id', i) ∷ seen) id ≡ none
    → (id' ≢ id) × (lookup seen id ≡ none)
unfolding lookup
lookup_lem id id' i seen e = ground (arith, eq_iff id' id)

all_unseen :
    (id' : String) (i : ℕ) (seen : List (String × ℕ)) (ds : List HotplugDevice)
    → All (λ e. lookup ((id', i) ∷ seen) e.id ≡ none) ds
    → All (λ e. id' ≢ e.id) ds × All (λ e. lookup seen e.id ≡ none) ds
all_unseen id' i seen [] h = (tt, tt)
all_unseen id' i seen (d ∷ ds) h =
    let p = lookup_lem d.id id' i seen h.0 in
    let q = all_unseen id' i seen ds h.1 in ((p.0, q.0), (p.1, q.1))

loop_lem :
    (seen : List (String × ℕ)) (i : ℕ) (ds : List HotplugDevice)
    → hotplug_loop seen i ds ≡ passed
    → All (λ e. lookup seen e.id ≡ none) ds × Distinct ds × All IsDevice ds
unfolding hotplug_loop Distinct
loop_lem seen i [] e = (tt, tt, tt)
loop_lem seen i (d ∷ ds) e =
    let rest : Checked = hotplug_loop ((d.id, i) ∷ seen) (suc i) ds in
    let p =
      followed-passed (validate_hotplug (hotplug_prefix i) d)
        (followed (unless_seen i d (lookup seen d.id)) rest) e in
    let q = followed-passed (unless_seen i d (lookup seen d.id)) rest p.1 in
    let (unseen, distinct, devices) = loop_lem ((d.id, i) ∷ seen) (suc i) ds q.1 in
    let u = all_unseen d.id i seen ds unseen in
    (
      (unseen_lem i d (lookup seen d.id) q.0, u.1),
      (u.0, distinct),
      (device_lem (hotplug_prefix i) d p.0, devices),
    )

-- The hotplug devices of a manifest that passes can be attached, and their ids are all different.
pub validate_hotplugs_sound :
    (ds : List HotplugDevice) → validate_hotplugs ds ≡ passed → Distinct ds × All IsDevice ds
unfolding validate_hotplugs
validate_hotplugs_sound ds e = let p = loop_lem [] 0 ds e in (p.1, p.2)
