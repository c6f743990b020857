-- ===== src/Hotplug/Registry/Attachments.antt =====
-- The laws of the hotplug registry's map.
use virtle.Prelude.{
  Bool-cases, inl, inr, ◌∙◌, inr, inl, Bool-cases, ℕ, ◌<◌, ◌≡◌, refl, String, true, false, ◌&&◌,
  List, [], ◌∷◌, Option, none, some, arith, if◌then◌else◌, eq_iff, str_eq, ◌==◌,
}
use virtle.Hotplug.Device.{HotplugDevice}
use virtle.Hotplug.Host.{Process}
use virtle.Hotplug.Registry.{
  Attachment, Runtime, lookup, delete, occupied, register, remove, helper_exited, clear_helper,
  is_helper,
}

pub lookup-delete :
    (id j : String) (xs : List Attachment)
    → lookup j (delete id xs) ≡ (if str_eq id j then none else lookup j xs)
unfolding lookup delete
lookup-delete id j [] = ground arith
lookup-delete id j (a ∷ xs) =
    ground (arith, lookup-delete id j xs, eq_iff a.device.id id, eq_iff a.device.id j, eq_iff id j)

occupied-delete :
    (id : String) (port : ℕ) (xs : List Attachment)
    → occupied port xs ≡ false
    → occupied port (delete id xs) ≡ false
unfolding occupied delete
occupied-delete id port [] h = h
occupied-delete id port (a ∷ xs) h = ground (arith, occupied-delete id port xs)

-- Each port is held once, and is one of the reserved ones.
pub data PortsOk (count : ℕ) : List Attachment → Type 0 where
  nil : PortsOk count []
  cons :
      {a : Attachment} {xs : List Attachment}
      → a.port < count
      → occupied a.port xs ≡ false
      → PortsOk count xs
      → PortsOk count (a ∷ xs)

PortsOk-delete :
    (count : ℕ) (id : String) (xs : List Attachment)
    → PortsOk count xs
    → PortsOk count (delete id xs)
unfolding delete
PortsOk-delete count id [] h = h
PortsOk-delete count id (a ∷ xs) (cons l o t) = elim (Bool-cases (str_eq a.device.id id)) [
  | inl e ↦ rw e (PortsOk-delete count id xs t)
  | inr e ↦ rw e (cons l (occupied-delete id a.port xs o) (PortsOk-delete count id xs t))
]

occupied-clear :
    (id : String) (ref : ℕ) (p : Process) (port : ℕ) (xs : List Attachment)
    → occupied port (clear_helper id ref p xs) ≡ occupied port xs
unfolding occupied clear_helper
occupied-clear id ref p port [] = refl
occupied-clear id ref p port (a ∷ xs) = ground (arith, occupied-clear id ref p port xs)

PortsOk-clear :
    (count : ℕ) (id : String) (ref : ℕ) (p : Process) (xs : List Attachment)
    → PortsOk count xs
    → PortsOk count (clear_helper id ref p xs)
unfolding clear_helper
PortsOk-clear count id ref p [] h = h
PortsOk-clear count id ref p (a ∷ xs) (cons l o t) = elim (Bool-cases (str_eq a.device.id id)) [
  | inl e ↦ elim (Bool-cases (a.ref == ref && is_helper a.helper p)) [
    | inl f ↦ rw (e, f) (cons l o t)
    | inr f ↦ rw (e, f) (cons l o t)
  ]
  | inr e ↦
      rw e (cons l (occupied-clear id ref p a.port xs ∙ o) (PortsOk-clear count id ref p xs t))
]

-- The invariant of the registry: one port to an attachment, all of them reserved.
pub register-PortsOk :
    (r : Runtime) (count : ℕ) (device : HotplugDevice) (port : ℕ) (helper : Option Process)
    → PortsOk count r.attachments
    → port < count
    → occupied port r.attachments ≡ false
    → PortsOk count (register r device port helper).attachments
unfolding register
register-PortsOk r count device port helper h l o =
    cons l (occupied-delete device.id port r.attachments o)
      (PortsOk-delete count device.id r.attachments h)

pub remove-PortsOk :
    (r : Runtime) (count : ℕ) (id : String)
    → PortsOk count r.attachments
    → PortsOk count (remove r id).attachments
unfolding remove
remove-PortsOk r count id h = PortsOk-delete count id r.attachments h

pub helper_exited-PortsOk :
    (r : Runtime) (count : ℕ) (id : String) (ref : ℕ) (p : Process)
    → PortsOk count r.attachments
    → PortsOk count (helper_exited r id ref p).attachments
unfolding helper_exited
helper_exited-PortsOk r count id ref p h = PortsOk-clear count id ref p r.attachments h

pub lookup-register :
    (r : Runtime) (device : HotplugDevice) (port : ℕ) (helper : Option Process) (j : String)
    → lookup j (register r device port helper).attachments ≡ (
        if str_eq device.id j
        then some (record { ref = r.next_ref; device = device; port = port; helper = helper })
        else lookup j r.attachments)
unfolding lookup register
lookup-register r device port helper j = ground (arith, lookup-delete device.id j r.attachments)

pub lookup-remove :
    (r : Runtime) (id j : String)
    → lookup j (remove r id).attachments ≡ (if str_eq id j then none else lookup j r.attachments)
unfolding remove
lookup-remove r id j = lookup-delete id j r.attachments

-- Where an id is found, its port is one of the reserved ones and is taken.
pub lookup-occupied :
    (count : ℕ) (id : String) (xs : List Attachment) (a : Attachment)
    → PortsOk count xs
    → lookup id xs ≡ some a
    → (a.port < count) × (occupied a.port xs ≡ true)
unfolding lookup occupied
lookup-occupied count id [] a h e = cc
lookup-occupied count id (b ∷ xs) a (cons l o t) e = ground (arith, lookup-occupied count id xs a t)
