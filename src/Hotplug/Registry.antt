-- ===== src/Hotplug/Registry.antt =====
-- backend/qemu/internal/hotplug/runtime.go: the registry of attached devices. Go's map of pointers
-- is a list of attachments with their ids; `ref` is the pointer, a number that is never used twice.
-- Ports are non-negative; `none` is the port -1.
pub mod Ports
pub mod Attachments
use virtle.Prelude.{
  ℕ, zero, suc, ◌+◌, String, Bool, true, false, not, ◌&&◌, ◌||◌, List, [], ◌∷◌, ◌++◌, Option, none,
  some, ltb, ◌==◌, str_eq, if◌then◌else◌,
}
use virtle.Hotplug.Device.{HotplugDevice}
use virtle.Hotplug.Host.{Process}

pub record Attachment : Type 0 where
  pub ref : ℕ
  pub device : HotplugDevice
  pub port : ℕ
  pub helper : Option Process

-- `processes` is the processSet that helpers are added to, in order.
pub record Runtime : Type 0 where
  pub attachments : List Attachment
  pub processes : List Process
  pub next_ref : ℕ

abbrev pub new_runtime : Runtime
new_runtime = record { attachments = []; processes = []; next_ref = 0 }

unfoldable pub lookup : String → List Attachment → Option Attachment
lookup id [] = none
lookup id (a ∷ xs) = if str_eq a.device.id id then some a else lookup id xs

unfoldable pub delete : String → List Attachment → List Attachment
delete id [] = []
delete id (a ∷ xs) = let rest = delete id xs in if str_eq a.device.id id then rest else a ∷ rest

unfoldable pub occupied : ℕ → List Attachment → Bool
occupied port [] = false
occupied port (a ∷ xs) = a.port == port || occupied port xs

-- `for port := port; port < port + rounds; port++`
unfoldable pub first_free : ℕ → ℕ → List Attachment → Option ℕ
first_free zero port xs = none
first_free (suc rounds) port xs =
    let rest = first_free rounds (port + 1) xs in if not (occupied port xs) then some port else rest

unfoldable pub allocate_port : Runtime → ℕ → ℕ → Option ℕ
allocate_port r preferred count =
    if ltb preferred count && not (occupied preferred r.attachments)
    then some preferred
    else first_free count 0 r.attachments

add_process : Option Process → List Process → List Process
add_process none ps = ps
add_process (some p) ps = ps ++ p ∷ []

-- The last occurrence goes, as in executor.Group.Remove.
unfoldable pub holds : Process → List Process → Bool
holds p [] = false
holds p (q ∷ ps) = q == p || holds p ps

unfoldable pub remove_process : Process → List Process → List Process
unfolding holds
remove_process p [] = []
remove_process p (q ∷ ps) =
    if holds p ps then q ∷ remove_process p ps else if q == p then ps else q ∷ ps

unfoldable pub register : Runtime → HotplugDevice → ℕ → Option Process → Runtime
unfolding add_process
register r device port helper = record {
  attachments =
      (record { ref = r.next_ref; device = device; port = port; helper = helper })
      ∷ delete device.id r.attachments;
  processes = add_process helper r.processes;
  next_ref = r.next_ref + 1;
}

helper_of : Option Attachment → Option Process
helper_of none = none
helper_of (some a) = a.helper

drop_process : Option Process → List Process → List Process
drop_process none ps = ps
drop_process (some p) ps = remove_process p ps

unfoldable pub remove : Runtime → String → Runtime
unfolding helper_of drop_process
remove r id = record r {
  attachments = delete id r.attachments;
  processes = drop_process (helper_of (lookup id r.attachments)) r.processes;
}

-- What the goroutine of `register` does once the helper has exited: it clears the helper of the
-- attachment that it was started for, if that still stands, and leaves the process set.
is_helper : Option Process → Process → Bool
is_helper none p = false
is_helper (some q) p = q == p

clear_helper : String → ℕ → Process → List Attachment → List Attachment
clear_helper id ref p [] = []
clear_helper id ref p (a ∷ xs) =
    if str_eq a.device.id id
    then (if a.ref == ref && is_helper a.helper p then record a { helper = none } else a) ∷ xs
    else a ∷ clear_helper id ref p xs

unfoldable pub helper_exited : Runtime → String → ℕ → Process → Runtime
unfolding clear_helper is_helper
helper_exited r id ref p = record r {
  attachments = clear_helper id ref p r.attachments;
  processes = remove_process p r.processes;
}
