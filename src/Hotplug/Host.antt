-- ===== src/Hotplug/Host.antt =====
-- What the hotplug code calls: the host's process starter, QEMU's monitor, the guest and the
-- context. A call's answer may depend on all that happened before, the latest event first; the
-- interfaces are those that hotplug.go and qmp_adapter.go declare.
use virtle.Prelude.{
  ℕ, String, Bool, true, false, List, [], ◌∷◌, Option, none, some, ◌==◌, if◌then◌else◌,
}
use virtle.Prelude.Errors.{Error, Result}
use virtle.Hotplug.Device.{QmpCommand}

-- A process is known by a number.
abbrev pub Process : Type 0
Process = ℕ

-- The Boolean says whether the call succeeded.
pub data Event : Type 0 where
  start : Process → Event
  stop : Process → Event
  run_raw : QmpCommand → Bool → Event
  device_del : String → Bool → Event
  guest_run : List String → Bool → Event
  remove_file : String → Event

abbrev pub History : Type 0
History = List Event

pub record Host : Type 0 where
  -- `r.Start == nil`, `r.Sockets == nil`
  pub has_starter : Bool
  pub has_sockets : Bool
  pub start_process : History → Result Process
  pub wait_socket : History → Option Error
  pub stop_process : History → Process → Option Error
  pub run : History → QmpCommand → Option Error
  pub delete_device : History → String → Option Error
  pub run_guest : History → List String → Option Error
  -- `ctx.Err()`
  pub ctx_err : History → Option Error

abbrev pub succeeded : Option Error → Bool
succeeded none = true
succeeded (some e) = false

-- A process that was started and that nobody has tried to stop since.
unfoldable pub unstopped : Process → History → Bool
unstopped p [] = false
unstopped p (start q ∷ h) = if q == p then true else unstopped p h
unstopped p (stop q ∷ h) = if q == p then false else unstopped p h
unstopped p (_ ∷ h) = unstopped p h
