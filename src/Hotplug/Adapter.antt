-- ===== src/Hotplug/Adapter.antt =====
-- backend/qemu/internal/hotplug/qmp_adapter.go: the QMP commands of an attach and a detach.
pub mod Trace
use virtle.Prelude.{ℕ, suc, ◌+◌, String, Bool, true, false, List, [], ◌∷◌, Option, none, some, take}
use virtle.Prelude.Errors.{Error, Result, ok, err}
use virtle.Hotplug.Device.{HotplugDevice, QmpCommand, DevicePlan, plan_for, qemu_device_id}
use virtle.Hotplug.Host.{Host, History, Event, run_raw, device_del, succeeded}

module _ (host : Host) where
  -- `a.Client.RunRaw`
  unfoldable pub raw : QmpCommand → History → Option Error × History
  raw c h = let e = host.run h c in (e, run_raw c (succeeded e) ∷ h)

  -- The loop of `rollback`; what the commands answer is ignored.
  unfoldable pub release_all : List QmpCommand → History → History
  unfolding raw
  release_all [] h = h
  release_all (c ∷ cs) h = release_all cs (raw c h).1

  rollback : DevicePlan → ℕ → History → History
  rollback plan n h = release_all (take n plan.release) h

  failed : DevicePlan → ℕ → Error → History → Option Error × History
  failed plan n e h = (some e, rollback plan n h)

  after_add : DevicePlan → ℕ → Option Error × History → Option Error × History
  after_add plan n (some e, h) = failed plan n e h
  after_add plan n (none, h) = (none, h)

  add_device : DevicePlan → ℕ → Option Error → History → Option Error × History
  add_device plan n (some e) h = failed plan n e h
  add_device plan n none h = after_add plan n (raw plan.device_add h)

  -- The loop over `plan.backend`, with `n` commands that succeeded. The context is read before each.
  add_backends : DevicePlan → ℕ → List QmpCommand → History → Option Error × History
  add_backends plan n [] h = add_device plan n (host.ctx_err h) h
  add_backends plan n (c ∷ cs) h =
      let next = add_backends plan (n + 1) cs (raw c h).1 in
      elim (host.ctx_err h) [
        | some e ↦ failed plan n e h
        | none ↦ elim (raw c h).0 [ some e ↦ failed plan n e (raw c h).1 | none ↦ next ]
      ]

  start_attach : DevicePlan → Option Error → History → Option Error × History
  start_attach plan (some e) h = (some e, h)
  start_attach plan none h = add_backends plan 0 plan.backend h

  unfoldable pub attach_device : HotplugDevice → String → History → Option Error × History
  unfolding start_attach add_backends add_device after_add failed rollback
  attach_device device bus h = start_attach (plan_for device bus) (host.ctx_err h) h

  -- The releases of a detach stop at the first that fails.
  release_until : List QmpCommand → History → Option Error × History
  release_until [] h = (none, h)
  release_until (c ∷ cs) h =
      let next = release_until cs (raw c h).1 in
      elim (raw c h).0 [ some e ↦ (some e, (raw c h).1) | none ↦ next ]

  after_delete : HotplugDevice → Option Error → History → Option Error × History
  after_delete device (some e) h = (some e, device_del (qemu_device_id device.id) false ∷ h)
  after_delete device none h =
      release_until (plan_for device "").release (device_del (qemu_device_id device.id) true ∷ h)

  -- `detached` is the error of the context that the caller passes: none under WithoutCancel.
  start_detach : HotplugDevice → Option Error → History → Option Error × History
  start_detach device (some e) h = (some e, h)
  start_detach device none h =
      after_delete device (host.delete_device h (qemu_device_id device.id)) h

  unfoldable pub detach_device : HotplugDevice → Option Error → History → Option Error × History
  unfolding start_detach after_delete release_until
  detach_device device ctx h = start_detach device ctx h
