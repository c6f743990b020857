-- ===== src/Hotplug/Adapter/Trace.antt =====
-- What the commands of backend/qemu/internal/hotplug/qmp_adapter.go leave in the history.
use virtle.Prelude.{
  ◌≢◌, ◌⊎◌, ℕ, ◌+◌, ◌≡◌, refl, String, Bool, true, false, List, [], ◌∷◌, Option, none, some, take,
  Option-cases, inl, inr, arith,
}
use virtle.Prelude.Errors.{Error}
use virtle.Hotplug.Device.{HotplugDevice, QmpCommand, DevicePlan, plan_for, qemu_device_id}
use virtle.Hotplug.Host.{Host, History, Process, run_raw, device_del, succeeded, unstopped}
use virtle.Hotplug.Adapter.{
  raw, release_all, rollback, failed, after_add, add_device, add_backends, start_attach,
  attach_device, release_until, after_delete, start_detach, detach_device,
}

module _ (host : Host) (p : Process) where
  unstopped-release_all :
      (cs : List QmpCommand) (h : History) → unstopped p (release_all host cs h) ≡ unstopped p h
  unfolding release_all unstopped
  unstopped-release_all [] h = refl
  unstopped-release_all (c ∷ cs) h = unstopped-release_all cs (raw host c h).1

  unstopped-add_device :
      (plan : DevicePlan) (n : ℕ) (e : Option Error) (h : History)
      → unstopped p (add_device host plan n e h).1 ≡ unstopped p h
  unfolding add_device after_add failed rollback raw unstopped
  unstopped-add_device plan n (some e) h = unstopped-release_all (take n plan.release) h
  unstopped-add_device plan n none h = elim (Option-cases (host.run h plan.device_add)) [
    | inl e ↦ rw e refl
    | inr (x, e) ↦
        rw e (unstopped-release_all (take n plan.release) (run_raw plan.device_add false ∷ h))
  ]

  unstopped-add_backends :
      (plan : DevicePlan) (n : ℕ) (cs : List QmpCommand) (h : History)
      → unstopped p (add_backends host plan n cs h).1 ≡ unstopped p h
  unfolding add_backends failed rollback raw unstopped
  unstopped-add_backends plan n [] h = unstopped-add_device plan n (host.ctx_err h) h
  unstopped-add_backends plan n (c ∷ cs) h =
      let h' : History = run_raw c (succeeded (host.run h c)) ∷ h in
      ground (
        arith,
        unstopped-release_all (take n plan.release) h,
        unstopped-release_all (take n plan.release) h',
        unstopped-add_backends plan (n + 1) cs h',
      )

  -- The adapter starts and stops no process.
  pub unstopped-attach_device :
      (device : HotplugDevice) (bus : String) (h : History)
      → unstopped p (attach_device host device bus h).1 ≡ unstopped p h
  unfolding attach_device
  unstopped-attach_device device bus h =
      ground (arith, unstopped-add_backends (plan_for device bus) 0 (plan_for device bus).backend h)

  unstopped-release_until :
      (cs : List QmpCommand) (h : History) → unstopped p (release_until host cs h).1 ≡ unstopped p h
  unfolding release_until raw unstopped
  unstopped-release_until [] h = refl
  unstopped-release_until (c ∷ cs) h =
      ground (arith, unstopped-release_until cs (run_raw c (succeeded (host.run h c)) ∷ h))

  pub unstopped-detach_device :
      (device : HotplugDevice) (ctx : Option Error) (h : History)
      → unstopped p (detach_device host device ctx h).1 ≡ unstopped p h
  unfolding detach_device unstopped
  unstopped-detach_device device ctx h = ground (
    arith,
    unstopped-release_until (plan_for device "").release
        (device_del (qemu_device_id device.id) true ∷ h),
  )

-- What a failed attach with backend command `b`, its release `rl` and device command `d` has sent.
pub data FailedAttach (b rl d : QmpCommand) (h h' : History) : Type 0 where
  nothing_sent : h' ≡ h → FailedAttach b rl d h h'
  backend_refused : h' ≡ run_raw b false ∷ h → FailedAttach b rl d h h'
  ended_before_device :
      (x : Bool) → h' ≡ run_raw rl x ∷ run_raw b true ∷ h → FailedAttach b rl d h h'
  device_refused :
      (x : Bool)
      → h' ≡ run_raw rl x ∷ run_raw d false ∷ run_raw b true ∷ h
      → FailedAttach b rl d h h'

-- What a failed detach has sent.
pub data FailedDetach (rl : QmpCommand) (id : String) (h h' : History) : Type 0 where
  nothing_sent : h' ≡ h → FailedDetach rl id h h'
  delete_refused : h' ≡ device_del id false ∷ h → FailedDetach rl id h h'
  release_refused : h' ≡ run_raw rl false ∷ device_del id true ∷ h → FailedDetach rl id h h'

module _ (host : Host) where
  add_device-FailedAttach :
      (plan : DevicePlan) (b rl : QmpCommand) (e : Option Error) (h : History) {x : Error}
      → plan.release ≡ rl ∷ []
      → (add_device host plan 1 e (run_raw b true ∷ h)).0 ≡ some x
      → FailedAttach b rl plan.device_add h (add_device host plan 1 e (run_raw b true ∷ h)).1
  unfolding add_device after_add failed rollback release_all raw
  add_device-FailedAttach plan b rl (some e) h r f =
      ended_before_device (succeeded (host.run (run_raw b true ∷ h) rl)) (rw r refl)
  add_device-FailedAttach plan b rl none h r f =
      let h1 : History = run_raw b true ∷ h in
      elim (Option-cases (host.run h1 plan.device_add)) [
        | inl e ↦ absurd (ground arith)
        | inr (y, e) ↦
            device_refused (succeeded (host.run (run_raw plan.device_add false ∷ h1) rl))
              (ground arith)
      ]

  -- One backend command was sent and answered: what is left is the device command.
  attach_tail :
      (device : HotplugDevice) (bus : String) (b : QmpCommand) (h : History)
      → (plan_for device bus).backend ≡ b ∷ []
      → host.ctx_err h ≡ none
      → host.run h b ≡ none
      → attach_device host device bus h
        ≡ add_device host
            (plan_for device bus)
            1
            (host.ctx_err (run_raw b true ∷ h))
            (run_raw b true ∷ h)
  unfolding attach_device start_attach add_backends raw
  attach_tail device bus b h k c a = ground arith

  first_refused :
      (device : HotplugDevice) (bus : String) (b : QmpCommand) (h : History) {y : Error}
      → (plan_for device bus).backend ≡ b ∷ []
      → host.ctx_err h ≡ none
      → host.run h b ≡ some y
      → (attach_device host device bus h).1 ≡ run_raw b false ∷ h
  unfolding attach_device start_attach add_backends failed rollback release_all raw
  first_refused device bus b h k c a = ground arith

  -- A failed attach of a device with one backend command and one release did nothing, or had the
  -- backend refused, or had the device refused or the context ended after the backend was added,
  -- and then sent the release as its last command.
  pub attach_device-FailedAttach :
      (device : HotplugDevice) (bus : String) (b rl : QmpCommand) (h : History) {x : Error}
      → (plan_for device bus).backend ≡ b ∷ []
      → (plan_for device bus).release ≡ rl ∷ []
      → (attach_device host device bus h).0 ≡ some x
      → FailedAttach b rl (plan_for device bus).device_add h (attach_device host device bus h).1
  attach_device-FailedAttach device bus b rl h k r f = elim (Option-cases (host.ctx_err h)) [
    | inr (y, e) ↦ nothing_sent (unfold attach_device start_attach in rw e)
    | inl c ↦ elim (Option-cases (host.run h b)) [
      | inr (y, e) ↦ backend_refused (first_refused device bus b h k c e)
      | inl a ↦ rw (attach_tail device bus b h k c a) (
          add_device-FailedAttach (plan_for device bus) b rl _ h r
            (rw (attach_tail device bus b h k c a) at f))
    ]
  ]

  -- An attach that succeeds has sent the backend command and then the device command.
  pub attach_device_lem :
      (device : HotplugDevice) (bus : String) (b : QmpCommand) (h : History)
      → (plan_for device bus).backend ≡ b ∷ []
      → (attach_device host device bus h).0 ≡ none
      → (attach_device host device bus h).1
        ≡ run_raw (plan_for device bus).device_add true ∷ run_raw b true ∷ h
  unfolding attach_device start_attach add_backends add_device after_add failed raw
  attach_device_lem device bus b h k f = ground arith

  -- A detach of a device with one release deletes the device and then releases the backend, or it
  -- fails and stops there: it did nothing, or the deletion was refused, or the release was refused
  -- after it.
  pub detach_device-FailedDetach :
      (device : HotplugDevice) (ctx : Option Error) (rl : QmpCommand) (h : History)
      → (plan_for device "").release ≡ rl ∷ []
      → ((detach_device host device ctx h).0 ≡ none)
          × ((detach_device host device ctx h).1
              ≡ run_raw rl true ∷ device_del (qemu_device_id device.id) true ∷ h)
        ⊎ (((detach_device host device ctx h).0 ≢ none)
            × FailedDetach rl (qemu_device_id device.id) h (detach_device host device ctx h).1)
  unfolding detach_device start_detach after_delete release_until raw
  detach_device-FailedDetach device (some e) rl h r = inr (ground arith, nothing_sent refl)
  detach_device-FailedDetach device none rl h r =
      let id = qemu_device_id device.id in
      elim (Option-cases (host.delete_device h id)) [
        | inr (y, e) ↦ inr (ground arith, delete_refused (ground arith))
        | inl e ↦ elim (Option-cases (host.run (device_del id true ∷ h) rl)) [
          | inr (y, f) ↦ inr (ground arith, release_refused (ground arith))
          | inl f ↦ inl (ground arith, ground arith)
        ]
      ]
