-- ===== src/Vmm/Qemu/Layout.antt =====
-- What the arguments of QEMU have, whatever the devices are.
use virtle.Prelude.{
  ℕ, zero, suc, ◌+◌, ◌<◌, String, Bool, ◌≡◌, ap, sym, ◌∙◌, List, [], ◌∷◌, ◌++◌, append_assoc, arith,
  refl, true, false, not, ◌≤◌, ◌⊎◌, inl, inr,
}
use virtle.Prelude.Int.{ℤ, pos_part}
use virtle.Prelude.Errors.{Result, ok, err}
use Prim.Native.String.{◌++◌ as str_append}
use virtle.Prelude.Decimal.{decimal}
use virtle.Hotplug.Runner.{bus_name}
use virtle.Vmm.Qemu.{texts, Govmm, Qemu}
use virtle.Vmm.Qemu.Args.{
  root_port, root_ports, last_args, device_args, build_qemu_args, front_args,
}

-- A device of a port for hotplug whose id is pcie.hotplug. and its index, which is the bus that a device is
-- attached to.
abbrev port_device : ℕ → String
port_device i = texts (
    "pcie-root-port,id="
    ∷ str_append "pcie.hotplug." (decimal i)
    ∷ ",bus=pcie.0,chassis="
    ∷ decimal (suc i)
    ∷ ",slot="
    ∷ decimal (suc i)
    ∷ [])

unfoldable pub HasPort : ℕ → List String → Type 0
HasPort i args =
    (before : List String) × ((after : List String) × (args
        ≡ before ++ ("-device" ∷ port_device i ∷ after)))

-- The end of the arguments, for a machine that waits for a migration and for one that does not.
abbrev pub expected_end : Bool → List String → List String
expected_end true own = "-incoming" ∷ "defer" ∷ own
expected_end false own = own

port_lem : (i : ℕ) → root_port i ≡ port_device i
unfolding root_port bus_name
port_lem i = refl

ports_lem : (n i k j : ℕ) → k < n → j ≡ i + k → HasPort j (root_ports i n)
unfolding root_ports HasPort
ports_lem zero i k j h e = absurd (omega arith)
ports_lem (suc n) i zero j h e =
    let same : i ≡ j = omega arith in
    (
      [],
      (
        root_ports (suc i) n,
        ap (λ p. "-device" ∷ p ∷ root_ports (suc i) n) (ap root_port same ∙ port_lem j),
      ),
    )
ports_lem (suc n) i (suc k) j h e =
    let (before, (after, r)) = ports_lem n (suc i) k j (omega arith) (omega arith) in
    ("-device" ∷ root_port i ∷ before, (after, ap (λ p. "-device" ∷ root_port i ∷ p) r))

-- Arguments before and after those that have a port.
around_lem :
    (i : ℕ) (front ports rest : List String)
    → HasPort i ports
    → HasPort i (front ++ (ports ++ rest))
unfolding HasPort
around_lem i front ports rest (before, (after, e)) = (
  front ++ before,
  (
    after ++ rest,
    ap (λ p. front ++ (p ++ rest)) e
        ∙ ap (λ p. front ++ p) (append_assoc before ("-device" ∷ port_device i ∷ after) rest)
        ∙ sym (append_assoc front before ("-device" ∷ port_device i ∷ (after ++ rest))),
  ),
)

lt_cases : (i n : ℕ) → (n ≤ i) ⊎ (i < n)
lt_cases i n = ground arith

ok_lem : (a b : List String) → ◌≡◌ {A = Result (List String)} (ok a) (ok b) → a ≡ b
ok_lem a b e = ground arith

module _ (govmm : Govmm) (num_cpu : ℤ) where
  last_lem :
      (incoming : Bool) (q : Qemu) → last_args incoming q ≡ expected_end incoming q.passthrough_args
  unfolding last_args
  last_lem true q = refl
  last_lem false q = refl

  -- The arguments of a machine that waits or does not, from the other ones.
  waits_lem :
      (q : Qemu) (cid : ℤ) (incoming : Bool) (m : List String)
      → device_args govmm num_cpu q cid ≡ ok m
      → build_qemu_args govmm num_cpu q cid incoming
        ≡ ok (
            front_args num_cpu q
            ++ (root_ports 0 (pos_part q.pcie_ports)
                ++ (m ++ expected_end incoming q.passthrough_args)))
  unfolding build_qemu_args
  waits_lem q cid incoming m d = rw (d, last_lem incoming q) refl

  devices_lem :
      (q : Qemu) (cid : ℤ) (incoming : Bool) (args : List String) (o : Result (List String))
      → device_args govmm num_cpu q cid ≡ o
      → build_qemu_args govmm num_cpu q cid incoming ≡ ok args
      → (m : List String) × (o ≡ ok m)
  unfolding build_qemu_args
  devices_lem q cid incoming args (err e) d b = absurd (ground arith)
  devices_lem q cid incoming args (ok m) d b = (m, refl)

  whole_lem :
      (front ports m last args : List String)
      → args ≡ front ++ (ports ++ (m ++ last))
      → args ≡ (front ++ (ports ++ m)) ++ last
  whole_lem front ports m last args s =
      s
      ∙ ap (λ r. front ++ r) (sym (append_assoc ports m last))
      ∙ sym (append_assoc front (ports ++ m) last)

  -- Wherever the arguments of QEMU are built: each of the ports for hotplug is among them, with its index in
  -- its id, which is the bus of a device that is attached to it, and in its chassis and slot; and there
  -- are arguments that end with those of the manifest where the machine does not wait for a migration, and
  -- with -incoming defer in front of these where it does.
  pub build_qemu_args_layout :
      (q : Qemu) (cid : ℤ) (incoming : Bool) (args : List String) (i : ℕ)
      → build_qemu_args govmm num_cpu q cid incoming ≡ ok args
      → ((pos_part q.pcie_ports ≤ i) ⊎ HasPort i args)
        × ((shared : List String) × (args ≡ shared ++ expected_end incoming q.passthrough_args)
            × (build_qemu_args govmm num_cpu q cid (not incoming)
                ≡ ok (shared ++ expected_end (not incoming) q.passthrough_args)))
  build_qemu_args_layout q cid incoming args i b =
      let front : List String = front_args num_cpu q in
      let ports : List String = root_ports 0 (pos_part q.pcie_ports) in
      let own : List String = q.passthrough_args in
      let (m, d) = devices_lem q cid incoming args (device_args govmm num_cpu q cid) refl b in
      let s : args ≡ front ++ (ports ++ (m ++ expected_end incoming own)) =
        ok_lem args (front ++ (ports ++ (m ++ expected_end incoming own)))
          (sym b ∙ waits_lem q cid incoming m d) in
      (
        elim (lt_cases i (pos_part q.pcie_ports)) [
          | inl out ↦ inl out
          | inr inside ↦ inr (
              rw s (
                around_lem i front ports (m ++ expected_end incoming own)
                  (ports_lem (pos_part q.pcie_ports) 0 i i inside (omega arith))))
        ],
        (
          front ++ (ports ++ m),
          whole_lem front ports m (expected_end incoming own) args s,
          waits_lem q cid (not incoming) m d
              ∙ ap ok (
                  whole_lem front ports m (expected_end (not incoming) own)
                    (front ++ (ports ++ (m ++ expected_end (not incoming) own))) refl),
        ),
      )
