-- ===== src/Launch/Cid/Allocation.antt =====
-- Which CID `AcquireCID` of backend/qemu/internal/launch/cid.go returns.
use virtle.Prelude.{
  ◌↔◌, ap, sym, ◌∙◌, ℕ, zero, suc, ◌+◌, ◌-◌, ◌≤◌, ◌<◌, ◌≡◌, ◌≢◌, refl, Bool, true, false, Option,
  none, some, arith,
}
use virtle.Prelude.Int.{ℤ, pos, ◌≤ℤ◌}
use virtle.Prelude.Errors.{Result, ok, err}
use virtle.Launch.Resume.{SuspendState}
use virtle.Launch.Cid.{
  VsockCidRange, Checker, try_cid, check_from, allocate_cid, acquire_cid, as_int,
}

-- The first CID from `from` on that is available, below `bound`.
pub record IsFirst (available : Checker) (from bound cid : ℕ) : Type 0 where
  pub from-le : from ≤ cid
  pub lt-bound : cid < bound
  pub is_free : available cid ≡ ok true
  pub none_before : (j : ℕ) → from ≤ j → j < cid → available j ≡ ok false

module _ (range : VsockCidRange) (available : Checker) where
  try_sound :
      (rounds from cid : ℕ) (r : Result Bool) (rest : Result ℕ)
      → available from ≡ r
      → (rest ≡ ok cid → IsFirst available (from + 1) (from + 1 + rounds) cid)
      → try_cid from r rest ≡ ok cid
      → IsFirst available from (from + suc rounds) cid
  unfolding try_cid
  try_sound rounds from cid (err e) rest a ih h = cc
  try_sound rounds from cid (ok true) rest a ih h =
      let e : from ≡ cid = ground arith in
      record {
        from-le = omega arith;
        lt-bound = omega arith;
        is_free = ap available (sym e) ∙ a;
        none_before = λ j x y. absurd (omega arith);
      }
  try_sound rounds from cid (ok false) rest a ih h =
      let f = ih h in
      record {
        from-le = omega (arith, f.from-le);
        lt-bound = omega (arith, f.lt-bound);
        is_free = f.is_free;
        none_before = λ j x y. before f j x y;
      }
    where
      before :
          IsFirst available (from + 1) (from + 1 + rounds) cid
          → (j : ℕ) → from ≤ j
          → j < cid
          → available j ≡ ok false
      before f j x y = ground (arith, f.none_before j, a)

  check_from_sound :
      (rounds from cid : ℕ)
      → check_from range available rounds from ≡ ok cid
      → IsFirst available from (from + rounds) cid
  unfolding check_from
  check_from_sound zero from cid h = cc
  check_from_sound (suc rounds) from cid h =
      try_sound rounds from cid (available from) (check_from range available rounds (from + 1)) refl
        (check_from_sound rounds (from + 1) cid) h

  try_complete :
      (rounds from : ℕ) (r : Result Bool) (rest : Result ℕ) (cid : ℕ)
      → available from ≡ r
      → IsFirst available from (from + suc rounds) cid
      → (IsFirst available (from + 1) (from + 1 + rounds) cid → rest ≡ ok cid)
      → try_cid from r rest ≡ ok cid
  unfolding try_cid
  try_complete rounds from (err e) rest cid a f ih =
      absurd (ground (arith, f.none_before from, f.is_free))
  try_complete rounds from (ok true) rest cid a f ih = ground (arith, f.none_before from, f.from-le)
  try_complete rounds from (ok false) rest cid a f ih = ih (record {
    from-le = ne_from (λ e. ground (arith, f.is_free));
    lt-bound = omega (arith, f.lt-bound);
    is_free = f.is_free;
    none_before = λ j x y. f.none_before j (omega arith) y;
  })
    where
      ne_from : (from ≢ cid) → from + 1 ≤ cid
      ne_from n = omega (arith, f.from-le)

  check_from_complete :
      (rounds from cid : ℕ)
      → IsFirst available from (from + rounds) cid
      → check_from range available rounds from ≡ ok cid
  unfolding check_from
  check_from_complete zero from cid f = absurd (omega (arith, f.from-le, f.lt-bound))
  check_from_complete (suc rounds) from cid f =
      try_complete rounds from (available from) (check_from range available rounds (from + 1)) cid
        refl f (check_from_complete rounds (from + 1) cid)

  -- Where a checker is given, a new launch gets exactly the first CID of the range that is
  -- available, with the checks of those before it answered.
  pub allocate_cid_iff :
      (cid : ℕ)
      → (allocate_cid range (some available) ≡ ok cid)
        ↔ IsFirst available range.start (range.start + (range.stop + 1 - range.start)) cid
  unfolding allocate_cid
  allocate_cid_iff cid = (
    check_from_sound (range.stop + 1 - range.start) range.start cid,
    check_from_complete (range.stop + 1 - range.start) range.start cid,
  )

allocate_bounds :
    (range : VsockCidRange) (checker : Option Checker) {cid : ℕ}
    → allocate_cid range checker ≡ ok cid
    → (range.start ≤ cid) × (cid ≤ range.stop)
unfolding allocate_cid
allocate_bounds range none h = ground arith
allocate_bounds range (some available) {cid} h =
    let f = check_from_sound range available (range.stop + 1 - range.start) range.start cid h in
    omega (arith, f.from-le, f.lt-bound)

as_int_bounds :
    (range : VsockCidRange) (r : Result ℕ) (cid : ℤ)
    → ((x : ℕ) → r ≡ ok x → (range.start ≤ x) × (x ≤ range.stop))
    → as_int r ≡ ok cid
    → (pos range.start ≤ℤ cid) × (cid ≤ℤ pos range.stop)
unfolding as_int
as_int_bounds range (ok x) cid b h = ground (arith, b x refl)
as_int_bounds range (err e) cid b h = cc

-- Whatever CID a launch gets, new or saved, lies in the manifest's range.
pub acquire_cid_bounds :
    (range : VsockCidRange) (state : Option SuspendState) (checker : Option Checker) {cid : ℤ}
    → acquire_cid range state checker ≡ ok cid
    → (pos range.start ≤ℤ cid) × (cid ≤ℤ pos range.stop)
unfolding acquire_cid
acquire_cid_bounds range none checker {cid} h =
    as_int_bounds range (allocate_cid range checker) cid (λ x e. allocate_bounds range checker e) h
acquire_cid_bounds range (some s) checker h = ground arith
