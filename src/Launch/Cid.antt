-- ===== src/Launch/Cid.antt =====
-- backend/qemu/internal/launch/cid.go: the vsock CID of a launch. The manifest's range is of positive
-- ints (its validation sees to that); a checker that is nil is `none`. `cid++` on an
-- int wraps around after MaxInt64, which is not modelled: the host's checker refuses a CID above 32 bits.
pub mod Allocation
use virtle.Prelude.{
  ltb, ℕ, zero, suc, ◌+◌, ◌-◌, Bool, true, false, ◌||◌, Option, none, some, if◌then◌else◌,
}
use virtle.Prelude.Int.{ℤ, pos, ltb_ℤ}
use virtle.Prelude.Errors.{Error, errorf, num, end, Result, ok, err}
use virtle.Launch.Resume.{SuspendState}

pub record VsockCidRange : Type 0 where
  pub start : ℕ
  pub stop : ℕ

-- `VSockCIDChecker.Available`
abbrev pub Checker : Type 0
Checker = ℕ → Result Bool

no_free_cid : VsockCidRange → Error
no_free_cid range =
    errorf "no free vsock CID in range %d-%d" (num (pos range.start) (num (pos range.stop) end))

-- One round of the loop; `rest` is the rounds after it.
try_cid : ℕ → Result Bool → Result ℕ → Result ℕ
try_cid cid (err e) rest = err e
try_cid cid (ok true) rest = ok cid
try_cid cid (ok false) rest = rest

-- `for cid := cid; cid <= end; cid++` with the rounds that are left.
check_from : VsockCidRange → Checker → ℕ → ℕ → Result ℕ
unfolding try_cid no_free_cid
check_from range available zero cid = err (no_free_cid range)
check_from range available (suc rounds) cid =
    let rest = check_from range available rounds (cid + 1) in try_cid cid (available cid) rest

-- The loop returns its first CID where no checker is given.
unfoldable pub allocate_cid : VsockCidRange → Option Checker → Result ℕ
unfolding check_from
allocate_cid range none =
    if ltb range.stop range.start then err (no_free_cid range) else ok range.start
allocate_cid range (some available) =
    check_from range available (range.stop + 1 - range.start) range.start

outside : VsockCidRange → ℤ → Error
outside range cid =
    errorf "saved vsock CID %d is outside manifest range %d-%d"
      (num cid (num (pos range.start) (num (pos range.stop) end)))

as_int : Result ℕ → Result ℤ
as_int (ok cid) = ok (pos cid)
as_int (err e) = err e

-- `AcquireCID`
unfoldable pub acquire_cid : VsockCidRange → Option SuspendState → Option Checker → Result ℤ
unfolding outside as_int
acquire_cid range none checker = as_int (allocate_cid range checker)
acquire_cid range (some s) checker =
    if ltb_ℤ s.cid (pos range.start) || ltb_ℤ (pos range.stop) s.cid
    then err (outside range s.cid)
    else ok s.cid
