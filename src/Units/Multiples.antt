-- ===== src/Units/Multiples.antt =====
-- Sizes that are multiples of a unit.
use virtle.Prelude.{
  ℕ, suc, ◌+◌, ◌-◌, ◌*◌, ◌/◌, ◌%◌, ◌≤◌, leb, false, ◌≡◌, ap, sym, ◌∙◌, some, arith, Bool-cases, inl,
  inr,
}
use virtle.Prelude.Int.{
  min_int64, max_int64, ltb_ℤ, ◌*ℤ◌, ℤ, pos, negsuc, pos_part, neg_part, IsInt64, quot, wrap64,
  wrap64_id,
}
use native.Mathlib.Nat.{
  zero-div, div-add-mod, mul_comm, div-le_self, le-div_iff_mul-le, div-mul-le_self,
}
use virtle.Units.{print_int, parse_int, size, checked}
use virtle.Units.Numbers.{parse_print}

-- What is left of a size that a unit divides.
module _ (k : ℕ) (positive : 1 ≤ k) where
  quot_pos : (n : ℕ) → quot (pos n) k ≡ pos (n / k)
  unfolding quot
  quot_pos n = ground (arith, zero-div k)

  divided : (n : ℕ) → n % k ≡ 0 → n / k * k ≡ n
  divided n m = omega (arith, div-add-mod n k, mul_comm k (n / k))

  below : (n m : ℕ) → n ≤ m → n / k ≤ m / k
  below n m h =
      (le-div_iff_mul-le {k = k} {x = n / k} {y = m} positive).1
        (omega (arith, div-mul-le_self n k))

  quot_neg :
      (n : ℕ) → suc n % k ≡ 0 → (quot (negsuc n) k ≡ negsuc (suc n / k - 1)) × (1 ≤ suc n / k)
  unfolding quot
  quot_neg n m =
      let d : suc n / k * k ≡ suc n = divided (suc n) m in
      let some_left : 1 ≤ suc n / k = elim (Bool-cases (leb 1 (suc n / k))) [
        | inl h ↦ ground arith
        | inr h ↦
            let z : suc n / k ≡ 0 = ground arith in
            absurd (omega (arith, sym d ∙ ap (λ q. q * k) z))
      ] in
      (ground (arith, zero-div k), some_left)

  checked_pos :
      (n : ℕ) → IsInt64 (pos n) → n % k ≡ 0 → checked k (some (pos (n / k))) ≡ size (pos n)
  unfolding checked quot ◌*ℤ◌
  checked_pos n i m =
      let d : n / k * k ≡ n = divided n m in
      let b : n / k ≤ 9223372036854775807 / k = below n 9223372036854775807 (omega arith) in
      let high : ltb_ℤ (quot max_int64 k) (pos (n / k)) ≡ false = ground (arith, zero-div k) in
      let low : ltb_ℤ (pos (n / k)) (quot min_int64 k) ≡ false = ground (arith, zero-div k) in
      let p : pos (n / k) *ℤ k ≡ pos n = ground arith in
      rw (high, low) (ap (λ x. size (wrap64 x)) p ∙ ap size (wrap64_id (pos n) i))

  checked_neg :
      (n : ℕ)
      → IsInt64 (negsuc n)
      → suc n % k ≡ 0
      → 1 ≤ suc n / k
      → checked k (some (negsuc (suc n / k - 1))) ≡ size (negsuc n)
  unfolding checked quot ◌*ℤ◌
  checked_neg n i m l =
      let d : suc n / k * k ≡ suc n = divided (suc n) m in
      let b : suc n / k ≤ 9223372036854775808 / k =
        below (suc n) 9223372036854775808 (omega arith) in
      let high : ltb_ℤ (quot max_int64 k) (negsuc (suc n / k - 1)) ≡ false =
        ground (arith, zero-div k) in
      let low : ltb_ℤ (negsuc (suc n / k - 1)) (quot min_int64 k) ≡ false =
        ground (arith, zero-div k) in
      let s : suc (suc n / k - 1) ≡ suc n / k = omega arith in
      let p : negsuc (suc n / k - 1) *ℤ k ≡ negsuc n = ground (arith, ap (λ q. q * k) s) in
      rw (high, low) (ap (λ x. size (wrap64 x)) p ∙ ap size (wrap64_id (negsuc n) i))

-- A size that is a multiple of a unit.
pub checked_lem :
    (k : ℕ) (b : ℤ)
    → 1 ≤ k
    → IsInt64 b
    → (pos_part b + neg_part b) % k ≡ 0
    → checked k (parse_int (print_int (quot b k))) ≡ size b
checked_lem k (pos n) h i m =
    let d : n % k ≡ 0 = ap (λ x. x % k) (omega arith) ∙ m in
    let small : IsInt64 (pos (n / k)) = (omega arith, omega (arith, i.1, div-le_self n k)) in
    ap (λ c. checked k (parse_int (print_int c))) (quot_pos k h n)
    ∙ ap (checked k) (parse_print (pos (n / k)) small)
    ∙ checked_pos k h n i d
checked_lem k (negsuc n) h i m =
    let d : suc n % k ≡ 0 = ap (λ x. x % k) (omega arith) ∙ m in
    let (q, l) = quot_neg k h n d in
    let small : IsInt64 (negsuc (suc n / k - 1)) =
      (omega (arith, i.0, div-le_self (suc n) k), omega arith) in
    ap (λ c. checked k (parse_int (print_int c))) q
    ∙ ap (checked k) (parse_print (negsuc (suc n / k - 1)) small)
    ∙ checked_neg k h n i d l
