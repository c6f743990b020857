-- ===== src/Session/ExitCode.antt =====
-- `ExitCode` of backend/qemu/session/session.go.
use virtle.Prelude.{
  ap, inl, inr, Bool-cases, ◌⊎◌, Bool, true, false, ◌≡◌, refl, Option, none, some, if◌then◌else◌,
  arith,
}
use virtle.Prelude.Int.{ℤ, pos, leb_ℤ}
use virtle.Prelude.Errors.{Error, errors_find, command_error, exit, canceled}

unfoldable pub at_command : Error → Option ℤ
at_command (command_error stage command code e) = some code
at_command _ = none

unfoldable pub at_exit : Error → Option ℤ
at_exit (exit code) = some code
at_exit _ = none

at_canceled : Error → Option Bool
at_canceled canceled = some true
at_canceled _ = none

-- `if errors.Is(err, context.Canceled) { return 130 }; return 1`
canceled_code : Option Bool → ℤ
canceled_code none = pos 1
canceled_code (some b) = pos 130

-- A code that is not negative, or what comes next.
or_next : Option ℤ → ℤ → ℤ
or_next none next = next
or_next (some code) next = if leb_ℤ (pos 0) code then code else next

-- `ExitCode`
unfoldable pub exit_code : Option Error → ℤ
unfolding at_command at_exit at_canceled canceled_code or_next
exit_code none = pos 0
exit_code (some e) =
    or_next (errors_find at_command e)
      (or_next (errors_find at_exit e) (canceled_code (errors_find at_canceled e)))

or_next_bounds :
    (o : Option ℤ) (next : ℤ) → leb_ℤ (pos 0) next ≡ true → leb_ℤ (pos 0) (or_next o next) ≡ true
unfolding or_next
or_next_bounds none next p = p
or_next_bounds (some code) next p = elim (Bool-cases (leb_ℤ (pos 0) code)) [
  | inl e ↦ rw e e
  | inr e ↦ rw e p
]

canceled_bounds : (o : Option Bool) → leb_ℤ (pos 0) (canceled_code o) ≡ true
unfolding canceled_code
canceled_bounds none = refl
canceled_bounds (some b) = refl

-- The exit code of the program is never negative, whatever the codes of the commands in the error are.
exit_code_bounds : (o : Option Error) → leb_ℤ (pos 0) (exit_code o) ≡ true
unfolding exit_code
exit_code_bounds none = refl
exit_code_bounds (some e) =
    or_next_bounds (errors_find at_command e)
      (or_next (errors_find at_exit e) (canceled_code (errors_find at_canceled e)))
      (or_next_bounds (errors_find at_exit e) (canceled_code (errors_find at_canceled e))
        (canceled_bounds (errors_find at_canceled e)))

if_zero : (b : Bool) (x y : ℤ) → (if b then x else y) ≡ pos 0 → (x ≡ pos 0) ⊎ (y ≡ pos 0)
if_zero true x y p = inl p
if_zero false x y p = inr p

or_next_zero :
    (o : Option ℤ) (next : ℤ) → or_next o next ≡ pos 0 → (o ≡ some (pos 0)) ⊎ (next ≡ pos 0)
unfolding or_next
or_next_zero none next p = inr p
or_next_zero (some code) next p = elim (if_zero (leb_ℤ (pos 0) code) code next p) [
  | inl e ↦ inl (ap some e)
  | inr e ↦ inr e
]

canceled_zero : (o : Option Bool) → canceled_code o ≡ pos 0 → ⊥
unfolding canceled_code
canceled_zero none p = absurd (ground arith)
canceled_zero (some b) p = absurd (ground arith)

-- The program reports success for an error only where the first command error in it, or the first exit
-- status, has the code 0.
exit_code_zero :
    (e : Error)
    → exit_code (some e) ≡ pos 0
    → (errors_find at_command e ≡ some (pos 0)) ⊎ (errors_find at_exit e ≡ some (pos 0))
unfolding exit_code
exit_code_zero e p =
    elim (or_next_zero (errors_find at_command e)
      (or_next (errors_find at_exit e) (canceled_code (errors_find at_canceled e))) p) [
        | inl q ↦ inl q
        | inr q ↦
            elim (or_next_zero (errors_find at_exit e) (canceled_code (errors_find at_canceled e))
              q) [ inl s ↦ inr s | inr s ↦ absurd (canceled_zero (errors_find at_canceled e) s) ]
      ]
