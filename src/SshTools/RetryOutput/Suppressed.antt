-- ===== src/SshTools/RetryOutput/Suppressed.antt =====
-- What becomes of the error output of an attempt that is made again.
use virtle.Prelude.{ℕ, true, false, ◌≡◌, refl, List, [], arith, ap, ◌∙◌, ◌∷◌, ◌++◌}
use virtle.SshTools.RetryOutput.{
  RetryOutput, new_retry_output, Operation, write, suppress, flush, do_write, operate, operate_all,
}

-- The writes of an attempt.
unfoldable pub writes : List (List ℕ) → List Operation
writes [] = []
writes (p ∷ ps) = write p ∷ writes ps

-- An output of which nothing was shown.
IsHidden : RetryOutput → Type 0
IsHidden o = (o.verbose ≡ false) × ((o.revealed ≡ false) × (o.output ≡ []))

write-IsHidden :
    (limit : ℕ) (o : RetryOutput) (p : List ℕ) → IsHidden o → IsHidden (operate limit o (write p))
unfolding operate do_write IsHidden
write-IsHidden limit o p (verbose, (revealed, output)) = ground arith

write-suppressed :
    (limit : ℕ) (o : RetryOutput) (p : List ℕ)
    → IsHidden o
    → o.suppressed ≡ true
    → (operate limit o (write p)).suppressed ≡ true
unfolding operate do_write IsHidden
write-suppressed limit o p (verbose, (revealed, output)) s = ground arith

flush_nothing :
    (limit : ℕ) (o : RetryOutput) → IsHidden o → o.suppressed ≡ true → operate limit o flush ≡ o
unfolding operate IsHidden
flush_nothing limit o (verbose, (revealed, output)) s = ground arith

after_suppress :
    (limit : ℕ) (o : RetryOutput) (ops : List Operation)
    → IsHidden o
    → o.suppressed ≡ true
    → (operate_all limit o ops).output ≡ []
unfolding operate_all operate IsHidden
after_suppress limit o [] h s = h.1.1
after_suppress limit o (write p ∷ ops) h s =
    after_suppress limit (operate limit o (write p)) ops (write-IsHidden limit o p h)
      (write-suppressed limit o p h s)
after_suppress limit o (suppress ∷ ops) h s =
    after_suppress limit (operate limit o suppress) ops h refl
after_suppress limit o (flush ∷ ops) h s =
    ap (λ x. (operate_all limit x ops).output) (flush_nothing limit o h s)
    ∙ after_suppress limit o ops h s

before_suppress :
    (limit : ℕ) (o : RetryOutput) (ps : List (List ℕ)) (ops : List Operation)
    → IsHidden o
    → (operate_all limit o (writes ps ++ suppress ∷ ops)).output ≡ []
unfolding operate_all operate writes IsHidden
before_suppress limit o [] ops h = after_suppress limit (operate limit o suppress) ops h refl
before_suppress limit o (p ∷ ps) ops h =
    before_suppress limit (operate limit o (write p)) ps ops (write-IsHidden limit o p h)

-- Of an output that is not verbose, if all that happens before it is suppressed are writes, then whatever
-- is written or flushed later, nothing is ever shown.
pub suppress_hides :
    (limit : ℕ) (ps : List (List ℕ)) (ops : List Operation)
    → (operate_all limit (new_retry_output false) (writes ps ++ suppress ∷ ops)).output ≡ []
unfolding IsHidden
suppress_hides limit ps ops =
    before_suppress limit (new_retry_output false) ps ops (refl, (refl, refl))
