-- ===== src/Executor/LineLogger/Bounds.antt =====
-- The size of the records of `lineLogger` of internal/executor/executor.go.
use virtle.Prelude.{
  ℕ, ◌≤◌, ◌<◌, ◌==◌, inl, inr, List, [], ◌∷◌, ◌++◌, length, arith, All, length-append, Bool-cases,
}
use virtle.Executor.LineLogger.{LineLogger, trim_cr, flush, flush_line, flush_full, write}
use virtle.Executor.LineLogger.Pieces.{
  feed_byte-HasRoom, feed-HasRoom, HasRoom, feed_byte, feed, push, write_refines,
}

module _ (max : ℕ) (positive : 0 < max) where
  -- Every record is at most a line long.
  abbrev pub IsBounded : LineLogger → Type 0
  IsBounded w = (length w.buffer ≤ max) × All (λ line. length line ≤ max) w.logged

  trim_cr_shortens : (bs : List ℕ) → length (trim_cr bs) ≤ length bs
  unfolding trim_cr
  trim_cr_shortens [] = omega arith
  trim_cr_shortens (b ∷ []) = ground arith
  trim_cr_shortens (b ∷ c ∷ bs) = omega (arith, trim_cr_shortens (c ∷ bs))

  All-snoc :
      (lines : List (List ℕ)) (line : List ℕ)
      → All (λ l. length l ≤ max) lines
      → length line ≤ max
      → All (λ l. length l ≤ max) (lines ++ line ∷ [])
  All-snoc [] line h k = (k, tt)
  All-snoc (l ∷ lines) line h k = (h.0, All-snoc lines line h.1 k)

  flush_line-IsBounded :
      (w : LineLogger) (bs : List ℕ) → length bs ≤ max → IsBounded w → IsBounded (flush_line w bs)
  unfolding flush_line
  flush_line-IsBounded w [] l v = v
  flush_line-IsBounded w (b ∷ bs) l v = (
    omega arith,
    All-snoc w.logged (trim_cr (b ∷ bs)) v.1 (omega (arith, trim_cr_shortens (b ∷ bs))),
  )

  flush-IsBounded : (w : LineLogger) → IsBounded w → IsBounded (flush w)
  unfolding flush
  flush-IsBounded w v = flush_line-IsBounded w w.buffer v.0 v

  push-IsBounded :
      (w : LineLogger) (b : ℕ)
      → HasRoom max positive w
      → IsBounded w
      → IsBounded (push max positive w b)
  unfolding flush_full
  push-IsBounded w b r v =
      let longer : LineLogger = record w { buffer = w.buffer ++ b ∷ [] } in
      let bounded : IsBounded longer = (omega (arith, length-append w.buffer (b ∷ [])), v.1) in
      elim (Bool-cases (length longer.buffer == max)) [
        | inl e ↦ rw e (flush-IsBounded longer bounded)
        | inr e ↦ rw e bounded
      ]

  feed-IsBounded :
      (w : LineLogger) (p : List ℕ)
      → HasRoom max positive w
      → IsBounded w
      → IsBounded (feed max positive w p)
  unfolding feed
  feed-IsBounded w [] r v = v
  feed-IsBounded w (b ∷ p) r v =
      feed-IsBounded (feed_byte max positive w b) p (feed_byte-HasRoom max positive w b r)
        (elim (Bool-cases (b == 10)) [
          | inl e ↦ rw e (flush-IsBounded w v)
          | inr e ↦ rw e (push-IsBounded w b r v)
        ])

  -- A logger with room in its buffer and records of bounded size keeps both through every write.
  write-IsBounded :
      (w : LineLogger) (p : List ℕ)
      → HasRoom max positive w
      → IsBounded w
      → HasRoom max positive (write max w p) × IsBounded (write max w p)
  write-IsBounded w p r v =
      rw (write_refines max positive w p r)
        (feed-HasRoom max positive w p r, feed-IsBounded w p r v)
