-- ===== src/Executor/LineLogger/Pieces.antt =====
-- `lineLogger` of internal/executor/executor.go against a machine that takes one byte at a time.
use virtle.Prelude.{
  ℕ, zero, suc, ◌+◌, ◌-◌, ◌≤◌, ◌<◌, ◌==◌, ltb, ◌≡◌, refl, sym, ap, ◌∙◌, subst, inl, inr, true,
  false, List, [], ◌∷◌, ◌++◌, Option, none, some, length, take, drop, if◌then◌else◌, arith,
  length-append, take-drop, length-take, length-drop, Bool-cases, append_assoc,
}
use virtle.Executor.LineLogger.{
  LineLogger, flush, flush_line, flush_full, append_chunk, room, make_room, append_loop, append,
  cons_line, cut_line, finish_line, write_loop, write,
}

module _ (max : ℕ) (positive : 0 < max) where
  -- A byte of a line, and any byte.
  abbrev pub push : LineLogger → ℕ → LineLogger
  push w b = flush_full max (record w { buffer = w.buffer ++ b ∷ [] })

  abbrev pub feed_byte : LineLogger → ℕ → LineLogger
  feed_byte w b = if b == 10 then flush w else push w b

  unfoldable pub feed : LineLogger → List ℕ → LineLogger
  feed w [] = w
  feed w (b ∷ p) = feed (feed_byte w b) p

  -- There is room in the buffer.
  abbrev pub HasRoom : LineLogger → Type 0
  HasRoom w = length w.buffer < max

  flush_line_empty : (w : LineLogger) (bs : List ℕ) → w.buffer ≡ bs → (flush_line w bs).buffer ≡ []
  unfolding flush_line
  flush_line_empty w [] e = e
  flush_line_empty w (b ∷ bs) e = refl

  flush_empty : (w : LineLogger) → (flush w).buffer ≡ []
  unfolding flush
  flush_empty w = flush_line_empty w w.buffer refl

  flush-HasRoom : (w : LineLogger) → HasRoom (flush w)
  flush-HasRoom w = omega (arith, ap (λ bs. length bs) (flush_empty w))

  flush_full-HasRoom : (w : LineLogger) → length w.buffer ≤ max → HasRoom (flush_full max w)
  unfolding flush_full
  flush_full-HasRoom w l = elim (Bool-cases (length w.buffer == max)) [
    | inl e ↦ rw e (flush-HasRoom w)
    | inr e ↦ rw e (ground arith)
  ]

  flush_full_open : (w : LineLogger) → HasRoom w → flush_full max w ≡ w
  unfolding flush_full
  flush_full_open w r = ground arith

  feed_push : LineLogger → List ℕ → LineLogger
  feed_push w [] = w
  feed_push w (b ∷ p) = feed_push (push w b) p

  pub push-HasRoom : (w : LineLogger) (b : ℕ) → HasRoom w → HasRoom (push w b)
  push-HasRoom w b r =
      flush_full-HasRoom (record w { buffer = w.buffer ++ b ∷ [] })
        (omega (arith, length-append w.buffer (b ∷ [])))

  feed_push-HasRoom : (w : LineLogger) (p : List ℕ) → HasRoom w → HasRoom (feed_push w p)
  unfolding feed_push
  feed_push-HasRoom w [] r = r
  feed_push-HasRoom w (b ∷ p) r = feed_push-HasRoom (push w b) p (push-HasRoom w b r)

  -- A chunk that fits is as good as its bytes one at a time.
  chunk_lem :
      (w : LineLogger) (b : ℕ) (c : List ℕ)
      → length w.buffer + length (b ∷ c) ≤ max
      → flush_full max (record w { buffer = w.buffer ++ b ∷ c }) ≡ feed_push w (b ∷ c)
  unfolding feed_push
  chunk_lem w b [] l = refl
  chunk_lem w b (d ∷ c) l =
      let w' = record w { buffer = w.buffer ++ b ∷ [] } in
      let n = length-append w.buffer (b ∷ []) in
      let open_yet : push w b ≡ w' = flush_full_open w' (omega (arith, n)) in
      let longer = append_assoc w.buffer (b ∷ []) (d ∷ c) in
      ap (λ bs. flush_full max (record w { buffer = bs })) (sym longer)
      ∙ chunk_lem w' d c (omega (arith, n))
      ∙ ap (λ x. feed_push x (d ∷ c)) (sym open_yet)

  feed_push-append :
      (w : LineLogger) (p q : List ℕ) → feed_push w (p ++ q) ≡ feed_push (feed_push w p) q
  unfolding feed_push
  feed_push-append w [] q = refl
  feed_push-append w (b ∷ p) q = feed_push-append (push w b) p q

  made_room :
      (w : LineLogger) → HasRoom w → (make_room max w ≡ w) × (room max w ≡ max - length w.buffer)
  unfolding make_room room
  made_room w r = (ground arith, ground arith)

  -- A round that takes `j + 1` bytes.
  round_lem :
      (rounds j : ℕ) (w : LineLogger) (b : ℕ) (p : List ℕ)
      → HasRoom w
      → length p ≤ rounds
      → j ≤ length p
      → length w.buffer + suc j ≤ max
      → ((w' : LineLogger)
          → HasRoom w'
          → append_loop max rounds w' (drop j p) ≡ feed_push w' (drop j p))
      → append_loop max rounds (append_chunk max w (suc j) (b ∷ p)) (drop (suc j) (b ∷ p))
        ≡ feed_push w (b ∷ p)
  unfolding append_chunk
  round_lem rounds j w b p r l k m ih =
      let taken = length-take j p k in
      let chunk = chunk_lem w b (take j p) (omega (arith, taken)) in
      let after = feed_push w (b ∷ take j p) in
      ap (λ x. append_loop max rounds x (drop j p)) chunk
      ∙ ih after (feed_push-HasRoom w (b ∷ take j p) r)
      ∙ sym (feed_push-append w (b ∷ take j p) (drop j p))
      ∙ ap (λ bs. feed_push w (b ∷ bs)) (take-drop j p)

  chosen :
      (w : LineLogger) (n : ℕ)
      → HasRoom w
      → (j : ℕ) × ((if ltb (suc n) (room max w) then suc n else room max w) ≡ suc j)
        × (j ≤ n)
        × (length w.buffer + suc j ≤ max)
  chosen w n r = elim (Bool-cases (ltb (suc n) (room max w))) [
    | inl e ↦ (n, rw e refl, omega arith, let k = (made_room w r).1 in ground arith)
    | inr e ↦ (
      max - length w.buffer - 1,
      let k = (made_room w r).1 in rw e (omega arith),
      let k = (made_room w r).1 in ground arith,
      omega arith,
    )
  ]

  -- The chunks of `append`, one after another.
  append_loop_lem :
      (rounds : ℕ) (w : LineLogger) (p : List ℕ)
      → HasRoom w
      → length p ≤ rounds
      → append_loop max rounds w p ≡ feed_push w p
  unfolding append_loop feed_push
  append_loop_lem zero w [] r l = refl
  append_loop_lem zero w (b ∷ p) r l = absurd (omega arith)
  append_loop_lem (suc rounds) w [] r l = refl
  append_loop_lem (suc rounds) w (b ∷ p) r l =
      let c = chosen w (length p) r in
      rw ((made_room w r).0, c.1)
        (round_lem rounds c.0 w b p r (omega arith) c.2 c.3
          (λ w' r'. append_loop_lem rounds w' (drop c.0 p) r' (omega (arith, length-drop c.0 p))))

  abbrev CutSays : LineLogger → List ℕ → List ℕ × Option (List ℕ) → Type 0
  CutSays w p (line, none) = feed w p ≡ feed_push w line
  CutSays w p (line, some rest) =
      (feed w p ≡ feed (flush (feed_push w line)) rest) × (length rest < length p)

  cons_line_lem :
      (w : LineLogger) (b : ℕ) (p : List ℕ) (c : List ℕ × Option (List ℕ))
      → b == 10 ≡ false
      → CutSays (push w b) p c
      → CutSays w (b ∷ p) (cons_line b c)
  unfolding cons_line feed feed_push
  cons_line_lem w b p (line, none) e s = rw e s
  cons_line_lem w b p (line, some rest) e (s, l) = rw e (s, omega arith)

  feed_newline :
      (w : LineLogger) (b : ℕ) (p : List ℕ) → b == 10 ≡ true → feed w (b ∷ p) ≡ feed (flush w) p
  unfolding feed
  feed_newline w b p e = rw e refl

  cut_newline : (b : ℕ) (p : List ℕ) → b == 10 ≡ true → cut_line (b ∷ p) ≡ ([], some p)
  unfolding cut_line
  cut_newline b p e = rw e refl

  cut_other : (b : ℕ) (p : List ℕ) → b == 10 ≡ false → cut_line (b ∷ p) ≡ cons_line b (cut_line p)
  unfolding cut_line
  cut_other b p e = rw e refl

  newline_says :
      (w : LineLogger) (b : ℕ) (p : List ℕ) → b == 10 ≡ true → CutSays w (b ∷ p) ([], some p)
  unfolding feed_push
  newline_says w b p e = (feed_newline w b p e, omega arith)

  cut_line_lem : (w : LineLogger) (p : List ℕ) → CutSays w p (cut_line p)
  unfolding cut_line feed feed_push
  cut_line_lem w [] = refl
  cut_line_lem w (b ∷ p) = elim (Bool-cases (b == 10)) [
    | inl e ↦ subst (CutSays w (b ∷ p)) (sym (cut_newline b p e)) (newline_says w b p e)
    | inr e ↦
        subst (CutSays w (b ∷ p)) (sym (cut_other b p e))
          (cons_line_lem w b p (cut_line p) e (cut_line_lem (push w b) p))
  ]

  append_lem : (w : LineLogger) (p : List ℕ) → HasRoom w → append max w p ≡ feed_push w p
  unfolding append
  append_lem w p r = append_loop_lem (length p) w p r (omega arith)

  finish_line_lem :
      (rounds : ℕ) (w : LineLogger) (p : List ℕ) (c : List ℕ × Option (List ℕ))
      → HasRoom w
      → length p ≤ suc rounds
      → CutSays w p c
      → ((w' : LineLogger) (rest : List ℕ)
          → HasRoom w'
          → length rest ≤ rounds
          → write_loop max rounds w' rest ≡ feed w' rest)
      → finish_line max w c (λ w' rest. write_loop max rounds w' rest) ≡ feed w p
  unfolding finish_line
  finish_line_lem rounds w p (line, none) r l s ih = append_lem w line r ∙ sym s
  finish_line_lem rounds w p (line, some rest) r l (s, k) ih =
      let appended = ap (λ x. write_loop max rounds (flush x) rest) (append_lem w line r) in
      appended
      ∙ ih (flush (feed_push w line)) rest (flush-HasRoom (feed_push w line)) (omega arith)
      ∙ sym s

  write_loop_lem :
      (rounds : ℕ) (w : LineLogger) (p : List ℕ)
      → HasRoom w
      → length p ≤ rounds
      → write_loop max rounds w p ≡ feed w p
  unfolding write_loop feed
  write_loop_lem zero w [] r l = refl
  write_loop_lem zero w (b ∷ p) r l = absurd (omega arith)
  write_loop_lem (suc rounds) w [] r l = refl
  write_loop_lem (suc rounds) w (b ∷ p) r l =
      finish_line_lem rounds w (b ∷ p) (cut_line (b ∷ p)) r l (cut_line_lem w (b ∷ p))
        (λ w' rest r' l'. write_loop_lem rounds w' rest r' l')

  -- A logger with room in its buffer takes a piece of output as if byte by byte: a newline ends the
  -- record, and so does the last byte that fits.
  pub write_refines : (w : LineLogger) (p : List ℕ) → HasRoom w → write max w p ≡ feed w p
  unfolding write
  write_refines w p r = write_loop_lem (length p) w p r (omega arith)

  feed-append : (w : LineLogger) (p q : List ℕ) → feed w (p ++ q) ≡ feed (feed w p) q
  unfolding feed
  feed-append w [] q = refl
  feed-append w (b ∷ p) q = feed-append (feed_byte w b) p q

  pub feed_byte-HasRoom : (w : LineLogger) (b : ℕ) → HasRoom w → HasRoom (feed_byte w b)
  feed_byte-HasRoom w b r = elim (Bool-cases (b == 10)) [
    | inl e ↦ rw e (flush-HasRoom w)
    | inr e ↦ rw e (push-HasRoom w b r)
  ]

  pub feed-HasRoom : (w : LineLogger) (p : List ℕ) → HasRoom w → HasRoom (feed w p)
  unfolding feed
  feed-HasRoom w [] r = r
  feed-HasRoom w (b ∷ p) r = feed-HasRoom (feed_byte w b) p (feed_byte-HasRoom w b r)

  -- However output is cut into pieces, a logger with room in its buffer ends in the same state.
  write-append :
      (w : LineLogger) (p q : List ℕ)
      → HasRoom w
      → write max (write max w p) q ≡ write max w (p ++ q)
  write-append w p q r =
      ap (λ x. write max x q) (write_refines w p r)
      ∙ write_refines (feed w p) q (feed-HasRoom w p r)
      ∙ sym (feed-append w p q)
      ∙ sym (write_refines w (p ++ q) r)
