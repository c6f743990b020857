-- ===== src/GuestAgent/Sync/Stale.antt =====
-- What `synchronize` makes of replies that earlier connections left in the stream.
use virtle.Prelude.{
  ap, ◌∙◌, ℕ, zero, suc, ◌+◌, ◌<◌, ◌≤◌, ◌==◌, Bool, true, false, ◌≡◌, refl, List, [], ◌∷◌, ◌++◌,
  Option, some, length, length-append, All, if◌then◌else◌, arith,
}
use virtle.Prelude.Errors.{Error, Result, ok}
use virtle.GuestAgent.Sync.{
  ℤ, keep, read_loop, read_delimited, checked, scanned, sync_loop, synchronize, is_sync, sync_id,
}

-- No byte of a list is the delimiter.
Free : ℕ → List ℕ → Type 0
Free delimiter bytes = All (λ b. b == delimiter ≡ false) bytes

read_loop_lem :
    (e : Error) (delimiter limit : ℕ) (retain : Bool) (size : ℕ) (segment rest : List ℕ)
    → Free delimiter segment
    → size + length segment ≤ limit
    → read_loop e delimiter limit retain size (segment ++ delimiter ∷ rest)
      ≡ ok ((if retain then segment else []), rest)
unfolding read_loop Free keep
read_loop_lem e delimiter limit true size [] rest f p = ground arith
read_loop_lem e delimiter limit false size [] rest f p = ground arith
read_loop_lem e delimiter limit true size (b ∷ segment) rest f p =
    ground (arith, read_loop_lem e delimiter limit true (suc size) segment rest f.1 (omega arith))
read_loop_lem e delimiter limit false size (b ∷ segment) rest f p =
    ground (arith, read_loop_lem e delimiter limit false (suc size) segment rest f.1 (omega arith))

-- A reply as the stream has it: what comes before it, and its line.
pub record Reply : Type 0 where
  pub noise : List ℕ
  pub line : List ℕ

abbrev pub on_wire : Reply → List ℕ → List ℕ
on_wire r rest = r.noise ++ 255 ∷ (r.line ++ 10 ∷ rest)

abbrev pub all_on_wire : List Reply → List ℕ → List ℕ
all_on_wire [] rest = rest
all_on_wire (r ∷ rs) rest = on_wire r (all_on_wire rs rest)

-- A reply within the limit whose delimiters are where they should be.
unfoldable pub IsReply : ℕ → Reply → Type 0
unfolding Free
IsReply limit r =
    Free 255 r.noise × Free 10 r.line × (length r.noise ≤ limit) × (length r.line ≤ limit)

length-line : (noise line rest : List ℕ) → length rest < length (noise ++ 255 ∷ (line ++ 10 ∷ rest))
length-line noise line rest =
    omega (arith, length-append noise (255 ∷ (line ++ 10 ∷ rest)), length-append line (10 ∷ rest))

module _ (returned : List ℕ → Option ℤ) (e : Error) (limit : ℕ) where
  one_lem :
      (rounds : ℕ) (r : Reply) (rest : List ℕ)
      → IsReply limit r
      → sync_loop returned e limit (suc rounds) (on_wire r rest)
        ≡ (if is_sync (returned r.line) then ok rest else sync_loop returned e limit rounds rest)
  unfolding sync_loop scanned checked IsReply read_delimited
  one_lem rounds r rest p =
      let go : List ℕ → Result (List ℕ) = λ bytes. sync_loop returned e limit rounds bytes in
      ap (λ x. scanned returned e limit x go)
        (read_loop_lem e 255 limit false 0 r.noise (r.line ++ 10 ∷ rest) p.0 (omega (arith, p.2)))
      ∙ ap (λ x. checked returned e limit x go)
          (read_loop_lem e 10 limit true 0 r.line rest p.1 (omega (arith, p.3)))

  -- Replies that are not to the sync are skipped.
  stale_lem :
      (rounds : ℕ) (rs : List Reply) (r : Reply) (rest : List ℕ)
      → All (λ s. IsReply limit s × (is_sync (returned s.line) ≡ false)) rs
      → IsReply limit r
      → is_sync (returned r.line) ≡ true
      → length (all_on_wire rs (on_wire r rest)) < rounds
      → sync_loop returned e limit rounds (all_on_wire rs (on_wire r rest)) ≡ ok rest
  stale_lem zero rs r rest p q s l = absurd (omega arith)
  stale_lem (suc rounds) [] r rest p q s l = one_lem rounds r rest q ∙ rw s refl
  stale_lem (suc rounds) (t ∷ rs) r rest p q s l =
      one_lem rounds t (all_on_wire rs (on_wire r rest)) p.0.0
      ∙ rw p.0.1 (
          stale_lem rounds rs r rest p.1 q s
            (omega (arith, length-line t.noise t.line (all_on_wire rs (on_wire r rest)))))

  -- `synchronize` returns where the first reply to a sync ends, after whatever other replies stand before
  -- it, each with noise before it, if no part is longer than the limit. The reply may be to this
  -- connection's sync or be left over from an earlier one's: every connection has the same id.
  pub synchronize_stale :
      (rs : List Reply) (r : Reply) (rest : List ℕ)
      → All (λ s. IsReply limit s × (is_sync (returned s.line) ≡ false)) rs
      → IsReply limit r
      → returned r.line ≡ some sync_id
      → synchronize returned e limit (all_on_wire rs (on_wire r rest)) ≡ ok rest
  unfolding synchronize
  synchronize_stale rs r rest p q s =
      stale_lem (suc (length (all_on_wire rs (on_wire r rest)))) rs r rest p q (rw s refl)
        (omega arith)
