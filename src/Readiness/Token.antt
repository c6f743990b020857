-- ===== src/Readiness/Token.antt =====
-- In how many pieces a readiness token arrives does not matter.
use virtle.Prelude.{
  ◌⊎◌, ℕ, ◌≤◌, ◌<◌, Bool, true, false, ◌&&◌, ◌≡◌, refl, ap, sym, ◌∙◌, List, [], ◌∷◌, ◌++◌, length,
  length-append, append_assoc, append-nil, none, some, if◌then◌else◌, arith, Bool-cases, inl, inr,
}
use virtle.Readiness.{
  or_later, token_limit, is_space, trim_left, is_empty, trim_right, trim_space, has_prefix, same,
  examine, Read, after_read, examine_read, read_loop, read_token,
}

unfoldable pub all_space : List ℕ → Bool
all_space [] = true
all_space (c ∷ s) = is_space c && all_space s

unfoldable pub joined : List (List ℕ) → List ℕ
joined [] = []
joined (p ∷ ps) = p ++ joined ps

-- Reads that return these bytes and no error.
unfoldable pub reads_of : List (List ℕ) → List Read
reads_of [] = []
reads_of (p ∷ ps) = record { bytes = p; error = none } ∷ reads_of ps

same_refl : (s : List ℕ) → same s s ≡ true
unfolding same
same_refl [] = refl
same_refl (c ∷ s) = ground (arith, same_refl s)

trim_space_all : (ws : List ℕ) → all_space ws ≡ true → trim_right ws ≡ []
unfolding trim_right all_space is_empty
trim_space_all [] h = refl
trim_space_all (c ∷ ws) h =
    let space : (is_space c ≡ true) × (all_space ws ≡ true) = (ground arith, ground arith) in
    rw (space.0, trim_space_all ws space.1) refl

-- Trailing white space is trimmed.
trim_right-append : (e ws : List ℕ) → all_space ws ≡ true → trim_right (e ++ ws) ≡ trim_right e
unfolding trim_right
trim_right-append [] ws h = trim_space_all ws h
trim_right-append (c ∷ e) ws h =
    ap (λ r. if is_space c && is_empty r then [] else c ∷ r) (trim_right-append e ws h)

all_space-first : (p q : List ℕ) → all_space (p ++ q) ≡ true → all_space p ≡ true
unfolding all_space
all_space-first [] q h = refl
all_space-first (c ∷ p) q h =
    let rest : all_space p ≡ true = all_space-first p q (ground arith) in ground arith

first_of : List ℕ → ℕ
first_of [] = 0
first_of (c ∷ s) = c

rest_of : List ℕ → List ℕ
rest_of [] = []
rest_of (c ∷ s) = s

prefix_cons :
    (c d : ℕ) (e r : List ℕ)
    → c ≡ d
    → has_prefix e r ≡ true
    → has_prefix (c ∷ e) (if is_space d && is_empty r then [] else d ∷ r) ≡ true
unfolding has_prefix is_empty
prefix_cons c d e r h p = ground arith

-- What is trimmed of a first part of a token is a prefix of it.
prefix_lem :
    (p q e ws : List ℕ)
    → all_space ws ≡ true
    → p ++ q ≡ e ++ ws
    → has_prefix e (trim_right p) ≡ true
unfolding trim_right has_prefix first_of rest_of
prefix_lem [] q [] ws h eq = refl
prefix_lem [] q (c ∷ e) ws h eq = refl
prefix_lem (d ∷ p) q [] ws h eq =
    let spaces : all_space ((d ∷ p) ++ q) ≡ true = ap all_space eq ∙ h in
    ap (has_prefix []) (trim_space_all (d ∷ p) (all_space-first (d ∷ p) q spaces))
prefix_lem (d ∷ p) q (c ∷ e) ws h eq =
    prefix_cons c d e (trim_right p) (sym (ap first_of eq)) (prefix_lem p q e ws h (ap rest_of eq))

nothing_left : (q : List ℕ) → (q ≡ []) ⊎ (0 < length q)
nothing_left [] = inl refl
nothing_left (d ∷ q) = inr (omega arith)

-- A token that starts with no space: c ∷ e, then white space ws, arrives.
module _ (c : ℕ) (e ws : List ℕ) (starts : is_space c ≡ false) (ends : trim_right (c ∷ e) ≡ c ∷ e)
    (space : all_space ws ≡ true) (short : length ((c ∷ e) ++ ws) ≤ token_limit) where
  -- The text of the whole.
  left_lem : (p q : List ℕ) → p ++ q ≡ (c ∷ e) ++ ws → trim_left p ≡ p
  unfolding trim_left first_of
  left_lem [] q eq = refl
  left_lem (d ∷ p) q eq =
      let d_starts : is_space d ≡ false = ap is_space (ap first_of eq) ∙ starts in rw d_starts refl

  whole_lem : examine (c ∷ e) ((c ∷ e) ++ ws) ≡ some none
  unfolding examine trim_space
  whole_lem =
      let trimmed : trim_right (trim_left ((c ∷ e) ++ ws)) ≡ c ∷ e =
        ap trim_right (left_lem ((c ∷ e) ++ ws) [] (append-nil ((c ∷ e) ++ ws)))
        ∙ trim_right-append (c ∷ e) ws space
        ∙ ends in
      rw (trimmed, same_refl (c ∷ e)) refl

  part_lem :
      (p q : List ℕ)
      → p ++ q ≡ (c ∷ e) ++ ws
      → (examine (c ∷ e) p ≡ some none) ⊎ (examine (c ∷ e) p ≡ none)
  unfolding examine trim_space
  part_lem p q eq =
      let trimmed : trim_right (trim_left p) ≡ trim_right p = ap trim_right (left_lem p q eq) in
      let first : has_prefix (c ∷ e) (trim_right p) ≡ true = prefix_lem p q (c ∷ e) ws space eq in
      let small : length p ≤ token_limit = omega (arith, length-append p q, ap length eq, short) in
      elim (Bool-cases (same (trim_space p) (c ∷ e))) [
        | inl h ↦ inl (rw h refl)
        | inr h ↦ inr (ground arith)
      ]

  -- One read that brings bytes, and more to come.
  after_lem :
      (bytes : List ℕ) (d : ℕ) (p : List ℕ) (ps : List (List ℕ))
      → (examine (c ∷ e) (bytes ++ (d ∷ p)) ≡ some none)
        ⊎ ((examine (c ∷ e) (bytes ++ (d ∷ p)) ≡ none)
            × (read_loop (c ∷ e) (bytes ++ (d ∷ p)) (reads_of ps) ≡ some none))
      → read_loop (c ∷ e) bytes (reads_of ((d ∷ p) ∷ ps)) ≡ some none
  unfolding read_loop reads_of examine_read is_empty after_read or_later
  after_lem bytes d p ps (inl h) = rw h refl
  after_lem bytes d p ps (inr (h, later)) = rw (h, later) refl

  loop_lem :
      (bytes : List ℕ) (ps : List (List ℕ))
      → bytes ++ joined ps ≡ (c ∷ e) ++ ws
      → 0 < length (joined ps)
      → read_loop (c ∷ e) bytes (reads_of ps) ≡ some none
  unfolding read_loop reads_of examine_read is_empty after_read or_later joined
  loop_lem bytes [] eq more = absurd (omega arith)
  loop_lem bytes ([] ∷ ps) eq more =
      loop_lem (bytes ++ []) ps (ap (λ b. b ++ joined ps) (append-nil bytes) ∙ eq) more
  loop_lem bytes ((d ∷ p) ∷ ps) eq more =
      let rest : (bytes ++ (d ∷ p)) ++ joined ps ≡ (c ∷ e) ++ ws =
        append_assoc bytes (d ∷ p) (joined ps) ∙ eq in
      elim (nothing_left (joined ps)) [
        | inl done ↦ after_lem bytes d p ps (
            inl (
              ap (examine (c ∷ e)) (
                sym (append-nil (bytes ++ (d ∷ p)))
                ∙ ap (λ r. (bytes ++ (d ∷ p)) ++ r) (sym done)
                ∙ rest)
              ∙ whole_lem))
        | inr left ↦ elim (part_lem (bytes ++ (d ∷ p)) (joined ps) rest) [
          | inl h ↦ after_lem bytes d p ps (inl h)
          | inr h ↦ after_lem bytes d p ps (inr (h, loop_lem (bytes ++ (d ∷ p)) ps rest left))
        ]
      ]

-- A token that neither starts nor ends with white space and has 64 bytes at most, white space after it
-- included, is accepted however it is cut into pieces, empty ones too.
pub read_token_pieces :
    (c : ℕ) (e ws : List ℕ) (ps : List (List ℕ))
    → is_space c ≡ false
    → trim_right (c ∷ e) ≡ c ∷ e
    → all_space ws ≡ true
    → length ((c ∷ e) ++ ws) ≤ token_limit
    → joined ps ≡ (c ∷ e) ++ ws
    → read_token (c ∷ e) (reads_of ps) ≡ some none
unfolding read_token
read_token_pieces c e ws ps starts ends space short eq =
    loop_lem c e ws starts ends space short [] ps eq (omega (arith, ap length eq))
