-- ===== src/Manifest/Ports/Endpoints.antt =====
-- An endpoint that is printed and parsed again.
use virtle.Prelude.{
  ℕ, ◌≤◌, ◌==◌, false, ◌≡◌, refl, ap, sym, ◌∙◌, List, [], ◌∷◌, ◌++◌, none, some, arith, Bool-cases,
  inl, inr, append_assoc,
}
use virtle.Prelude.Int.{ltb_ℤ, leb_ℤ, ℤ, pos}
use virtle.Prelude.Errors.{ok}
use virtle.Units.{parse_int, print_int}
use virtle.Units.Numbers.{Shown, print_int-Shown, parse_print}
use virtle.Manifest.Ports.{
  has, add_front, at_last_colon, add_inner, closed, unless_bracket, split_host, or_front, with_port,
  at_port, parts, parse_port_endpoint, format_port_endpoint,
}

-- Digits have no colons and no brackets.
digits_no_colon : (ds : List ℕ) → Shown ds → at_last_colon ds ≡ none
unfolding at_last_colon add_front
digits_no_colon [] h = refl
digits_no_colon (c ∷ ds) h =
    let other : (c == 58) ≡ false = ground arith in rw (digits_no_colon ds h.1, other) refl

has-digits : (b : ℕ) (ds : List ℕ) → 58 ≤ b → Shown ds → has b ds ≡ false
unfolding has
has-digits b [] l h = refl
has-digits b (c ∷ ds) l h =
    let other : (c == b) ≡ false = ground arith in rw (other, has-digits b ds l h.1) refl

-- The last colon is the one before the port.
colon-append : (h ds : List ℕ) → Shown ds → at_last_colon (h ++ (58 ∷ ds)) ≡ some (h, ds)
unfolding at_last_colon add_front
colon-append [] ds s = rw (digits_no_colon ds s) refl
colon-append (c ∷ h) ds s = rw (colon-append h ds s) refl

closed-append : (h : List ℕ) → has 93 h ≡ false → closed (h ++ (93 ∷ [])) ≡ some h
unfolding closed add_inner has
closed-append [] h = refl
closed-append (c ∷ []) h = let other : (c == 93) ≡ false = ground arith in rw other refl
closed-append (c ∷ d ∷ s) h =
    let other : (c == 93) ≡ false = ground arith in
    let rest : has 93 (d ∷ s) ≡ false = ground arith in rw (other, closed-append (d ∷ s) rest) refl

parsed_lem : (h ds : List ℕ) (p : ℤ) → parse_int ds ≡ some p → at_port h ds ≡ with_port h (some p)
unfolding at_port parse_int
parsed_lem h [] p e = absurd (ground arith)
parsed_lem h (c ∷ ds) p e = ap (with_port h) e

-- The port of an endpoint.
port_lem :
    (h : List ℕ) (n : ℕ)
    → 1 ≤ n
    → n ≤ 65535
    → at_port h (print_int (pos n)) ≡ ok (record { address = h; port = pos n })
unfolding with_port
port_lem h n l u =
    let low : leb_ℤ (pos n) (pos 0) ≡ false = ground arith in
    let high : ltb_ℤ (pos 65535) (pos n) ≡ false = ground arith in
    parsed_lem h (print_int (pos n)) (pos n) (parse_print (pos n) (omega arith, omega arith))
    ∙ rw (low, high) refl

-- The host of an endpoint, with brackets if it has colons.
plain_host :
    (h ds : List ℕ)
    → Shown ds
    → has 58 h ≡ false
    → has 91 h ≡ false
    → has 93 h ≡ false
    → split_host h ds ≡ some h
unfolding split_host has
plain_host [] ds s a b c =
    rw (has-digits 91 ds (omega arith) s, has-digits 93 ds (omega arith) s) refl
plain_host (d ∷ h) ds s a b c =
    let other : (d == 91) ≡ false = ground arith in
    let rest : has 91 h ≡ false = ground arith in
    rw (other, a, rest, c, has-digits 91 ds (omega arith) s, has-digits 93 ds (omega arith) s) refl

bracketed_host :
    (h ds : List ℕ)
    → Shown ds
    → has 91 h ≡ false
    → has 93 h ≡ false
    → split_host (91 ∷ (h ++ (93 ∷ []))) ds ≡ some h
unfolding split_host unless_bracket
bracketed_host h ds s b c =
    rw (closed-append h c, b, has-digits 91 ds (omega arith) s, has-digits 93 ds (omega arith) s)
      refl

-- An endpoint whose address has no brackets and whose port is one of 1 to 65535 is printed as a text that
-- is parsed as this endpoint, with colons in its address or without.
pub parse_port_endpoint-format :
    (h : List ℕ) (n : ℕ)
    → has 91 h ≡ false
    → has 93 h ≡ false
    → 1 ≤ n
    → n ≤ 65535
    → parse_port_endpoint (format_port_endpoint (record { address = h; port = pos n }))
      ≡ ok (record { address = h; port = pos n })
unfolding parse_port_endpoint format_port_endpoint parts or_front
parse_port_endpoint-format h n b c l u =
    let ds : List ℕ = print_int (pos n) in
    let s : Shown ds = print_int-Shown (pos n) in
    elim (Bool-cases (has 58 h)) [
      | inl colons ↦ rw colons (
          ap (λ t. parts (at_last_colon (91 ∷ t))) (sym (append_assoc h (93 ∷ []) (58 ∷ ds)))
          ∙ ap parts (colon-append (91 ∷ (h ++ (93 ∷ []))) ds s)
          ∙ ap (λ o. at_port (or_front (91 ∷ (h ++ (93 ∷ []))) o) ds) (bracketed_host h ds s b c)
          ∙ port_lem h n l u)
      | inr none_left ↦ rw none_left (
          ap parts (colon-append h ds s)
          ∙ ap (λ o. at_port (or_front h o) ds) (plain_host h ds s none_left b c)
          ∙ port_lem h n l u)
    ]
