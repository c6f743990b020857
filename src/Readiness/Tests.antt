-- ===== src/Readiness/Tests.antt =====
-- The theorem on readiness tokens at a concrete input.
use virtle.Prelude.{[], ◌∷◌, ◌≡◌, refl, none, some, arith}
use virtle.Readiness.{is_space, trim_right, read_token}
use virtle.Readiness.Token.{all_space, joined, reads_of, read_token_pieces}

-- "ok" and a line feed, in three pieces of which one is empty.
read_token_pieces_example :
    read_token (111 ∷ 107 ∷ []) (reads_of ((111 ∷ []) ∷ [] ∷ (107 ∷ 10 ∷ []) ∷ [])) ≡ some none
unfolding is_space trim_right all_space joined
read_token_pieces_example =
    read_token_pieces 111 (107 ∷ []) (10 ∷ []) ((111 ∷ []) ∷ [] ∷ (107 ∷ 10 ∷ []) ∷ []) refl refl
      refl (omega arith) refl
