-- ===== src/Ir/Like.antt =====
-- crates/adabt-ir/src/expr.rs: `LIKE` patterns. A `char` is its code point.
pub mod Meaning
use a_da_bt.Prelude.{
  ℕ, String, Bool, true, false, ◌&&◌, ◌||◌, List, [], ◌∷◌, codes, ◌==◌, if◌then◌else◌,
}

pub data Piece : Type 0 where
  literal : ℕ → Piece
  any_run any_one : Piece

-- The loop of `parse_like_pattern` on the characters left.
unfoldable pub parse_pieces : List ℕ → List Piece
parse_pieces [] = []
parse_pieces (c ∷ []) =
    (if c == b'%' then any_run else if c == b'_' then any_one else literal c) ∷ []
parse_pieces (c ∷ d ∷ cs) =
    let escaped = literal d ∷ parse_pieces cs in
    let rest = parse_pieces (d ∷ cs) in
    if c == b'%'
    then any_run ∷ rest
    else if c == b'_'
    then any_one ∷ rest
    else if c == 92
    then escaped
    else literal c ∷ rest

unfoldable pub parse_like_pattern : String → List Piece
unfolding parse_pieces
parse_like_pattern pattern = parse_pieces (codes pattern)

unfoldable pub matches_from : List ℕ → List Piece → Bool
matches_from [] [] = true
matches_from (t ∷ ts) [] = false
matches_from [] (any_run ∷ ps) = matches_from [] ps
matches_from (t ∷ ts) (any_run ∷ ps) =
    let later = matches_from ts (any_run ∷ ps) in matches_from (t ∷ ts) ps || later
matches_from [] (any_one ∷ ps) = false
matches_from (t ∷ ts) (any_one ∷ ps) = matches_from ts ps
matches_from [] (literal c ∷ ps) = false
matches_from (t ∷ ts) (literal c ∷ ps) = t == c && matches_from ts ps

unfoldable pub like_matches : String → String → Bool
unfolding parse_like_pattern matches_from
like_matches text pattern = matches_from (codes text) (parse_like_pattern pattern)
