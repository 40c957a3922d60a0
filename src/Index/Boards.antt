-- ===== src/Index/Boards.antt =====
-- The board table as a list, `All`, and as a map, `ByProductName`.
use mathlib.Core.List.{map}
use llmfit_dra.Prelude.{
  String, Option, none, some, List, [], ◌∷◌, Bool, true, false, ◌||◌, ◌&&◌, ◌==◌, ◌≡◌, refl, ◌∙◌,
  any, arith, eq_iff,
}
use llmfit_dra.Prelude.Maps.{GoMap, lookup, distinct_keys}
use llmfit_dra.Index.{
  NvidiaBoard, NvidiaBoards, insert_board, sort_boards, all_boards, name_boards, load_nvidia_boards,
  by_product_name,
}

any-insert_board :
    (f : NvidiaBoard → Bool) (b : NvidiaBoard) (bs : List NvidiaBoard)
    → any f (insert_board b bs) ≡ (f b || any f bs)
unfolding insert_board
any-insert_board f b [] = refl
any-insert_board f b (c ∷ rest) = ground (arith, any-insert_board f b rest)

any-sort_boards :
    (f : NvidiaBoard → Bool) (bs : List NvidiaBoard) → any f (sort_boards bs) ≡ any f bs
unfolding sort_boards
any-sort_boards f [] = refl
any-sort_boards f (b ∷ rest) =
    ground (arith, any-insert_board f b (sort_boards rest), any-sort_boards f rest)

abbrev pub found_passes : (NvidiaBoard → Bool) → Option NvidiaBoard → Bool
found_passes f none = false
found_passes f (some b) = f b

-- A test of the board of a name.
abbrev pub board_passes : (NvidiaBoard → Bool) → NvidiaBoards → String → Bool
board_passes f boards name = found_passes f (by_product_name boards name)

missing-none :
    (f : NvidiaBoard → Bool) (name : String) (parsed : GoMap NvidiaBoard)
    → lookup name (name_boards parsed) ≡ none
    → any (λ b. b.product_name == name && f b) (map (λ e. e.1) (name_boards parsed)) ≡ false
unfolding name_boards lookup
missing-none f name [] h = refl
missing-none f name ((key, b) ∷ rest) h = ground (arith, missing-none f name rest)

pub lookup-name_boards :
    (name : String) (parsed : GoMap NvidiaBoard)
    → lookup name parsed ≡ none
    → lookup name (name_boards parsed) ≡ none
unfolding name_boards lookup
lookup-name_boards name [] h = refl
lookup-name_boards name ((key, b) ∷ rest) h = ground (arith, lookup-name_boards name rest)

any-name_boards :
    (f : NvidiaBoard → Bool) (name hash : String) (parsed : GoMap NvidiaBoard)
    → distinct_keys parsed ≡ true
    → any (λ b. b.product_name == name && f b) (map (λ e. e.1) (name_boards parsed))
      ≡ board_passes f (load_nvidia_boards parsed hash) name
unfolding name_boards lookup load_nvidia_boards by_product_name
any-name_boards f name hash [] h = refl
any-name_boards f name hash ((key, b) ∷ rest) h = ground (
  arith,
  any-name_boards f name hash rest,
  lookup-name_boards key rest,
  missing-none f key rest,
  eq_iff key name,
)

-- In a loaded table a board of a name passes exactly if the one that is found under the name does.
pub any-all_boards :
    (f : NvidiaBoard → Bool) (name hash : String) (parsed : GoMap NvidiaBoard)
    → distinct_keys parsed ≡ true
    → any (λ b. b.product_name == name && f b) (all_boards (load_nvidia_boards parsed hash))
      ≡ board_passes f (load_nvidia_boards parsed hash) name
unfolding all_boards load_nvidia_boards
any-all_boards f name hash parsed h =
    any-sort_boards (λ b. b.product_name == name && f b) (map (λ e. e.1) (name_boards parsed))
    ∙ any-name_boards f name hash parsed h
