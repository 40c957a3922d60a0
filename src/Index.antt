-- ===== src/Index.antt =====
-- internal/index: the capability index and the NVIDIA board table. Both tables are embedded JSON
-- that the build reads, so their contents are a parameter of everything below.
pub mod Boards
use mathlib.Core.List.{map}
use llmfit_dra.Prelude.{String, Option, List, [], ◌∷◌, Bool, if◌then◌else◌, length, ℕ}
use llmfit_dra.Prelude.Maps.{GoMap, lookup}
use llmfit_dra.Prelude.Text.{text_leb}
use llmfit_dra.Prelude.Int64.{ℤ}
use Prim.Native.String.{◌++◌}

pub record Entry : Type 0 where
  pub model : String
  pub memory_bandwidth_gbs : ℤ
  pub compute_tflops : ℤ
  pub unified_memory : Bool

-- `Index`, from "vendor:device" to the entry.
pub record Index : Type 0 where
  pub entries : GoMap Entry

unfoldable pub lookup_entry : Index → String → String → Option Entry
lookup_entry i pci_vendor pci_device = lookup (pci_vendor ++ ":" ++ pci_device) i.entries

pub record NvidiaBoard : Type 0 where
  pub product_name : String
  pub memory_mib : ℤ
  pub memory_bandwidth_gbs : ℤ
  pub compute_tflops : ℤ
  pub sm_count : ℤ
  pub memory_slices : ℤ

pub record NvidiaBoards : Type 0 where
  pub boards : GoMap NvidiaBoard
  pub version : String

-- The loop of `LoadNvidiaBoards` that writes each key into its board.
unfoldable pub name_boards : GoMap NvidiaBoard → GoMap NvidiaBoard
name_boards [] = []
name_boards ((name, b) ∷ rest) = (name, record b { product_name = name }) ∷ name_boards rest

unfoldable pub load_nvidia_boards : GoMap NvidiaBoard → String → NvidiaBoards
unfolding name_boards
load_nvidia_boards parsed hash = record { boards = name_boards parsed; version = hash }

unfoldable pub by_product_name : NvidiaBoards → String → Option NvidiaBoard
by_product_name n name = lookup name n.boards

insert_board : NvidiaBoard → List NvidiaBoard → List NvidiaBoard
insert_board b [] = b ∷ []
insert_board b (c ∷ rest) =
    if text_leb b.product_name c.product_name then b ∷ c ∷ rest else c ∷ insert_board b rest

sort_boards : List NvidiaBoard → List NvidiaBoard
sort_boards [] = []
sort_boards (b ∷ rest) = insert_board b (sort_boards rest)

-- `All`: every board, sorted by product name.
unfoldable pub all_boards : NvidiaBoards → List NvidiaBoard
unfolding insert_board sort_boards
all_boards n = sort_boards (map (λ e. e.1) n.boards)

unfoldable pub num_boards : NvidiaBoards → ℕ
num_boards n = length n.boards
