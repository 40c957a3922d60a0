-- ===== src/Tests/NvidiaSelectors.antt =====
-- The selector of NVIDIA's devices on a table with one board.
use llmfit_dra.Prelude.{
  String, ◌≡◌, refl, none, some, List, [], ◌∷◌, true, arith, select, length, not, ◌*◌, ◌^◌,
}
use llmfit_dra.Prelude.Maps.{GoMap, lookup, distinct_keys}
use llmfit_dra.Prelude.Int64.{pos}
use llmfit_dra.Index.{NvidiaBoard, NvidiaBoards, load_nvidia_boards}
use llmfit_dra.Resource.{Device, ResourceSlice, string_attr}
use llmfit_dra.ModelClaim.Backend.{nvidia_driver_domain}
use llmfit_dra.ModelClaim.Thresholds.Machine.{board_of}
use llmfit_dra.ModelClaim.Cel.{meaning, of_bool, render}
use llmfit_dra.ModelClaim.Cel.Nvidia.{nvidia_fit_cel}
use llmfit_dra.ModelClaim.Cel.Nvidia.Render.{nvidia_expr, nvidia_fit_cel-render}
use llmfit_dra.ModelClaim.Cel.Nvidia.Floor.{HasFloor}
use llmfit_dra.ModelClaim.Cel.Nvidia.Agrees.{IsPublished, query, nvidia_expr-meets}
use llmfit_dra.ModelClaim.Cel.Nvidia.Counts.{selected, evaluate_nvidia_slices-selected}
use llmfit_dra.ModelClaim.Satisfiable.Tally.Matching.{is_held}
use llmfit_dra.ModelClaim.Satisfiable.Nvidia.Counts.{meets_nvidia}
use llmfit_dra.ModelClaim.Satisfiable.Nvidia.Scan.{evaluate_nvidia_slices}
use llmfit_dra.Tests.Fixtures.{a100, bounds_of, counting}

abbrev table : GoMap NvidiaBoard
table = ("NVIDIA A100-SXM4-80GB", board_of a100) ∷ []

abbrev one_board : NvidiaBoards
one_board = load_nvidia_boards table "sha256:1f"

nvidia_fit_cel-render_example :
    nvidia_fit_cel (bounds_of 16 900) one_board "mig.nvidia.com" (pos 100)
    ≡ render nvidia_driver_domain
        (nvidia_expr (bounds_of 16 900) one_board "mig.nvidia.com" (pos 100))
nvidia_fit_cel-render_example =
    nvidia_fit_cel-render (bounds_of 16 900) one_board "mig.nvidia.com" (pos 100)

-- The partition 4g.40gb of the board.
abbrev partition : Device
partition = record {
  name = "gpu-0-mig-5-0-4";
  attributes =
      ("type", string_attr "mig") ∷ ("productName", string_attr "NVIDIA A100-SXM4-80GB") ∷ [];
  capacity = ("memory", pos (40192 * 2 ^ 20)) ∷ ("multiprocessors", pos 56) ∷ [];
  taints = [];
}

has_floor : HasFloor (bounds_of 16 900)
has_floor = record { some_memory = omega arith; floor_fits = omega arith }

partition-IsPublished : IsPublished partition
unfolding lookup
partition-IsPublished = record {
  kind_text = refl;
  product_text = refl;
  memory_fits = (omega arith, omega arith);
}

one_entry : distinct_keys table ≡ true
unfolding lookup
one_entry = refl

no_unnamed : lookup "" table ≡ none
unfolding lookup
no_unnamed = refl

nvidia_expr-meets_example :
    meaning (nvidia_expr (bounds_of 16 900) one_board "mig.nvidia.com" (pos 100)) partition
    ≡ of_bool
        (meets_nvidia (query (bounds_of 16 900) "mig.nvidia.com" (pos 100)) one_board partition)
nvidia_expr-meets_example =
    nvidia_expr-meets partition (bounds_of 16 900) "mig.nvidia.com" "sha256:1f" (pos 100) table
      has_floor one_entry no_unnamed partition-IsPublished

abbrev slices : List ResourceSlice
slices =
    record {
      driver = "gpu.nvidia.com";
      pool_name = "node-b";
      pool_generation = pos 1;
      node_name = some "node-b";
      devices = partition ∷ [];
    }
    ∷ []

abbrev quote : String → String
quote s = s

abbrev all_selected : List (ResourceSlice × Device)
all_selected = selected slices (bounds_of 16 900) "" (pos 100) table "sha256:1f"

evaluate_nvidia_slices-selected_example :
    ((evaluate_nvidia_slices counting quote slices []
        (bounds_of 16 900)
        ""
        (pos 100)
        one_board).devices
      ≡ length all_selected)
    × ((evaluate_nvidia_slices counting quote slices []
          (bounds_of 16 900)
          ""
          (pos 100)
          one_board).available
        ≡ length (select (λ e. not (is_held [] e)) all_selected))
evaluate_nvidia_slices-selected_example =
    evaluate_nvidia_slices-selected counting quote slices [] (bounds_of 16 900) "" "sha256:1f"
      (pos 100) table has_floor one_entry no_unnamed ((partition-IsPublished, tt), tt)
