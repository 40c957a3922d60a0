-- ===== src/Tests/Selectors.antt =====
-- Selectors, the static evaluation of two slices, and templates.
use llmfit_dra.Prelude.{List, ◌∷◌, some, ◌≤◌, ◌≡◌, ◌↔◌, refl, false, arith, [], not, length, select}
use llmfit_dra.Prelude.Maps.{lookup}
use llmfit_dra.Prelude.Text.{decimal, join_with}
use llmfit_dra.Prelude.Int64.{pos, decimal64}
use llmfit_dra.ModelClaim.Backend.{driver_domain}
use llmfit_dra.ModelClaim.Cel.{cel_product_list, render, meaning, of_bool}
use llmfit_dra.ModelClaim.Cel.Fit.{fit_cel, fit_expr, fit_cel-render}
use llmfit_dra.ModelClaim.Cel.Agrees.{IsTyped, fit_expr-fits}
use llmfit_dra.ModelClaim.Satisfiable.Assess.{fits, assess}
use llmfit_dra.ModelClaim.Satisfiable.Tally.Matching.{is_held}
use llmfit_dra.ModelClaim.Satisfiable.Llmfit.Evaluate.{result, found, evaluate_slices_counts}
use llmfit_dra.Resource.{ResourceSlice, string_attr}
use llmfit_dra.ModelClaim.Template.{build_template, template_needs_update}
use llmfit_dra.ModelClaim.Template.Drift.{
  SameRequests, Agrees, template_needs_update_iff, update-settles,
}
use llmfit_dra.ModelClaim.Controller.Sync.{apply_desired}
use llmfit_dra.Tests.Fixtures.{bounds_of, gpu, two_slices, held, counting, claim, no_boards, stray}

fit_cel-render_example :
    fit_cel (bounds_of 8 600) "gpu.llmfit.ai" (pos 10)
    ≡ render driver_domain (fit_expr (bounds_of 8 600) "gpu.llmfit.ai" (pos 10))
fit_cel-render_example = fit_cel-render (bounds_of 8 600) "gpu.llmfit.ai" (pos 10)

gpu-IsTyped : IsTyped (gpu "gpu-0000-01-00-0" 24)
unfolding lookup
gpu-IsTyped = record { bandwidth = refl; compute = tt; healthy = refl }

fit_expr-fits_example :
    meaning (fit_expr (bounds_of 8 600) "gpu.llmfit.ai" (pos 10)) (gpu "gpu-0000-01-00-0" 24)
    ≡ of_bool (
        fits (
          assess
            (record { bounds = bounds_of 8 600; class = "gpu.llmfit.ai"; min_compute = pos 10 })
            (gpu "gpu-0000-01-00-0" 24)))
fit_expr-fits_example =
    fit_expr-fits (bounds_of 8 600) "gpu.llmfit.ai" 10 (gpu "gpu-0000-01-00-0" 24) (omega arith)
      (omega arith) gpu-IsTyped

evaluate_slices_counts_example :
    ((result counting two_slices held (bounds_of 8 600) "llmfit.ai" (pos 0)).devices
      ≡ length (found counting two_slices held (bounds_of 8 600) "llmfit.ai" (pos 0)))
    × ((result counting two_slices held (bounds_of 8 600) "llmfit.ai" (pos 0)).available
        ≡ length (
            select
              (λ e. not (is_held held e))
              (found counting two_slices held (bounds_of 8 600) "llmfit.ai" (pos 0))))
    × ((result counting two_slices held (bounds_of 8 600) "llmfit.ai" (pos 0)).nodes
        ≤ (result counting two_slices held (bounds_of 8 600) "llmfit.ai" (pos 0)).devices)
    × ((result counting two_slices held (bounds_of 8 600) "llmfit.ai" (pos 0)).available
        ≤ (result counting two_slices held (bounds_of 8 600) "llmfit.ai" (pos 0)).devices)
evaluate_slices_counts_example =
    evaluate_slices_counts counting two_slices held (bounds_of 8 600) "llmfit.ai" (pos 0)

template_needs_update_iff_example :
    (template_needs_update stray
        (build_template (claim "a/b") (bounds_of 8 600) "llmfit.ai" [] no_boards)
      ≡ false)
    ↔ (SameRequests stray.requests
          (build_template (claim "a/b") (bounds_of 8 600) "llmfit.ai" [] no_boards).requests
        × Agrees stray.annotations
            (build_template (claim "a/b") (bounds_of 8 600) "llmfit.ai" [] no_boards).annotations)
template_needs_update_iff_example =
    template_needs_update_iff stray
      (build_template (claim "a/b") (bounds_of 8 600) "llmfit.ai" [] no_boards)

update-settles_example :
    template_needs_update
      (apply_desired stray
        (build_template (claim "a/b") (bounds_of 8 600) "gpu.nvidia.com" [] no_boards))
      (build_template (claim "a/b") (bounds_of 8 600) "gpu.nvidia.com" [] no_boards)
    ≡ false
update-settles_example =
    update-settles stray (claim "a/b") (bounds_of 8 600) "gpu.nvidia.com" [] no_boards

-- NVIDIA's driver publishes a board that an empty table does not know.
abbrev unknown_board : List ResourceSlice
unknown_board =
    record {
      driver = "gpu.nvidia.com";
      pool_name = "node-b";
      pool_generation = pos 1;
      node_name = some "node-b";
      devices =
          record {
            name = "gpu-0";
            attributes =
                ("type", string_attr "gpu") ∷ ("productName", string_attr "NVIDIA X1") ∷ [];
            capacity = ("memory", pos 85899345920) ∷ [];
            taints = [];
          }
          ∷ [];
    }
    ∷ []

-- The texts themselves, for a CPU, for an NPU with a compute floor, and for two products.
cpu_text :
    fit_cel (bounds_of 8 600) "cpu.llmfit.ai" (pos 0)
    ≡ "'memory' in device.capacity['llmfit.ai'] && device.capacity['llmfit.ai'].memory.compareTo(quantity('8Gi')) >= 0 && 'healthy' in device.attributes['llmfit.ai'] && device.attributes['llmfit.ai'].healthy"
unfolding fit_cel decimal
cpu_text = refl

npu_text :
    fit_cel (bounds_of 8 600) "npu.llmfit.ai" (pos 10)
    ≡ "'memory' in device.capacity['llmfit.ai'] && device.capacity['llmfit.ai'].memory.compareTo(quantity('8Gi')) >= 0 && 'memoryBandwidthGBs' in device.attributes['llmfit.ai'] && device.attributes['llmfit.ai'].memoryBandwidthGBs >= 600 && 'healthy' in device.attributes['llmfit.ai'] && device.attributes['llmfit.ai'].healthy && 'computeTFLOPS' in device.attributes['llmfit.ai'] && device.attributes['llmfit.ai'].computeTFLOPS >= 10"
unfolding fit_cel decimal decimal64
npu_text = refl

products_text :
    cel_product_list ("NVIDIA A100" ∷ "NVIDIA H100" ∷ []) ≡ "['NVIDIA A100', 'NVIDIA H100']"
unfolding cel_product_list join_with
products_text = refl
