-- ===== src/ModelClaim/Backend.antt =====
-- backend.go, and kindForClass of satisfiable.go: what the well-known DeviceClass names select.
use Prim.Native.String.{◌++◌}
use llmfit_dra.Prelude.{
  String, Bool, true, false, ◌||◌, ◌≡◌, ◌⊎◌, ◌↔◌, ◌==◌, eq_iff, arith, if◌then◌else◌,
}

abbrev pub driver_domain : String
driver_domain = "llmfit.ai"

abbrev pub nvidia_driver_domain : String
nvidia_driver_domain = "gpu.nvidia.com"

abbrev pub nvidia_gpu_class : String
nvidia_gpu_class = "gpu.nvidia.com"

abbrev pub nvidia_mig_class : String
nvidia_mig_class = "mig.nvidia.com"

pub data Backend : Type 0 where
  backend_llmfit backend_nvidia : Backend

unfoldable pub backend_for : String → String → Backend
backend_for device_class_name target_driver =
    if target_driver == nvidia_driver_domain
    then backend_nvidia
    else if device_class_name == nvidia_gpu_class || device_class_name == nvidia_mig_class
    then backend_nvidia
    else backend_llmfit

-- The two results are (mig, gpu).
unfoldable pub nvidia_branches_for : String → Bool × Bool
nvidia_branches_for device_class_name =
    if device_class_name == nvidia_mig_class
    then (true, false)
    else if device_class_name == nvidia_gpu_class
    then (false, true)
    else (true, true)

abbrev pub gpu_class : String
gpu_class = "gpu." ++ driver_domain

abbrev pub cpu_class : String
cpu_class = "cpu." ++ driver_domain

abbrev pub npu_class : String
npu_class = "npu." ++ driver_domain

unfoldable pub kind_for_class : String → String
kind_for_class device_class_name =
    if device_class_name == gpu_class
    then "gpu"
    else if device_class_name == cpu_class
    then "cpu"
    else if device_class_name == npu_class
    then "npu"
    else ""

-- Every class admits at least one NVIDIA device type.
pub nvidia_branches_nonempty :
    (c : String) → ((nvidia_branches_for c).0 || (nvidia_branches_for c).1) ≡ true
unfolding nvidia_branches_for
nvidia_branches_nonempty c = ground arith

-- The NVIDIA backend is chosen exactly for NVIDIA's two classes and for the explicit target.
pub backend_for-nvidia :
    (c t : String)
    → (backend_for c t ≡ backend_nvidia)
      ↔ ((t ≡ nvidia_driver_domain) ⊎ (c ≡ nvidia_gpu_class) ⊎ (c ≡ nvidia_mig_class))
unfolding backend_for
backend_for-nvidia c t = (λ h. chosen h, λ h. choice h)
  where
    chosen :
        backend_for c t ≡ backend_nvidia
        → (t ≡ nvidia_driver_domain) ⊎ (c ≡ nvidia_gpu_class) ⊎ (c ≡ nvidia_mig_class)
    chosen h =
        ground (
          arith,
          eq_iff t nvidia_driver_domain,
          eq_iff c nvidia_gpu_class,
          eq_iff c nvidia_mig_class,
        )

    choice :
        (t ≡ nvidia_driver_domain) ⊎ (c ≡ nvidia_gpu_class) ⊎ (c ≡ nvidia_mig_class)
        → backend_for c t ≡ backend_nvidia
    choice h =
        ground (
          arith,
          eq_iff t nvidia_driver_domain,
          eq_iff c nvidia_gpu_class,
          eq_iff c nvidia_mig_class,
        )
