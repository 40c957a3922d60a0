-- ===== src/ModelClaim/Template.antt =====
-- template.go: the ResourceClaimTemplate of a ModelClaim, and when a live one has drifted from it.
pub mod Drift
use Prim.Native.Char.{code}
use Prim.Native.String.{len, slice}
use llmfit_dra.Prelude.{
  String, ℕ, Option, none, some, List, [], ◌∷◌, Bool, true, false, not, ◌||◌, ◌&&◌, ◌==◌,
  if◌then◌else◌, leb, eqb,
}
use llmfit_dra.Prelude.Maps.{GoMap, lookup, insert}
use llmfit_dra.Prelude.Int64.{ℤ, pos}
use llmfit_dra.Index.{NvidiaBoards}
use llmfit_dra.ModelClaim.Backend.{
  Backend, backend_llmfit, backend_nvidia, backend_for, driver_domain, nvidia_driver_domain,
}
use llmfit_dra.ModelClaim.Bounds.{Bounds}
use llmfit_dra.ModelClaim.Types.{ModelClaim, Template, DeviceRequest, ExactRequest}
use llmfit_dra.ModelClaim.Cel.Fit.{fit_cel}
use llmfit_dra.ModelClaim.Cel.Nvidia.{nvidia_fit_cel}

abbrev pub managed_by_label : String
managed_by_label = "llmfit.ai/modelclaim"

unfoldable pub compute_floor : ModelClaim → ℤ
compute_floor mc = elim mc.spec.min_compute_tflops [ none ↦ pos 0 | some n ↦ n ]

-- `unicode.IsSpace`
unfoldable pub is_space : ℕ → Bool
is_space c =
    leb 9 c && leb c 13
    || eqb c 32
    || eqb c 0x85
    || eqb c 0xa0
    || eqb c 0x1680
    || leb 0x2000 c && leb c 0x200a
    || eqb c 0x2028
    || eqb c 0x2029
    || eqb c 0x202f
    || eqb c 0x205f
    || eqb c 0x3000

-- Both ends of a text without the characters of a set.
trim_left : (ℕ → Bool) → String → String
trim_left p String.[] = ""
trim_left p (String.◌∷◌ c s) =
    let rest = trim_left p s in if p (code c) then rest else String.◌∷◌ c s

unfoldable pub trim_right : (ℕ → Bool) → String → String
trim_right p String.[] = ""
trim_right p (String.◌∷◌ c s) =
    let rest = trim_right p s in if rest == "" && p (code c) then "" else String.◌∷◌ c rest

-- `strings.TrimSpace`
unfoldable pub trim_space : String → String
unfolding is_space trim_left trim_right
trim_space s = trim_right is_space (trim_left is_space s)

is_separator : ℕ → Bool
is_separator c = eqb c b'-' || eqb c b'_' || eqb c b'.'

-- Names are ASCII, so a character is a byte.
unfoldable pub label_value : String → String
unfolding is_separator trim_right
label_value s = if leb (len s) 63 then s else trim_right is_separator (slice s 0 63)

unfoldable pub extra_selectors : List String → List (Option String)
unfolding trim_space
extra_selectors [] = []
extra_selectors (cel ∷ rest) =
    if trim_space cel == ""
    then extra_selectors rest
    else some (trim_space cel) ∷ extra_selectors rest

-- `templateAnnotations`; `none` is a nil board table.
unfoldable pub template_annotations : Bounds → String → Option NvidiaBoards → GoMap String
template_annotations b target boards =
    let base : GoMap String =
      ("llmfit.ai/model", b.model)
      ∷ ("llmfit.ai/quant", b.quant)
      ∷ ("llmfit.ai/resolver-version", b.resolver_version)
      ∷ ("llmfit.ai/target-driver", target)
      ∷ [] in
    elim boards [
      | none ↦ base
      | some t ↦
          if target == nvidia_driver_domain
          then insert "llmfit.ai/nvidia-boards-version" t.version base
          else base
    ]

-- The text of the first selector, and the driver that it is for.
unfoldable pub fit_for : Backend → Bounds → String → ℤ → NvidiaBoards → String × String
fit_for backend_llmfit b class floor boards = (fit_cel b class floor, driver_domain)
fit_for backend_nvidia b class floor boards =
    (nvidia_fit_cel b boards class floor, nvidia_driver_domain)

-- `BuildTemplate`
unfoldable pub build_template : ModelClaim → Bounds → String → List String → NvidiaBoards → Template
unfolding fit_for
build_template mc b class extra boards =
    let (fit, target) =
      fit_for (backend_for class mc.spec.target_driver) b class (compute_floor mc) boards in
    record {
      name = mc.name;
      namespace = mc.namespace;
      labels = (managed_by_label, label_value mc.name) ∷ [];
      annotations = template_annotations b target (some boards);
      owners =
          record {
            api_version = "llmfit.ai/v1alpha1";
            kind = "ModelClaim";
            name = mc.name;
            uid = mc.uid;
          }
          ∷ [];
      requests =
          record {
            name = "model";
            exactly = some (record {
              device_class_name = class;
              selectors = some fit ∷ extra_selectors extra;
              others = "";
            });
            first_available = [];
          }
          ∷ [];
      claim_config = "";
    }

-- The innermost loop of `TemplateNeedsUpdate`, over lists of the same length.
unfoldable pub selectors_differ : List (Option String) → List (Option String) → Bool
selectors_differ [] [] = false
selectors_differ [] (d ∷ ds) = true
selectors_differ (l ∷ ls) [] = true
selectors_differ (none ∷ ls) (none ∷ ds) = selectors_differ ls ds
selectors_differ (none ∷ ls) (some d ∷ ds) = true
selectors_differ (some l ∷ ls) (none ∷ ds) = true
selectors_differ (some l ∷ ls) (some d ∷ ds) = not (l == d) || selectors_differ ls ds

unfoldable pub exact_differs : Option ExactRequest → Option ExactRequest → Bool
unfolding selectors_differ
exact_differs none none = false
exact_differs none (some d) = true
exact_differs (some l) none = true
exact_differs (some l) (some d) =
    not (l.device_class_name == d.device_class_name) || selectors_differ l.selectors d.selectors

unfoldable pub requests_differ : List DeviceRequest → List DeviceRequest → Bool
unfolding exact_differs
requests_differ [] [] = false
requests_differ [] (d ∷ ds) = true
requests_differ (l ∷ ls) [] = true
requests_differ (l ∷ ls) (d ∷ ds) =
    not (l.name == d.name) || exact_differs l.exactly d.exactly || requests_differ ls ds

-- The last loop: a missing annotation reads as "".
unfoldable pub annotations_differ : GoMap String → GoMap String → Bool
annotations_differ live [] = false
annotations_differ live ((k, v) ∷ rest) =
    not ((elim (lookup k live) [ none ↦ "" | some w ↦ w ]) == v) || annotations_differ live rest

-- `TemplateNeedsUpdate`
unfoldable pub template_needs_update : Template → Template → Bool
unfolding requests_differ annotations_differ
template_needs_update live desired =
    requests_differ live.requests desired.requests
    || annotations_differ live.annotations desired.annotations
