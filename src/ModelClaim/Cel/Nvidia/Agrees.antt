-- ===== src/ModelClaim/Cel/Nvidia/Agrees.antt =====
-- NvidiaFitCEL of nvidia.go and the tests of EvaluateNvidiaSlices, on one device.
use llmfit_dra.Prelude.{
  String, ◌^◌, ◌≡◌, refl, sym, ap, ◌∙◌, Option, none, some, Bool, true, false, ◌||◌, ◌&&◌, ◌==◌,
  arith, is_some, eq_iff, Option-cases, inl, inr,
}
use llmfit_dra.Prelude.Maps.{GoMap, lookup, has_key, distinct_keys}
use llmfit_dra.Prelude.Int64.{ℤ, leb64}
use llmfit_dra.Index.{NvidiaBoard, NvidiaBoards, load_nvidia_boards, by_product_name, all_boards}
use llmfit_dra.Index.Boards.{found_passes, lookup-name_boards, any-all_boards}
use llmfit_dra.Resource.{Device, DeviceAttribute}
use llmfit_dra.ModelClaim.Backend.{nvidia_branches_for}
use llmfit_dra.ModelClaim.Bounds.{Bounds, nvidia_mem_floor_mib}
use llmfit_dra.ModelClaim.Thresholds.{mig_threshold_mib, gpu_admits}
use llmfit_dra.ModelClaim.Cel.{meaning, of_bool, scale}
use llmfit_dra.ModelClaim.Cel.Nvidia.{mig_pair}
use llmfit_dra.ModelClaim.Cel.Nvidia.Floor.{
  HasFloor, InInt64, Positive, floor-Positive, mig_threshold-Positive, mib_compare,
}
use llmfit_dra.ModelClaim.Cel.Nvidia.Groups.{
  pair_passes, mig_groups-passes, admitted_products-passes,
}
use llmfit_dra.ModelClaim.Cel.Nvidia.Render.{nvidia_expr}
use llmfit_dra.ModelClaim.Cel.Nvidia.Meaning.{carries, nvidia_expr-meaning, unguarded-fails}
use llmfit_dra.ModelClaim.Satisfiable.Assess.{Query}
use llmfit_dra.ModelClaim.Satisfiable.Nvidia.{text_at, wants_type, mem_mib, assess_nvidia}
use llmfit_dra.ModelClaim.Satisfiable.Nvidia.Counts.{passes_on, meets_nvidia}

abbrev pub TextTyped : Option DeviceAttribute → Type 0
TextTyped none = Unit
TextTyped (some a) = is_some a.string_value ≡ true

some_text : (a : DeviceAttribute) → TextTyped (some a) → (t : String) × (a.string_value ≡ some t)
some_text a h = elim (Option-cases a.string_value) [
  | inl missing ↦ absurd (ground (arith, missing))
  | inr found ↦ found
]

-- The arguments of an evaluation.
abbrev pub query : Bounds → String → ℤ → Query
query b class c = record { bounds = b; class = class; min_compute = c }

module _ (dev : Device) (v : ℤ) (b : Bounds) (class : String) (c : ℤ)
    (sized : lookup "memory" dev.capacity ≡ some v) (v_fits : InInt64 (some v))
    (h : HasFloor b) where
  mem_mib-compare :
      (thr : ℤ) → Positive thr → leb64 (scale (2 ^ 20) thr) v ≡ leb64 thr (mem_mib dev)
  mem_mib-compare thr p = ground (arith, mib_compare thr v p v_fits)

  mig_passes :
      (board : NvidiaBoard)
      → (text_at dev "type" == "mig") ≡ true
      → pair_passes (carries dev v) (mig_pair b c board) ≡ passes_on (query b class c) dev board
  unfolding mig_pair assess_nvidia
  mig_passes board mig = elim (Option-cases (mig_threshold_mib board b)) [
    | inl out ↦ ground (arith, out)
    | inr (thr, e) ↦ ground (arith, e, mem_mib-compare thr (mig_threshold-Positive board b thr h e))
  ]

  gpu_passes :
      (board : NvidiaBoard)
      → (text_at dev "type" == "mig") ≡ false
      → (gpu_admits board b c && leb64 (scale (2 ^ 20) (nvidia_mem_floor_mib b)) v)
        ≡ passes_on (query b class c) dev board
  unfolding assess_nvidia
  gpu_passes board gpu =
      ground (arith, mem_mib-compare (nvidia_mem_floor_mib b) (floor-Positive b h))

  -- The two branches of the selector, on what the table has for the product.
  branches_agree :
      (want : Bool × Bool) (t : String) (found : Option NvidiaBoard)
      → text_at dev "type" ≡ t
      → (want.0
            && (t == "mig"
                && found_passes (λ board. pair_passes (carries dev v) (mig_pair b c board)) found)
          || want.1
            && (t == "gpu"
                && (found_passes (λ board. gpu_admits board b c) found
                    && leb64 (scale (2 ^ 20) (nvidia_mem_floor_mib b)) v)))
        ≡ (wants_type want t && found_passes (passes_on (query b class c) dev) found)
  unfolding wants_type
  branches_agree want t none e = ground arith
  branches_agree want t (some board) e =
      let one : (text_at dev "type" == "mig") ≡ (t == "mig") = ap (λ s. s == "mig") e in
      ground (
        arith,
        mig_passes board,
        gpu_passes board,
        one,
        eq_iff t "mig",
        eq_iff t "gpu",
        eq_iff "gpu" "mig",
      )

-- What the API server guarantees of a published device: its type and product are texts, and its
-- memory is an int64.
pub record IsPublished (dev : Device) : Type 0 where
  pub kind_text : TextTyped (lookup "type" dev.attributes)
  pub product_text : TextTyped (lookup "productName" dev.attributes)
  pub memory_fits : InInt64 (lookup "memory" dev.capacity)

module _ (dev : Device) (b : Bounds) (class hash : String) (c : ℤ) (parsed : GoMap NvidiaBoard)
    (h : HasFloor b) (once : distinct_keys parsed ≡ true) (unnamed : lookup "" parsed ≡ none) where
  abbrev boards : NvidiaBoards
  boards = load_nvidia_boards parsed hash

  agrees_guarded :
      (kind name : DeviceAttribute) (t p : String) (v : ℤ)
      → lookup "type" dev.attributes ≡ some kind
      → kind.string_value ≡ some t
      → lookup "productName" dev.attributes ≡ some name
      → name.string_value ≡ some p
      → lookup "memory" dev.capacity ≡ some v
      → InInt64 (some v)
      → meaning (nvidia_expr b boards class c) dev
        ≡ of_bool (meets_nvidia (query b class c) boards dev)
  agrees_guarded kind name t p v typed is_t named is_p sized fits =
      let listed_in =
        mig_groups-passes p (carries dev v) boards b c
        ∙ any-all_boards (λ board. pair_passes (carries dev v) (mig_pair b c board)) p hash parsed
            once in
      let admitted =
        admitted_products-passes p b c (all_boards boards)
        ∙ any-all_boards (λ board. gpu_admits board b c) p hash parsed once in
      let text : (text_at dev "type" ≡ t) × (text_at dev "productName" ≡ p) =
        (ground arith, ground arith) in
      nvidia_expr-meaning dev kind name t p v typed is_t named is_p sized b boards class c
      ∙ ap of_bool (
          rw (listed_in, admitted, text.0, text.1)
            (branches_agree dev v b class c sized fits h (nvidia_branches_for class) t
              (by_product_name boards p) text.0))

  no_memory :
      (board : NvidiaBoard)
      → lookup "memory" dev.capacity ≡ none
      → passes_on (query b class c) dev board ≡ false
  unfolding assess_nvidia
  no_memory board missing = elim (Option-cases (mig_threshold_mib board b)) [
    | inl out ↦ ground (arith, out, floor-Positive b h)
    | inr (thr, e) ↦ ground (arith, e, floor-Positive b h, mig_threshold-Positive board b thr h e)
  ]

  no_type : lookup "type" dev.attributes ≡ none → meets_nvidia (query b class c) boards dev ≡ false
  unfolding wants_type
  no_type missing =
      let empty : text_at dev "type" ≡ "" = ground arith in
      rw empty (ground (arith, eq_iff "" "mig", eq_iff "" "gpu"))

  no_product :
      lookup "productName" dev.attributes ≡ none → meets_nvidia (query b class c) boards dev ≡ false
  unfolding by_product_name load_nvidia_boards
  no_product missing = ground (arith, lookup-name_boards "" parsed unnamed)

  not_met : lookup "memory" dev.capacity ≡ none → meets_nvidia (query b class c) boards dev ≡ false
  not_met missing = elim (Option-cases (by_product_name boards (text_at dev "productName"))) [
    | inl out ↦ ground (arith, out)
    | inr (board, e) ↦ ground (arith, e, no_memory board missing)
  ]

  agrees_unguarded :
      (has_key "type" dev.attributes
          && has_key "productName" dev.attributes
          && has_key "memory" dev.capacity)
        ≡ false
      → meets_nvidia (query b class c) boards dev ≡ false
      → meaning (nvidia_expr b boards class c) dev
        ≡ of_bool (meets_nvidia (query b class c) boards dev)
  agrees_unguarded missing out = unguarded-fails dev b boards class c missing ∙ sym (ap of_bool out)

  agrees_at :
      (kind name : Option DeviceAttribute) (v : Option ℤ)
      → lookup "type" dev.attributes ≡ kind
      → lookup "productName" dev.attributes ≡ name
      → lookup "memory" dev.capacity ≡ v
      → TextTyped kind
      → TextTyped name
      → InInt64 v
      → meaning (nvidia_expr b boards class c) dev
        ≡ of_bool (meets_nvidia (query b class c) boards dev)
  agrees_at none name v e n s k p m = agrees_unguarded (rw e) (no_type e)
  agrees_at (some kind) none v e n s k p m = agrees_unguarded (rw (e, n)) (no_product n)
  agrees_at (some kind) (some name) none e n s k p m = agrees_unguarded (rw (e, n, s)) (not_met s)
  agrees_at (some kind) (some name) (some v) e n s k p m =
      let t = some_text kind k in
      let q = some_text name p in agrees_guarded kind name t.0 q.0 v e t.1 n q.1 s m

  -- The claim's selector ends in no runtime error, and holds exactly when the static evaluation
  -- admits the device: for a device as the API server publishes it, a positive memory floor in the
  -- int64 range, and a board table with one entry for a product and none for the empty name.
  pub nvidia_expr-meets :
      IsPublished dev
      → meaning (nvidia_expr b boards class c) dev
        ≡ of_bool (meets_nvidia (query b class c) boards dev)
  nvidia_expr-meets ok = agrees_at _ _ _ refl refl refl ok.kind_text ok.product_text ok.memory_fits
