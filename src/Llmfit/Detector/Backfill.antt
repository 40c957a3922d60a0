-- ===== src/Llmfit/Detector/Backfill.antt =====
-- backfillBandwidth of detector.go: what a report without bandwidths gets from the one before.
use llmfit_dra.Prelude.{
  String, ◌≡◌, Option, none, some, List, [], ◌∷◌, Bool, true, false, ◌&&◌, ◌||◌, ◌==◌, arith, any,
  refl, if◌then◌else◌,
}
use llmfit_dra.Prelude.Maps.{GoMap, lookup, insert, lookup-insert}
use llmfit_dra.Llmfit.{FloatOps, Gpu, System}
use llmfit_dra.Llmfit.Detector.{
  has_bandwidth, known_bandwidths, fill_gpu, fill_gpus, backfill_bandwidth,
}

module _ {F : Type 0} (ops : FloatOps F) where
  -- A GPU of that name with a bandwidth.
  abbrev pub prices : String → Gpu F → Bool
  prices name g = g.name == name && has_bandwidth ops g.memory_bandwidth_gbps

  abbrev pub priced_in : List (Gpu F) → String → Bool
  priced_in gpus name = any (prices name) gpus

  -- What a map has at a name: no entry, or a bandwidth.
  abbrev has_price : Option (Option F) → Bool
  has_price none = false
  has_price (some bw) = has_bandwidth ops bw

  -- The map after one GPU, whose bandwidth is `b`-known.
  learn :
      (name key : String) (b : Bool) (bw : Option F) (m : GoMap (Option F))
      → has_bandwidth ops bw ≡ b
      → has_price (lookup name (if b then insert key bw m else m))
        ≡ (has_price (lookup name m) || key == name && b)
  learn name key true bw m h = ground (arith, lookup-insert key name bw m)
  learn name key false bw m h = ground arith

  known_bandwidths-prices :
      (name : String) (gpus : List (Gpu F)) (m : GoMap (Option F))
      → has_price (lookup name (known_bandwidths ops gpus m))
        ≡ (has_price (lookup name m) || priced_in gpus name)
  unfolding known_bandwidths
  known_bandwidths-prices name [] m = ground arith
  known_bandwidths-prices name (g ∷ rest) m = ground (
    arith,
    known_bandwidths-prices name rest (
        if has_bandwidth ops g.memory_bandwidth_gbps
        then insert g.name g.memory_bandwidth_gbps m
        else m),
    learn name g.name (has_bandwidth ops g.memory_bandwidth_gbps) g.memory_bandwidth_gbps m refl,
  )

  -- What a GPU `g` of a fresh report becomes: it keeps its name, a bandwidth of its own is not
  -- touched, and it has one exactly if it had, or a GPU of its name in the report before did.
  pub record IsHealed (prev : List (Gpu F)) (g h : Gpu F) : Type 0 where
    pub name : h.name ≡ g.name
    pub kept : has_bandwidth ops g.memory_bandwidth_gbps ≡ true → h ≡ g
    pub priced :
        has_bandwidth ops h.memory_bandwidth_gbps
        ≡ (has_bandwidth ops g.memory_bandwidth_gbps || priced_in prev g.name)

  abbrev pub Healed : List (Gpu F) → List (Gpu F) → List (Gpu F) → Type 0
  Healed prev [] [] = Unit
  Healed prev (g ∷ gs) (h ∷ hs) = IsHealed prev g h × Healed prev gs hs
  Healed prev _ _ = ⊥

  fill_gpu-IsHealed :
      (prev : List (Gpu F)) (m : GoMap (Option F)) (g : Gpu F)
      → has_price (lookup g.name m) ≡ priced_in prev g.name
      → IsHealed prev g (fill_gpu ops m g)
  unfolding fill_gpu
  fill_gpu-IsHealed prev m g h = record {
    name = ground arith;
    kept = λ own. ground arith;
    priced = ground arith;
  }

  fill_gpus-Healed :
      (prev gpus : List (Gpu F)) (m : GoMap (Option F))
      → ((name : String) → has_price (lookup name m) ≡ priced_in prev name)
      → Healed prev gpus (fill_gpus ops m gpus)
  unfolding fill_gpus
  fill_gpus-Healed prev [] m h = tt
  fill_gpus-Healed prev (g ∷ gs) m h =
      (fill_gpu-IsHealed prev m g (h g.name), fill_gpus-Healed prev gs m h)

  -- A fresh report keeps its GPUs in order; a bandwidth that it has is not touched, and a GPU has
  -- one afterwards exactly if it had one, or one of its name had one in the report before.
  pub backfill_bandwidth-Healed :
      (fresh prev : System F)
      → Healed prev.gpus fresh.gpus (backfill_bandwidth ops fresh (some prev)).gpus
  unfolding backfill_bandwidth lookup
  backfill_bandwidth-Healed fresh prev =
      fill_gpus-Healed prev.gpus fresh.gpus (known_bandwidths ops prev.gpus [])
        (λ name. known_bandwidths-prices name prev.gpus [])
