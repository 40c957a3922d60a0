-- ===== src/ModelClaim/Controller/Watch/Slices.antt =====
-- sliceRelevant, and what the evaluation reads of a slice that it passes over.
use mathlib.Core.List
use llmfit_dra.Prelude.{
  String, some, List, [], ◌∷◌, true, false, ◌||◌, ◌==◌, ◌≡◌, refl, ap, ◌∙◌, sym, subst, arith,
  select-append, eq_iff, Bool-cases, inl, inr,
}
use llmfit_dra.Prelude.Maps.{GoMap}
use llmfit_dra.Prelude.Int64.{ℤ}
use llmfit_dra.Resource.{ResourceSlice}
use llmfit_dra.Index.{NvidiaBoards}
use llmfit_dra.ModelClaim.Backend.{
  Backend, backend_llmfit, backend_nvidia, backend_for, driver_domain, nvidia_driver_domain,
}
use llmfit_dra.ModelClaim.Bounds.{Bounds}
use llmfit_dra.ModelClaim.Satisfiable.Assess.{Query}
use llmfit_dra.ModelClaim.Satisfiable.Score.{Float}
use llmfit_dra.ModelClaim.Satisfiable.Pools.{current_pool_gens, is_current}
use llmfit_dra.ModelClaim.Satisfiable.Pools.Laws.{own, current_pool_gens-own}
use llmfit_dra.ModelClaim.Satisfiable.Llmfit.{
  Scan, scan_devices, scan_slices, first_scan, evaluate_slices,
}
use llmfit_dra.ModelClaim.Satisfiable.Tally.{candidates_of}
use llmfit_dra.ModelClaim.Satisfiable.Messages.{shortfall}
use llmfit_dra.ModelClaim.Satisfiable.Nvidia.Scan.{
  NvidiaScan, scan_nvidia_devices, scan_nvidia_slices, first_nvidia_scan, nvidia_shortfall,
  evaluate_nvidia_slices,
}
use llmfit_dra.ModelClaim.Controller.Env.{Env}
use llmfit_dra.ModelClaim.Controller.Verdict.{evaluate_for, evaluate_candidates}
use llmfit_dra.ModelClaim.Controller.Watch.{
  Stored, slice_object, driver_for, driver_relevant, slice_relevant,
}
use llmfit_dra.ModelClaim.Controller.Watch.Claims.{stored_relevant}
use llmfit_dra.ModelClaim.Controller.Watch.Notify.{
  StoredClaim, objects, objects-append, quiet-irrelevant, notify, slice_updated,
}

-- Both loops pass over the slices of other drivers.
scan_slices-own :
    (fl : Float) (q : Query) (allocated : GoMap String) (gens : GoMap ℤ)
    (slices : List ResourceSlice) (st : Scan fl.F)
    → scan_slices fl q allocated gens slices st
      ≡ scan_slices fl q allocated gens (own driver_domain slices) st
unfolding scan_slices is_current
scan_slices-own fl q allocated gens [] st = refl
scan_slices-own fl q allocated gens (s ∷ rest) st = ground (
  arith,
  scan_slices-own fl q allocated gens rest st,
  scan_slices-own fl q allocated gens rest (scan_devices fl q allocated s s.devices st),
)

scan_nvidia_slices-own :
    (fl : Float) (q : Query) (allocated : GoMap String) (boards : NvidiaBoards) (gens : GoMap ℤ)
    (slices : List ResourceSlice) (st : NvidiaScan fl.F)
    → scan_nvidia_slices fl q allocated boards gens slices st
      ≡ scan_nvidia_slices fl q allocated boards gens (own nvidia_driver_domain slices) st
unfolding scan_nvidia_slices is_current
scan_nvidia_slices-own fl q allocated boards gens [] st = refl
scan_nvidia_slices-own fl q allocated boards gens (s ∷ rest) st = ground (
  arith,
  scan_nvidia_slices-own fl q allocated boards gens rest st,
  scan_nvidia_slices-own fl q allocated boards gens rest
      (scan_nvidia_devices fl q allocated boards s s.devices st),
)

-- The informer's slices as a pass reads them.
abbrev pub with_slices : Env → List ResourceSlice → Env
with_slices env slices = record env { slices = slices }

evaluate_slices-own :
    (fl : Float) (slices : List ResourceSlice) (allocated : GoMap String) (b : Bounds)
    (class : String) (c : ℤ)
    → evaluate_slices fl slices allocated b class c
      ≡ evaluate_slices fl (own driver_domain slices) allocated b class c
unfolding evaluate_slices
evaluate_slices-own fl slices allocated b class c =
    let q : Query = record { bounds = b; class = class; min_compute = c } in
    let first = first_scan fl q allocated in
    let mine = own driver_domain slices in
    let same : scan_slices fl q allocated (current_pool_gens slices driver_domain) slices first
        ≡ scan_slices fl q allocated (current_pool_gens mine driver_domain) mine first =
      scan_slices-own fl q allocated (current_pool_gens slices driver_domain) slices first
      ∙ ap (λ gens. scan_slices fl q allocated gens mine first)
          (current_pool_gens-own driver_domain slices) in
    ap (λ st. candidates_of st.tally (shortfall st.tally.devices st.best_msg st.excluded)) same

evaluate_nvidia_slices-own :
    (fl : Float) (quote : String → String) (slices : List ResourceSlice) (allocated : GoMap String)
    (b : Bounds) (class : String) (c : ℤ) (boards : NvidiaBoards)
    → evaluate_nvidia_slices fl quote slices allocated b class c boards
      ≡ evaluate_nvidia_slices fl quote (own nvidia_driver_domain slices) allocated b class c boards
unfolding evaluate_nvidia_slices
evaluate_nvidia_slices-own fl quote slices allocated b class c boards =
    let d = nvidia_driver_domain in
    let q : Query = record { bounds = b; class = class; min_compute = c } in
    let first = first_nvidia_scan fl q allocated boards in
    let mine = own d slices in
    let same : scan_nvidia_slices fl q allocated boards (current_pool_gens slices d) slices first
        ≡ scan_nvidia_slices fl q allocated boards (current_pool_gens mine d) mine first =
      scan_nvidia_slices-own fl q allocated boards (current_pool_gens slices d) slices first
      ∙ ap (λ gens. scan_nvidia_slices fl q allocated boards gens mine first)
          (current_pool_gens-own d slices) in
    ap
      (λ st.
        candidates_of st.tally
          (nvidia_shortfall quote boards st.tally.devices st.best_msg st.unknown_boards))
      same

-- An evaluation reads the slices of its driver only.
evaluate_for-own :
    (k : Backend) (env : Env) (slices : List ResourceSlice) (b : Bounds) (class : String) (c : ℤ)
    → evaluate_for k (with_slices env slices) b class c
      ≡ evaluate_for k (with_slices env (own (driver_for k) slices)) b class c
unfolding evaluate_for
evaluate_for-own backend_llmfit env slices b class c = evaluate_slices-own _ _ _ b class c
evaluate_for-own backend_nvidia env slices b class c =
    evaluate_nvidia_slices-own _ _ _ _ b class c _

-- A slice that sliceRelevant passes over is none of a stored ModelClaim's driver.
passed_over :
    (xs ys : List Stored) (class target : String) (s : ResourceSlice)
    → slice_relevant (List.◌++◌ xs (some (class, target) ∷ ys)) (slice_object s) ≡ false
    → (s.driver == driver_for (backend_for class target)) ≡ false
unfolding slice_relevant
passed_over xs ys class target s h =
    let driver = driver_for (backend_for class target) in
    let stored = List.◌++◌ xs (some (class, target) ∷ ys) in
    elim (Bool-cases (s.driver == driver)) [
      | inl mine ↦
          let relevant : driver_relevant stored s.driver ≡ true =
            subst (λ d. driver_relevant stored d ≡ true) (sym ((eq_iff s.driver driver).0 mine))
              (stored_relevant xs ys class target) in
          absurd (ground (arith, relevant, h))
      | inr other ↦ other
    ]

own-passed :
    (driver : String) (before after : List ResourceSlice) (s : ResourceSlice)
    → (s.driver == driver) ≡ false
    → own driver (List.◌++◌ before (s ∷ after)) ≡ List.◌++◌ (own driver before) (own driver after)
own-passed driver before after s h =
    select-append (λ s. s.driver == driver) before (s ∷ after) ∙ rw h refl

-- An update of a ResourceSlice that puts no key on the queue leaves the evaluation of every stored
-- ModelClaim, its counts and its messages, as it is.
pub slice_updated-quiet :
    (xs ys : List StoredClaim) (key class target : String) (old new : ResourceSlice)
    (before after : List ResourceSlice) (env : Env) (b : Bounds) (c : ℤ)
    → notify
        (List.◌++◌ xs ((key, some (class, target)) ∷ ys))
        (slice_updated (slice_object old) (slice_object new))
      ≡ []
    → evaluate_candidates (with_slices env (List.◌++◌ before (old ∷ after))) b class c target
      ≡ evaluate_candidates (with_slices env (List.◌++◌ before (new ∷ after))) b class c target
unfolding notify evaluate_candidates
slice_updated-quiet xs ys key class target old new before after env b c h =
    let k = backend_for class target in
    let driver = driver_for k in
    let none_relevant =
      subst
        (λ os.
          (slice_relevant os (slice_object old) || slice_relevant os (slice_object new)) ≡ false)
        (objects-append xs (key, some (class, target)) ys)
        (quiet-irrelevant _ xs (key, some (class, target)) ys h) in
    let old_other =
      passed_over (objects xs) (objects ys) class target old (ground (arith, none_relevant)) in
    let new_other =
      passed_over (objects xs) (objects ys) class target new (ground (arith, none_relevant)) in
    evaluate_for-own k env (List.◌++◌ before (old ∷ after)) b class c
    ∙ ap (λ slices. evaluate_for k (with_slices env slices) b class c)
        (own-passed driver before after old old_other
          ∙ sym (own-passed driver before after new new_other))
    ∙ sym (evaluate_for-own k env (List.◌++◌ before (new ∷ after)) b class c)
