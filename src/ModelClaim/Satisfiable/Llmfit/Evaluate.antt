-- ===== src/ModelClaim/Satisfiable/Llmfit/Evaluate.antt =====
-- EvaluateSlices as a whole: its counts, and when it explains a shortfall.
use text.Mathlib.TextLemmas.{append-eq-nil_iff}
use llmfit_dra.Prelude.{
  String, ℕ, ◌≤◌, ◌<◌, ◌≡◌, ◌≢◌, ap, List, true, arith, select, length, if◌then◌else◌, not, ◌⊎◌,
  any, ◌↔◌, eq_iff, ◌==◌, ◌∙◌,
}
use llmfit_dra.Prelude.Maps.{GoMap}
use llmfit_dra.Prelude.Int64.{ℤ}
use llmfit_dra.Resource.{ResourceSlice, Device}
use llmfit_dra.ModelClaim.Backend.{driver_domain}
use llmfit_dra.ModelClaim.Bounds.{Bounds}
use llmfit_dra.ModelClaim.Satisfiable.Pools.{current_pool_gens}
use llmfit_dra.ModelClaim.Satisfiable.Tally.{no_devices, Candidates}
use llmfit_dra.ModelClaim.Satisfiable.Score.{Float}
use llmfit_dra.ModelClaim.Satisfiable.Assess.{Query}
use llmfit_dra.ModelClaim.Satisfiable.Messages.{
  Excluded, excluded_msg, shortfall, no_devices_msg, excluded_text,
}
use llmfit_dra.ModelClaim.Satisfiable.Llmfit.{evaluate_slices, first_scan}
use llmfit_dra.ModelClaim.Satisfiable.Tally.Matching.{
  matching, is_held, is_held_by, tally_all, tally_all-held_by, total-counts,
}
use llmfit_dra.ModelClaim.Satisfiable.Llmfit.Counts.{meets, scan_slices_lem}

excluded_msg-ne-empty : (x : Excluded) (best : String) → excluded_msg x best ≢ ""
unfolding excluded_msg
excluded_msg-ne-empty x best e =
    let e' : excluded_text ≡ "" =
      (append-eq-nil_iff.0 (append-eq-nil_iff.0 (append-eq-nil_iff.0 e).1).1).0 in
    ground (arith, eq_iff excluded_text "")

shortfall-empty_iff : (n : ℕ) (best : String) (x : Excluded) → (shortfall n best x ≡ "") ↔ (0 < n)
unfolding shortfall
shortfall-empty_iff n best x =
    let msg = if best == "" then no_devices_msg else best in
    ground (arith, excluded_msg-ne-empty x msg, eq_iff best "", eq_iff no_devices_msg "")

module _ (fl : Float) (slices : List ResourceSlice) (allocated : GoMap String) (b : Bounds)
    (class : String) (floor : ℤ) where
  -- The call.
  abbrev pub result : Candidates
  result = evaluate_slices fl slices allocated b class floor

  -- The devices that meet the bounds, among the slices of current generation.
  abbrev pub found : List (ResourceSlice × Device)
  found =
      matching (meets (record { bounds = b; class = class; min_compute = floor })) driver_domain
        (current_pool_gens slices driver_domain) slices

  result-tally :
      (result.devices ≡ (tally_all allocated found no_devices).devices)
      × (result.available ≡ (tally_all allocated found no_devices).available)
      × (result.nodes ≡ length (tally_all allocated found no_devices).nodes)
      × (result.held_by ≡ (tally_all allocated found no_devices).held_by)
  unfolding evaluate_slices
  result-tally =
      let q : Query = record { bounds = b; class = class; min_compute = floor } in
      let gens = current_pool_gens slices driver_domain in
      let e = scan_slices_lem fl q allocated gens slices (first_scan fl q allocated) in
      (
        ap (λ t. t.devices) e,
        ap (λ t. t.available) e,
        ap (λ t. length t.nodes) e,
        ap (λ t. t.held_by) e,
      )

  -- The counts are those of the devices that match the class, meet the bounds and are healthy, in the
  -- current slices of the driver: all of them, and those that no claim holds. There are no more nodes
  -- and no more available devices than devices.
  pub evaluate_slices_counts :
      (result.devices ≡ length found)
      × (result.available ≡ length (select (λ e. not (is_held allocated e)) found))
      × (result.nodes ≤ result.devices)
      × (result.available ≤ result.devices)
  evaluate_slices_counts =
      let t = result-tally in
      let counts = total-counts allocated found in
      (t.0 ∙ counts.0, t.1 ∙ counts.1, omega (arith, counts.2), omega (arith, counts.3))

  -- The shortfall is empty exactly when some device satisfies the bounds.
  pub evaluate_slices_explains : (result.shortfall ≡ "") ↔ (0 < result.devices)
  unfolding evaluate_slices
  evaluate_slices_explains = shortfall-empty_iff _ _ _

  -- If a holder is named, it holds one of the devices that satisfy the bounds.
  pub evaluate_slices-held_by :
      (result.held_by ≡ "") ⊎ (any (is_held_by allocated result.held_by) found ≡ true)
  evaluate_slices-held_by = rw (result-tally.3) (tally_all-held_by allocated found no_devices)
