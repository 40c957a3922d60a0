-- ===== src/Tests/Passes.antt =====
-- Passes of the controller over one claim.
use llmfit_dra.Prelude.{◌≡◌, refl, true, false, [], if◌then◌else◌}
use mathlib.Core.List
use llmfit_dra.Prelude.Maps.{lookup}
use llmfit_dra.ModelClaim.Satisfiable.Tally.{Candidates}
use llmfit_dra.ModelClaim.Types.{ModelClaimStatus}
use llmfit_dra.ModelClaim.Controller.Act.{ok, err}
use llmfit_dra.ModelClaim.Controller.Env
use llmfit_dra.ModelClaim.Controller.Env.{Env, not_found}
use llmfit_dra.ModelClaim.Controller.ModelRef.{valid_model_ref}
use llmfit_dra.ModelClaim.Controller.Resolve.{fresh_bounds}
use llmfit_dra.ModelClaim.Controller.Verdict.{satisfiable_condition, mark_resolved}
use llmfit_dra.ModelClaim.Controller.Reconcile.{
  cached, add_rate_limited, process_next, reconcile_claim,
}
use llmfit_dra.ModelClaim.Controller.Writes.{writes}
use llmfit_dra.ModelClaim.Controller.Writes.Pass.{
  bounds_answer, planned_after, reconcile_claim-writes,
}
use llmfit_dra.ModelClaim.Controller.Retry.{unresolved_retries, foreign_untouched}
use llmfit_dra.Tests.Fixtures.{bounds_of, claim, env_of, fresh, stray}

-- The resolver answers, and there is no template yet.
abbrev first_pass : Env
first_pass = env_of (ok (bounds_of 8 600)) not_found (λ t mc. false)

-- The resolver fails.
abbrev failing : Env
failing = env_of (err "timeout") not_found (λ t mc. false)

-- Another owner's template has the name of the claim.
abbrev occupied : Env
occupied = env_of (ok (bounds_of 8 600)) (Env.found stray) (λ t mc. false)

valid : valid_model_ref "Qwen/Qwen3-8B" ≡ true
unfolding valid_model_ref
valid = refl

reconcile_claim-writes_example :
    writes (reconcile_claim first_pass "qwen3-8b" (claim "Qwen/Qwen3-8B") fresh).1
    ≡ List.◌++◌ (writes fresh) (
        if valid_model_ref "Qwen/Qwen3-8B"
        then planned_after first_pass "qwen3-8b"
            (claim "Qwen/Qwen3-8B")
            (bounds_answer first_pass (claim "Qwen/Qwen3-8B") fresh)
        else [])
reconcile_claim-writes_example =
    reconcile_claim-writes first_pass "qwen3-8b" (claim "Qwen/Qwen3-8B") fresh

unresolved : bounds_answer failing (claim "Qwen/Qwen3-8B") fresh ≡ err "timeout"
unfolding lookup fresh_bounds
unresolved = refl

unresolved_retries_example :
    ((process_next failing (cached "qwen3-8b" (claim "Qwen/Qwen3-8B")) fresh).0
      ≡ ok add_rate_limited)
    × (writes (process_next failing (cached "qwen3-8b" (claim "Qwen/Qwen3-8B")) fresh).1
        ≡ writes fresh)
unresolved_retries_example =
    unresolved_retries failing "qwen3-8b" (claim "Qwen/Qwen3-8B") fresh "timeout" valid unresolved

foreign_untouched_example :
    writes (process_next occupied (cached "qwen3-8b" (claim "Qwen/Qwen3-8B")) fresh).1
    ≡ writes fresh
foreign_untouched_example =
    foreign_untouched occupied "qwen3-8b" (claim "Qwen/Qwen3-8B") fresh stray refl refl

abbrev two_found : Candidates
two_found = record {
  devices = 2;
  nodes = 1;
  available = 0;
  shortfall = "";
  held_by = "default/other";
}

abbrev old_status : ModelClaimStatus
old_status = (claim "Qwen/Qwen3-8B").status

abbrev marked : ModelClaimStatus
marked =
    mark_resolved first_pass "qwen3-8b" (claim "Qwen/Qwen3-8B") (bounds_of 8 600) two_found
      (satisfiable_condition two_found) old_status
