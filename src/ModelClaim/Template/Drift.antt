-- ===== src/ModelClaim/Template/Drift.antt =====
-- TemplateNeedsUpdate, and the update that the controller makes after it.
use llmfit_dra.Prelude.{
  String, Option, none, some, List, [], ◌∷◌, ◌≡◌, refl, Bool, true, false, arith, eq_iff, eq_refl,
  ◌==◌, ap, if◌then◌else◌, All, ◌↔◌, ◌||◌,
}
use mathlib.Core.List
use llmfit_dra.Prelude.Maps.{GoMap, lookup, insert, lookup-insert}
use llmfit_dra.ModelClaim.Types.{Template, DeviceRequest, ExactRequest, ModelClaim}
use llmfit_dra.Index.{NvidiaBoards}
use llmfit_dra.ModelClaim.Bounds.{Bounds}
use llmfit_dra.ModelClaim.Controller.Sync.{apply_desired, merge_annotations}
use llmfit_dra.ModelClaim.Template.{
  build_template, template_annotations, selectors_differ, exact_differs, requests_differ,
  annotations_differ, template_needs_update,
}

selectors_differ_refl : (l : List (Option String)) → selectors_differ l l ≡ false
unfolding selectors_differ
selectors_differ_refl [] = refl
selectors_differ_refl (none ∷ l) = selectors_differ_refl l
selectors_differ_refl (some s ∷ l) = ground (arith, eq_refl s, selectors_differ_refl l)

selectors_differ-eq : (l d : List (Option String)) → selectors_differ l d ≡ false → l ≡ d
unfolding selectors_differ
selectors_differ-eq [] [] h = refl
selectors_differ-eq [] (d ∷ ds) h = ground arith
selectors_differ-eq (l ∷ ls) [] h = ground arith
selectors_differ-eq (none ∷ ls) (none ∷ ds) h = ap (◌∷◌ none) (selectors_differ-eq ls ds h)
selectors_differ-eq (none ∷ ls) (some d ∷ ds) h = ground arith
selectors_differ-eq (some l ∷ ls) (none ∷ ds) h = ground arith
selectors_differ-eq (some l ∷ ls) (some d ∷ ds) h =
    ground (arith, eq_iff l d, selectors_differ-eq ls ds)

-- Two `exactly` of the same class and selectors, whatever their other fields, or none on either side.
abbrev pub SameExact : Option ExactRequest → Option ExactRequest → Type 0
SameExact none none = Unit
SameExact (some l) (some d) =
    (l.device_class_name ≡ d.device_class_name) × (l.selectors ≡ d.selectors)
SameExact _ _ = ⊥

-- As many requests, in the same order, with the same names, classes and selectors.
abbrev pub SameRequests : List DeviceRequest → List DeviceRequest → Type 0
SameRequests [] [] = Unit
SameRequests (l ∷ ls) (d ∷ ds) =
    (l.name ≡ d.name) × SameExact l.exactly d.exactly × SameRequests ls ds
SameRequests _ _ = ⊥

exact_differs_iff : (l d : Option ExactRequest) → (exact_differs l d ≡ false) ↔ SameExact l d
unfolding exact_differs
exact_differs_iff none none = ((λ _. tt), (λ _. refl))
exact_differs_iff none (some d) = ((λ h. ground (arith, h)), (λ e. absurd e))
exact_differs_iff (some l) none = ((λ h. ground (arith, h)), (λ e. absurd e))
exact_differs_iff (some l) (some d) = (
  λ h. (
    ground (arith, eq_iff l.device_class_name d.device_class_name, h),
    ground (arith, selectors_differ-eq l.selectors d.selectors, h),
  ),
  λ s. rw (s.0, s.1) (rw (eq_refl d.device_class_name) (selectors_differ_refl d.selectors)),
)

requests_differ_iff : (l d : List DeviceRequest) → (requests_differ l d ≡ false) ↔ SameRequests l d
unfolding requests_differ
requests_differ_iff [] [] = ((λ _. tt), (λ _. refl))
requests_differ_iff [] (d ∷ ds) = ((λ h. ground (arith, h)), (λ e. absurd e))
requests_differ_iff (l ∷ ls) [] = ((λ h. ground (arith, h)), (λ e. absurd e))
requests_differ_iff (l ∷ ls) (d ∷ ds) =
    let exact = exact_differs_iff l.exactly d.exactly in
    let others = requests_differ_iff ls ds in
    (
      λ h. (
        ground (arith, eq_iff l.name d.name, h),
        exact.0 (ground (arith, h)),
        others.0 (ground (arith, h)),
      ),
      λ s. rw s.0 (rw (eq_refl d.name) (rw (exact.1 s.1) (others.1 s.2))),
    )

SameExact-refl : (o : Option ExactRequest) → SameExact o o
SameExact-refl none = tt
SameExact-refl (some e) = (refl, refl)

SameRequests-refl : (l : List DeviceRequest) → SameRequests l l
SameRequests-refl [] = tt
SameRequests-refl (r ∷ l) = (refl, SameExact-refl r.exactly, SameRequests-refl l)

-- The value of an annotation, "" where it is missing.
unfoldable pub annotation : String → GoMap String → String
annotation k m = elim (lookup k m) [ none ↦ "" | some v ↦ v ]

abbrev pub Agrees : GoMap String → GoMap String → Type 0
Agrees live desired = All (λ e. annotation e.0 live ≡ e.1) desired

annotations_differ-Agrees :
    (live desired : GoMap String) → (annotations_differ live desired ≡ false) ↔ Agrees live desired
unfolding annotations_differ annotation
annotations_differ-Agrees live [] = ((λ _. tt), (λ _. refl))
annotations_differ-Agrees live ((k, v) ∷ rest) =
    let (to, from) = annotations_differ-Agrees live rest in
    (
      λ h. ground (arith, eq_iff (annotation k live) v, to),
      λ h. ground (arith, eq_iff (annotation k live) v, from),
    )

-- A live template needs no update exactly when it has as many requests as the desired one, with the
-- same names, classes and selectors in order, and each desired annotation has its value. The other
-- fields of a request do not matter.
pub template_needs_update_iff :
    (live desired : Template)
    → (template_needs_update live desired ≡ false)
      ↔ (SameRequests live.requests desired.requests × Agrees live.annotations desired.annotations)
unfolding template_needs_update
template_needs_update_iff live desired =
    let (to, from) = annotations_differ-Agrees live.annotations desired.annotations in
    let same = requests_differ_iff live.requests desired.requests in
    (λ h. (same.0 (or-left _ _ h), to (or-right _ _ h)), λ h. rw (same.1 h.0, from h.1) refl)
  where
    or-left : (a b : Bool) → (a || b) ≡ false → a ≡ false
    or-left a b h = ground arith

    or-right : (a b : Bool) → (a || b) ≡ false → b ≡ false
    or-right a b h = ground arith

annotation-insert :
    (k j v : String) (m : GoMap String)
    → annotation j (insert k v m) ≡ (if k == j then v else annotation j m)
unfolding annotation
annotation-insert k j v m = ground (arith, lookup-insert k j v m)

abbrev four : String → String → String → String → GoMap String
four m q r t =
    ("llmfit.ai/model", m)
    ∷ ("llmfit.ai/quant", q)
    ∷ ("llmfit.ai/resolver-version", r)
    ∷ ("llmfit.ai/target-driver", t)
    ∷ []

abbrev five : String → String → String → String → String → GoMap String
five m q r t v = List.◌++◌ (four m q r t) (("llmfit.ai/nvidia-boards-version", v) ∷ [])

four_agree :
    (live : GoMap String) (m q r t : String)
    → Agrees (merge_annotations live (four m q r t)) (four m q r t)
unfolding merge_annotations
four_agree live m q r t = (
  simp annotation-insert,
  (simp annotation-insert, (simp annotation-insert, (simp annotation-insert, tt))),
)

five_agree :
    (live : GoMap String) (m q r t v : String)
    → Agrees (merge_annotations live (five m q r t v)) (five m q r t v)
unfolding merge_annotations
five_agree live m q r t v = (
  simp annotation-insert,
  (
    simp annotation-insert,
    (simp annotation-insert, (simp annotation-insert, (simp annotation-insert, tt))),
  ),
)

settled :
    (live : GoMap String) (m q r t v : String) (nvidia : Bool)
    → Agrees
        (merge_annotations live (
          if nvidia
          then insert "llmfit.ai/nvidia-boards-version" v (four m q r t)
          else four m q r t))
        (if nvidia then insert "llmfit.ai/nvidia-boards-version" v (four m q r t) else four m q r t)
unfolding insert
settled live m q r t v true = five_agree live m q r t v
settled live m q r t v false = four_agree live m q r t

-- After the controller's update of a live template to the one that `build_template` wants, the live
-- template needs no further update, whatever it held before.
pub update-settles :
    (live : Template) (mc : ModelClaim) (b : Bounds) (class : String) (extra : List String)
    (boards : NvidiaBoards)
    → template_needs_update
        (apply_desired live (build_template mc b class extra boards))
        (build_template mc b class extra boards)
      ≡ false
unfolding build_template apply_desired template_annotations
update-settles live mc b class extra boards = (template_needs_update_iff _ _).1 (
  SameRequests-refl (build_template mc b class extra boards).requests,
  settled live.annotations b.model b.quant b.resolver_version _ boards.version _,
)
