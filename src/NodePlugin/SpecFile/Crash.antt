-- ===== src/NodePlugin/SpecFile/Crash.antt =====
-- A spec file is whole at every moment.
use Prim.Native.String.{◌++◌}
use Prim.Native.Char.{code}
use text.Mathlib.TextLemmas.{cons-append}
use llmfit_dra.Prelude.{
  String, ℕ, zero, suc, Option, none, some, List, [], ◌∷◌, true, false, ◌==◌, ◌≡◌, ◌⊎◌, inl, inr,
  refl, ap, ◌∙◌, sym, eq_iff, eq_refl, Bool-cases, Option-cases, arith,
}
use llmfit_dra.Prelude.Lists.{take}
use llmfit_dra.NodePlugin.Edits.{CdiDevice}
use llmfit_dra.NodePlugin.SpecFile.{
  CdiSpec, cdi_spec, File, Files, spec_path, temp_name, SysCall, create_temp, write_file, sync_file,
  rename_file, remove_file, put, run_call, run_calls, WriteAnswers, fill_temp, with_temp, or_rest,
  then_call, write_spec_calls, power_loss, after_loss,
}

first_code : String → ℕ
first_code String.[] = 0
first_code (String.◌∷◌ c s) = code c

-- A temporary name begins with a dot, and a spec file's does not.
pub temp-ne-spec : (random uid : String) → (temp_name random == spec_path uid) ≡ false
unfolding temp_name spec_path first_code
temp-ne-spec random uid = elim (Bool-cases (temp_name random == spec_path uid)) [
  | inl same ↦
      let firsts : 46 ≡ 108 =
        sym (ap first_code (cons-append "." "llmfit-" (random ++ ".json.tmp")))
        ∙ ap first_code ((eq_iff (temp_name random) (spec_path uid)).0 same)
        ∙ ap first_code (cons-append "l" "lmfit.ai-" (uid ++ ".json")) in
      absurd (omega (arith, firsts))
  | inr other ↦ other
]

-- A test of every state that the calls pass through.
abbrev pub Throughout : (Files → Type 0) → List SysCall → Files → Type 0
Throughout P [] dir = P dir
Throughout P (c ∷ rest) dir = P dir × Throughout P rest (run_call c dir)

pub Throughout-take :
    (P : Files → Type 0) (n : ℕ) (calls : List SysCall) (dir : Files)
    → Throughout P calls dir
    → P (run_calls (take n calls) dir)
unfolding run_calls
Throughout-take P zero [] dir h = h
Throughout-take P zero (c ∷ rest) dir h = h.0
Throughout-take P (suc n) [] dir h = h
Throughout-take P (suc n) (c ∷ rest) dir h = Throughout-take P n rest (run_call c dir) h.1

pub put_other :
    (name m : String) (f : Option File) (dir : Files)
    → (name == m) ≡ false
    → put name f dir m ≡ dir m
unfolding put
put_other name m f dir h = rw h refl

pub put_self : (name : String) (f : Option File) (dir : Files) → put name f dir name ≡ f
unfolding put
put_self name f dir = rw (eq_refl name) refl

-- What writeSpec leaves under the name of the spec file: what was there, or the whole text, synced.
abbrev pub whole : String → Option File
whole text = some (record { content = text; synced = true })

-- The state of the temporary file once its text is synced.
abbrev pub filled : String → String → Files → Files
filled temp text dir =
    run_call (sync_file temp) (run_call (write_file temp text) (run_call (create_temp temp) dir))

pub filled-temp : (temp text : String) (dir : Files) → filled temp text dir temp ≡ whole text
unfolding run_call put
filled-temp temp text dir = simp (eq_refl temp)

module _ (text temp path : String) (dir : Files) (apart : (temp == path) ≡ false) where
  abbrev Whole : Files → Type 0
  Whole d = (d path ≡ dir path) ⊎ (d path ≡ whole text)

  -- Calls on the temporary name alone leave the spec file.
  on_temp : (f : Option File) (d : Files) → Whole d → Whole (put temp f d)
  on_temp f d h = elim h [
    | inl e ↦ inl (put_other temp path f d apart ∙ e)
    | inr e ↦ inr (put_other temp path f d apart ∙ e)
  ]

  renamed-Whole : (d : Files) → d temp ≡ whole text → Whole (run_call (rename_file temp path) d)
  unfolding run_call
  renamed-Whole d e =
      inr (put_other temp path none (put path (d temp) d) apart ∙ put_self path (d temp) d ∙ e)

  or_rest-Whole :
      (e : Option String) (rest : List SysCall × Option String) (d : Files)
      → Whole d
      → Throughout Whole rest.0 d
      → Throughout Whole (or_rest e temp rest).0 d
  unfolding run_call
  or_rest-Whole none rest d now then_ = then_
  or_rest-Whole (some e) rest d now then_ = (now, on_temp none d now)

module _ (uid text temp : String) (dir : Files) (apart : (temp == spec_path uid) ≡ false) where
  abbrev Kept : Files → Type 0
  Kept = Whole text temp (spec_path uid) dir apart

  filled_rest-Kept :
      (a : WriteAnswers) (d : Files)
      → Kept d
      → d temp ≡ whole text
      → Throughout Kept
          (or_rest a.close temp (
            or_rest a.rename temp
              (rename_file temp (spec_path uid) ∷ remove_file temp ∷ [], none))).0
          d
  unfolding run_call
  filled_rest-Kept a d now full =
      let moved = renamed-Whole text temp (spec_path uid) dir apart d full in
      or_rest-Whole text temp (spec_path uid) dir apart a.close _ d now (
        or_rest-Whole text temp (spec_path uid) dir apart a.rename _ d now
          (now, (moved, on_temp text temp (spec_path uid) dir apart none _ moved)))

  fill_temp-Kept :
      (a : WriteAnswers)
      → Throughout Kept (then_call (create_temp temp) (fill_temp a uid text temp)).0 dir
  unfolding fill_temp run_call
  fill_temp-Kept a =
      let same : (f : Option File) (d : Files) → Kept d → Kept (put temp f d) =
        on_temp text temp (spec_path uid) dir apart in
      let made : Kept (run_call (create_temp temp) dir) = same _ dir (inl refl) in
      (
        inl refl,
        elim (Option-cases a.write) [
          | inl ok ↦ rw ok (
            made,
            or_rest-Whole text temp (spec_path uid) dir apart a.sync _ _ (same _ _ made) (
              same _ _ made,
              filled_rest-Kept a _ (same _ _ (same _ _ made)) (filled-temp temp text dir),
            ),
          )
          | inr failed ↦ rw failed.1 (made, (same _ _ made, same _ _ (same _ _ made)))
        ],
      )

abbrev KeptFile : String → String → Files → Files → Type 0
KeptFile path text dir d = (d path ≡ dir path) ⊎ (d path ≡ whole text)

-- At every moment of writeSpec the spec file is what it was, or has the whole text on the disk.
write_spec_calls-Kept :
    (encode : CdiSpec → String) (a : WriteAnswers) (uid : String) (devices : List CdiDevice)
    (dir : Files)
    → Throughout
        (KeptFile (spec_path uid) (encode (cdi_spec devices)) dir)
        (write_spec_calls encode a uid devices).0
        dir
unfolding write_spec_calls with_temp fill_temp
write_spec_calls-Kept encode a uid devices dir =
    let idle = inl refl in
    elim (Option-cases a.mkdir) [
      | inr failed ↦ rw failed.1 idle
      | inl made ↦ rw made (elim (Option-cases a.marshal) [
        | inr failed ↦ rw failed.1 idle
        | inl encoded ↦ rw encoded (elim (Option-cases a.create) [
          | inl failed ↦ rw failed idle
          | inr created ↦ rw created.1 (
              fill_temp-Kept uid (encode (cdi_spec devices)) (temp_name created.0) dir
                (temp-ne-spec created.0 uid) a)
        ])
      ])
    ]

-- Wherever writeSpec is cut off, and whatever its calls answer, a power loss leaves the spec file as
-- it leaves the one before, or whole: the text that was to be written, and nothing torn.
pub power_loss-whole :
    (encode : CdiSpec → String) (a : WriteAnswers) (uid : String) (devices : List CdiDevice)
    (dir : Files) (n : ℕ) (torn : String → String)
    → let left =
        power_loss torn (run_calls (take n (write_spec_calls encode a uid devices).0) dir) in
      (left (spec_path uid) ≡ power_loss torn dir (spec_path uid))
      ⊎ (left (spec_path uid)
          ≡ some (record { content = encode (cdi_spec devices); synced = true }))
power_loss-whole encode a uid devices dir n torn =
    let path = spec_path uid in
    elim (Throughout-take (KeptFile path (encode (cdi_spec devices)) dir) n
      (write_spec_calls encode a uid devices).0 dir
      (write_spec_calls-Kept encode a uid devices dir)) [
        | inl e ↦ inl (ap (after_loss torn path) e)
        | inr e ↦ inr (ap (after_loss torn path) e)
      ]
