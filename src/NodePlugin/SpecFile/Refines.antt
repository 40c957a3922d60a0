-- ===== src/NodePlugin/SpecFile/Refines.antt =====
-- The system calls of writeSpec implement write_spec, for which the directory is a map from claims to
-- their devices.
use text.Mathlib.TextLemmas.{append_cancel_left, append_cancel_right}
use llmfit_dra.Prelude.{
  String, Option, none, some, List, [], ◌∷◌, false, ◌==◌, ◌≡◌, inl, inr, refl, ap, ◌∙◌, sym, eq_iff,
  eq_refl, Bool-cases, Option-cases, arith,
}
use llmfit_dra.Prelude.Maps.{lookup, lookup-insert}
use llmfit_dra.NodePlugin.Edits.{CdiDevice}
use llmfit_dra.NodePlugin.Prepare.{SpecDir, write_spec}
use llmfit_dra.NodePlugin.SpecFile.{
  CdiSpec, cdi_spec, File, Files, spec_path, temp_name, SysCall, create_temp, rename_file,
  remove_file, put, run_call, run_calls, WriteAnswers, fill_temp, with_temp, or_rest, then_call,
  write_spec_calls,
}
use llmfit_dra.NodePlugin.SpecFile.Crash.{temp-ne-spec, put_other, whole, filled-temp}

-- Two claims have two spec files.
spec_path-eq : (uid other : String) → (spec_path uid == spec_path other) ≡ (uid == other)
unfolding spec_path
spec_path-eq uid other = elim (Bool-cases (uid == other)) [
  | inl same ↦
      rw ((eq_iff uid other).0 same) (rw (eq_refl (spec_path other)) (rw (eq_refl other) refl))
  | inr apart ↦ elim (Bool-cases (spec_path uid == spec_path other)) [
    | inr h ↦ h ∙ sym apart
    | inl h ↦
        let e : uid ≡ other =
          append_cancel_right uid other ".json" (
            append_cancel_left "llmfit.ai-" _ _ ((eq_iff (spec_path uid) (spec_path other)).0 h)) in
        absurd (ground (arith, apart, (eq_iff uid other).1 e))
  ]
]

abbrev pub file_of : (CdiSpec → String) → Option (List CdiDevice) → Option String
file_of encode none = none
file_of encode (some devices) = some (encode (cdi_spec devices))

abbrev pub text_of : Option File → Option String
text_of none = none
text_of (some f) = some f.content

-- The files show the map: each claim's file has the text of its devices.
abbrev pub Shows : (CdiSpec → String) → Files → SpecDir → Type 0
Shows encode files dir =
    (uid : String) → text_of (files (spec_path uid)) ≡ file_of encode (lookup uid dir)

-- What a name has in the end, by writeSpec's answer.
abbrev settled : String → String → Files → Option String → String → Option File
settled path text dir none m = put path (whole text) dir m
settled path text dir (some e) m = dir m

module _ (text temp path m : String) (dir : Files) (apart : (temp == m) ≡ false) where
  abbrev Ends : List SysCall × Option String → Files → Type 0
  Ends r d = run_calls r.0 d m ≡ settled path text dir r.1 m

  or_rest-Ends :
      (e : Option String) (rest : List SysCall × Option String) (d : Files)
      → d m ≡ dir m
      → Ends rest d
      → Ends (or_rest e temp rest) d
  unfolding run_calls run_call
  or_rest-Ends none rest d now goes_on = goes_on
  or_rest-Ends (some e) rest d now goes_on = put_other temp m none d apart ∙ now

  renamed-Ends :
      (d : Files)
      → d m ≡ dir m
      → d temp ≡ whole text
      → Ends (rename_file temp path ∷ remove_file temp ∷ [], none) d
  unfolding run_calls run_call put
  renamed-Ends d now full = rw apart (rw now (rw full refl))

  fill_temp-Ends :
      (a : WriteAnswers) (uid : String)
      → spec_path uid ≡ path
      → Ends (then_call (create_temp temp) (fill_temp a uid text temp)) dir
  unfolding fill_temp run_calls run_call
  fill_temp-Ends a uid named =
      let kept : (f : Option File) (d : Files) → d m ≡ dir m → put temp f d m ≡ dir m =
        λ f d h. put_other temp m f d apart ∙ h in
      let made = kept _ dir refl in
      elim (Option-cases a.write) [
        | inl ok ↦ rw ok (
            rw named (
              or_rest-Ends a.sync _ _ (kept _ _ made) (
                or_rest-Ends a.close _ _ (kept _ _ (kept _ _ made)) (
                  or_rest-Ends a.rename _ _ (kept _ _ (kept _ _ made))
                    (renamed-Ends _ (kept _ _ (kept _ _ made)) (filled-temp temp text dir))))))
        | inr failed ↦ rw failed.1 (kept _ _ (kept _ _ made))
      ]

-- What writeSpec leaves under the name of a spec file.
write_spec_calls-settled :
    (encode : CdiSpec → String) (a : WriteAnswers) (uid other : String) (devices : List CdiDevice)
    (dir : Files)
    → run_calls (write_spec_calls encode a uid devices).0 dir (spec_path other)
      ≡ settled
          (spec_path uid)
          (encode (cdi_spec devices))
          dir
          (write_spec_calls encode a uid devices).1
          (spec_path other)
unfolding write_spec_calls with_temp fill_temp run_calls
write_spec_calls-settled encode a uid other devices dir = elim (Option-cases a.mkdir) [
  | inr failed ↦ rw failed.1 refl
  | inl made ↦ rw made (elim (Option-cases a.marshal) [
    | inr failed ↦ rw failed.1 refl
    | inl encoded ↦ rw encoded (elim (Option-cases a.create) [
      | inl failed ↦ rw failed refl
      | inr created ↦ rw created.1 (
          fill_temp-Ends (encode (cdi_spec devices)) (temp_name created.0) (spec_path uid)
            (spec_path other) dir (temp-ne-spec created.0 other) a uid refl)
    ])
  ])
]

-- The system calls of writeSpec implement write_spec: where the files of the directory show a map from
-- claims to devices, they show afterwards the map that write_spec makes of it, with the answer of
-- writeSpec.
pub write_spec_calls-Shows :
    (encode : CdiSpec → String) (a : WriteAnswers) (uid : String) (devices : List CdiDevice)
    (files : Files) (dir : SpecDir)
    → Shows encode files dir
    → let r = write_spec_calls encode a uid devices in
      Shows encode (run_calls r.0 files) (write_spec r.1 dir uid devices).1
unfolding write_spec put
write_spec_calls-Shows encode a uid devices files dir shows other =
    let r = write_spec_calls encode a uid devices in
    ap text_of (write_spec_calls-settled encode a uid other devices files)
    ∙ elim (Option-cases r.1) [
      | inr failed ↦ rw failed.1 (shows other)
      | inl ok ↦ rw ok (
          rw (spec_path-eq uid other)
            (rw (lookup-insert uid other devices dir) (ground (arith, shows other))))
    ]
