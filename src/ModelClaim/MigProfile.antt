-- ===== src/ModelClaim/MigProfile.antt =====
-- parseMIGProfile of nvidia.go: the names of MIG profiles such as 1g.5gb and 1g.10gb+me.
use llmfit_dra.Prelude.{
  String, ℕ, ◌-◌, ◌^◌, ◌≡◌, refl, Option, none, some, List, ◌∷◌, Bool, true, false, ◌==◌,
  if◌then◌else◌, ltb,
}
use llmfit_dra.Prelude.Text.{span_digits, digits_value, cut_text}

-- `strconv.ParseInt` of digits, with its error ignored: out of range it gives the largest int64.
abbrev pub capped : ℕ → ℕ
capped n = if ltb n (2 ^ 63) then n else 2 ^ 63 - 1

unfoldable pub parse_int : List ℕ → ℕ
unfolding digits_value
parse_int ds = capped (digits_value 0 ds)

-- What a profile name tells: the compute slices, the memory in GB, and the media extensions.
pub record MigProfile : Type 0 where
  pub slices : ℕ
  pub memory_gb : ℕ
  pub media : Bool

-- The end of the pattern, `gb(\+me)?$`.
abbrev media_of : String → Option Bool
media_of rest = if rest == "gb" then some false else if rest == "gb+me" then some true else none

abbrev profile_of : List ℕ → List ℕ → Option Bool → Option MigProfile
profile_of (g ∷ gs) (m ∷ ms) (some media) =
    some (record { slices = parse_int (g ∷ gs); memory_gb = parse_int (m ∷ ms); media = media })
profile_of _ _ _ = none

-- What follows the compute slices.
abbrev after_slices : List ℕ → Option String → Option MigProfile
after_slices gs none = none
after_slices gs (some rest) =
    let (ms, ending) = span_digits rest in profile_of gs ms (media_of ending)

-- `parseMIGProfile`; `none` as it is not ok.
unfoldable pub parse_mig_profile : String → Option MigProfile
unfolding span_digits cut_text parse_int
parse_mig_profile s = let (gs, rest) = span_digits s in after_slices gs (cut_text "g." rest)

profile_media :
    parse_mig_profile "1g.10gb+me" ≡ some (record { slices = 1; memory_gb = 10; media = true })
unfolding parse_mig_profile
profile_media = refl

no_profile : parse_mig_profile "xg.10gb" ≡ none
unfolding parse_mig_profile
no_profile = refl
