-- ===== src/Probe/Sysfs.antt =====
-- The files of sysfs and procfs as a parameter, and the readings of probe.go. Paths are joined
-- with "/", as `filepath.Join` does with clean parts.
use Prim.Native.Char.{code}
use Prim.Native.String.{◌++◌, slice}
use llmfit_dra.Prelude.{
  String, ℕ, ◌-◌, ◌≡◌, refl, leb, Option, none, some, List, [], ◌∷◌, Bool, ◌&&◌, ◌==◌,
  if◌then◌else◌, ltb,
}
use llmfit_dra.Prelude.Text.{cut_text, split_on}
use llmfit_dra.ModelClaim.Template.{trim_space}
use llmfit_dra.Probe.Parse.{
  trim_prefix, has_prefix, base_name, parse_uint, address_of, mem_total_of, fields,
}

-- What reading a directory gives: its entries' names in order, that it does not exist, or an error.
pub data DirAnswer : Type 0 where
  entries : List String → DirAnswer
  absent unreadable : DirAnswer

-- The answers of the file system, `none` an error; `parse_rate` is `strconv.ParseFloat` with whether
-- the number is negative and its whole part.
pub record Sysfs : Type 0 where
  pub read_dir : String → DirAnswer
  pub read_file : String → Option String
  pub read_link : String → Option String
  pub eval_symlinks : String → Option String
  pub exists : String → Bool
  pub parse_rate : String → Option (Bool × ℕ)

abbrev pub join_path : String → String → String
join_path dir name = dir ++ "/" ++ name

abbrev pub entries_of : DirAnswer → List String
entries_of (entries names) = names
entries_of _ = []

-- `normalizeLinkLayer`, of a text in ASCII.
unfoldable pub lower_text : String → String
lower_text String.[] = ""
lower_text (String.◌∷◌ c s) =
    let rest = lower_text s in
    if leb 65 (code c) && leb (code c) 90
    then slice "abcdefghijklmnopqrstuvwxyz" (code c - 65) (code c - 64) ++ rest
    else String.◌∷◌ c rest

unfoldable pub normalize_link_layer : String → String
unfolding lower_text
normalize_link_layer s = lower_text (trim_space s)

link_layer : normalize_link_layer "InfiniBand" ≡ "infiniband"
unfolding normalize_link_layer trim_space
link_layer = refl

-- What follows the first colon, with the later ones put back.
abbrev after_colon : String → List String → String
after_colon v [] = v
after_colon v (w ∷ ws) = v ++ ":" ++ after_colon w ws

module _ (fs : Sysfs) where
  unfoldable pub read_trimmed : String → String
  read_trimmed path = elim (fs.read_file path) [ none ↦ "" | some b ↦ trim_space b ]

  unfoldable pub read_hex_id : String → String
  unfolding cut_text
  read_hex_id path = elim (fs.read_file path) [
    | none ↦ ""
    | some b ↦ trim_prefix "0x" (trim_space b)
  ]

  unfoldable pub read_link_base : String → String
  unfolding base_name
  read_link_base path = elim (fs.read_link path) [ none ↦ "" | some target ↦ base_name target ]

  unfoldable pub read_uint : String → ℕ
  unfolding parse_uint
  read_uint path = elim (fs.read_file path) [
    | none ↦ 0
    | some b ↦ elim (parse_uint (trim_space b)) [ none ↦ 0 | some v ↦ v ]
  ]

  -- `pciAddress`: the address and the root complex.
  unfoldable pub pci_address : String → String × String
  unfolding address_of split_on
  pci_address dev_dir = elim (fs.eval_symlinks dev_dir) [
    | none ↦ ("", "")
    | some resolved ↦ address_of (split_on b'/' resolved) ("", "")
  ]

  -- `vramBytes`
  unfoldable pub vram_bytes : String → String → ℕ
  unfolding read_uint
  vram_bytes class_dir entry =
      let card = join_path class_dir entry in
      let amd = read_uint (join_path card "device/mem_info_vram_total") in
      let i915 = read_uint (join_path card "lmem_total_bytes") in
      if ltb 0 amd
      then amd
      else if ltb 0 i915
      then i915
      else read_uint (join_path card "device/tile0/physical_vram_size_bytes")

  unfoldable pub first_render : List String → String
  unfolding cut_text
  first_render [] = ""
  first_render (name ∷ rest) =
      let later = first_render rest in
      if has_prefix "renderD" name then "/dev/dri/" ++ name else later

  -- `renderNode`
  unfoldable pub render_node : String → String
  unfolding first_render
  render_node dev_dir = first_render (entries_of (fs.read_dir (join_path dev_dir "drm")))

  -- `firstDirEntry`
  unfoldable pub first_dir_entry : String → String
  first_dir_entry dir = elim (entries_of (fs.read_dir dir)) [ [] ↦ "" | name ∷ rest ↦ name ]

  unfoldable pub first_uverbs : String → String → List String → String
  unfolding cut_text read_trimmed
  first_uverbs verbs_dir ibdev [] = ""
  first_uverbs verbs_dir ibdev (name ∷ rest) =
      let later = first_uverbs verbs_dir ibdev rest in
      if has_prefix "uverbs" name
        && read_trimmed (join_path (join_path verbs_dir name) "ibdev") == ibdev
      then "/dev/infiniband/" ++ name
      else later

  -- `uverbsNode`
  unfoldable pub uverbs_node : String → String → String
  unfolding first_uverbs
  uverbs_node sys_root ibdev =
      let verbs_dir = join_path sys_root "class/infiniband_verbs" in
      first_uverbs verbs_dir ibdev (entries_of (fs.read_dir verbs_dir))

  -- `parseRateGbps`
  unfoldable pub parse_rate_gbps : String → ℕ
  parse_rate_gbps s = elim (fields s) [
    | [] ↦ 0
    | word ∷ rest ↦ elim (fs.parse_rate word) [
      | none ↦ 0
      | some (negative, whole) ↦ if negative then 0 else whole
    ]
  ]

  -- `memTotalBytes`
  unfoldable pub mem_total_bytes : String → Option ℕ
  unfolding mem_total_of split_on
  mem_total_bytes path = elim (fs.read_file path) [
    | none ↦ none
    | some text ↦ mem_total_of (split_on b'\n' text)
  ]

  unfoldable pub model_of : List String → String
  unfolding cut_text split_on
  model_of [] = ""
  model_of (line ∷ rest) =
      let later = model_of rest in
      if has_prefix "model name" line
      then (elim (split_on b':' line) [
        | [] ↦ later
        | key ∷ values ↦ elim values [ [] ↦ later | v ∷ vs ↦ trim_space (after_colon v vs) ]
      ])
      else later

  -- `cpuModel`
  unfoldable pub cpu_model : String → String
  unfolding model_of
  cpu_model path = elim (fs.read_file path) [
    | none ↦ ""
    | some text ↦ model_of (split_on b'\n' text)
  ]
