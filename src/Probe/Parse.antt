-- ===== src/Probe/Parse.antt =====
-- The texts of sysfs and procfs that probe.go parses. They are ASCII, so a character is a byte.
use Prim.Native.Char.{code}
use Prim.Native.String.{◌++◌}
use llmfit_dra.Prelude.{
  String, ℕ, ◌+◌, ◌-◌, ◌*◌, ◌^◌, ◌%◌, ◌≡◌, refl, Option, none, some, List, [], ◌∷◌, Bool, true,
  false, ◌&&◌, ◌||◌, ◌==◌, if◌then◌else◌, ltb, leb, eqb,
}
use llmfit_dra.Prelude.Text.{codes, split_on, cut_text}
use llmfit_dra.ModelClaim.Template.{is_space}

-- `strings.TrimPrefix`
abbrev pub trim_prefix : String → String → String
trim_prefix p s = elim (cut_text p s) [ none ↦ s | some rest ↦ rest ]

abbrev pub has_prefix : String → String → Bool
has_prefix p s = elim (cut_text p s) [ none ↦ false | some rest ↦ true ]

-- `strings.Fields`: the pieces between white space; `word` is the piece that is being read.
abbrev end_word : String → List String → List String
end_word word rest = if word == "" then rest else word ∷ rest

unfoldable pub fields_from : String → String → List String
fields_from word String.[] = end_word word []
fields_from word (String.◌∷◌ c s) =
    let next = fields_from (if is_space (code c) then "" else word ++ String.◌∷◌ c "") s in
    if is_space (code c) then end_word word next else next

unfoldable pub fields : String → List String
unfolding fields_from
fields s = fields_from "" s

-- A text of decimal digits as its number.
unfoldable pub digits_from : ℕ → List ℕ → Option ℕ
digits_from n [] = some n
digits_from n (c ∷ rest) =
    let more = digits_from (n * 10 + (c - 48)) rest in if leb 48 c && leb c 57 then more else none

abbrev digits : List ℕ → Option ℕ
digits [] = none
digits (c ∷ rest) = digits_from 0 (c ∷ rest)

abbrev within : ℕ → Option ℕ → Option ℕ
within bound none = none
within bound (some n) = if ltb n bound then some n else none

-- `strconv.ParseUint(s, 10, 64)`
unfoldable pub parse_uint : String → Option ℕ
unfolding digits_from codes
parse_uint s = within (2 ^ 64) (digits (codes s))

-- Whether `strconv.Atoi` reads a number: an optional sign, then digits in the int64 range.
unfoldable pub atoi_codes : List ℕ → Option ℕ
unfolding digits_from
atoi_codes [] = none
atoi_codes (c ∷ rest) =
    if eqb c b'-'
    then within (2 ^ 63 + 1) (digits rest)
    else if eqb c b'+'
    then within (2 ^ 63) (digits rest)
    else within (2 ^ 63) (digits (c ∷ rest))

unfoldable pub is_number : String → Bool
unfolding atoi_codes codes
is_number s = elim (atoi_codes (codes s)) [ none ↦ false | some n ↦ true ]

-- `filepath.Base` of a link's target: the last part that is not empty.
unfoldable pub last_part : String → List String → String
last_part found [] = found
last_part found (p ∷ rest) = last_part (if p == "" then found else p) rest

unfoldable pub base_name : String → String
unfolding last_part split_on
base_name target = if target == "" then "." else last_part "/" (split_on b'/' target)

-- `len(part) == 12 && part[4] == ':' && part[7] == ':' && part[10] == '.'`
unfoldable pub address_codes : List ℕ → Bool
address_codes (a ∷ b ∷ c ∷ d ∷ e ∷ f ∷ g ∷ h ∷ i ∷ j ∷ k ∷ l ∷ []) =
    eqb e b':' && eqb h b':' && eqb k b'.'
address_codes _ = false

unfoldable pub has_colon : List ℕ → Bool
has_colon [] = false
has_colon (c ∷ rest) = eqb c b':' || has_colon rest

-- The loop of `pciAddress` over the parts of the resolved path.
unfoldable pub address_of : List String → String × String → String × String
unfolding address_codes has_colon codes cut_text
address_of [] found = found
address_of (part ∷ rest) (addr, root) = address_of rest (
  (if address_codes (codes part) then part else addr),
  (if has_prefix "pci" part && has_colon (codes part) then part else root),
)

unfoldable pub mem_total_of : List String → Option ℕ
unfolding fields parse_uint
mem_total_of [] = none
mem_total_of (line ∷ rest) =
    let later = mem_total_of rest in
    elim (fields line) [
      | [] ↦ later
      | key ∷ values ↦ elim values [
        | [] ↦ later
        | value ∷ more ↦
            if key == "MemTotal:"
            then (elim (parse_uint value) [ none ↦ none | some kb ↦ some (kb * 1024 % 2 ^ 64) ])
            else later
      ]
    ]

pci_path :
    address_of (split_on b'/' "/sys/devices/pci0000:00/0000:00:02.0/0000:01:00.0") ("", "")
    ≡ ("0000:01:00.0", "pci0000:00")
unfolding address_of split_on
pci_path = refl

meminfo : mem_total_of ("MemFree: 1 kB" ∷ "MemTotal:       65536 kB" ∷ []) ≡ some 67108864
unfolding mem_total_of is_space
meminfo = refl
