-- ===== src/ModelClaim/Cel.antt =====
-- The selectors that template.go and nvidia.go print, as expressions: the shape of the text and
-- what it means on a device. The meaning is that of the CEL documentation and of the DRA device
-- environment, for the operators that the generated text uses: `&&` is false where one side is,
-- `||` is true where one side is, whatever the other side raises; a lookup of an absent attribute
-- or capacity, and a comparison at another type, raise an error.
pub mod Fit
pub mod Nvidia
pub mod Agrees
use Prim.Native.String.{◌++◌}
use llmfit_dra.Prelude.{
  String, ℕ, suc, ◌*◌, ◌^◌, Option, none, some, List, [], ◌∷◌, Bool, true, false, ◌==◌,
  if◌then◌else◌, any,
}
use llmfit_dra.Prelude.Maps.{lookup, has_key}
use llmfit_dra.Prelude.Text.{join_with}
use llmfit_dra.Prelude.Int64.{ℤ, pos, negsuc, sub_ℕ, leb64, decimal64}
use llmfit_dra.Resource.{Device}

-- The suffix of a quantity.
pub data Suffix : Type 0 where
  plain mebi gibi : Suffix

pub data Expr : Type 0 where
  falsum : Expr
  capacity_present : String → Expr
  capacity_at_least : String → ℤ → Suffix → Expr
  attribute_present : String → Expr
  attribute_at_least : String → ℤ → Expr
  attribute_holds : String → Expr
  attribute_is : String → String → Expr
  attribute_in : String → List String → Expr
  conj : Expr → Expr → Expr
  disj : Expr → Expr → Expr
  group : Expr → Expr

-- The end of a comparison with a quantity.
abbrev pub quantity_end : Suffix → String
quantity_end plain = "')) >= 0"
quantity_end mebi = "Mi')) >= 0"
quantity_end gibi = "Gi')) >= 0"

quote_all : List String → List String
quote_all [] = []
quote_all (p ∷ rest) = ("'" ++ p ++ "'") ∷ quote_all rest

-- `celProductList`
unfoldable pub cel_product_list : List String → String
unfolding quote_all
cel_product_list products = "[" ++ join_with ", " (quote_all products) ++ "]"

-- The lookups of the selectors, with the driver's domain filled in.
abbrev pub in_capacity : String → String → String
in_capacity d k = "'" ++ k ++ "' in device.capacity['" ++ d ++ "']"

abbrev pub capacity_ref : String → String → String
capacity_ref d k = "device.capacity['" ++ d ++ "']." ++ k

abbrev pub in_attributes : String → String → String
in_attributes d k = "'" ++ k ++ "' in device.attributes['" ++ d ++ "']"

abbrev pub attribute_ref : String → String → String
attribute_ref d k = "device.attributes['" ++ d ++ "']." ++ k

-- The text of an expression over the attributes and capacities of the driver `d`.
unfoldable pub render : String → Expr → String
render d falsum = "false"
render d (capacity_present k) = in_capacity d k
render d (capacity_at_least k n s) =
    capacity_ref d k ++ ".compareTo(quantity('" ++ decimal64 n ++ quantity_end s
render d (attribute_present k) = in_attributes d k
render d (attribute_at_least k n) = attribute_ref d k ++ " >= " ++ decimal64 n
render d (attribute_holds k) = attribute_ref d k
render d (attribute_is k s) = attribute_ref d k ++ " == '" ++ s ++ "'"
render d (attribute_in k l) = attribute_ref d k ++ " in " ++ cel_product_list l
render d (conj a b) = render d a ++ " && " ++ render d b
render d (disj a b) = render d a ++ " || " ++ render d b
render d (group a) = "(" ++ render d a ++ ")"

pub data Truth : Type 0 where
  holds fails raises : Truth

abbrev pub of_bool : Bool → Truth
of_bool true = holds
of_bool false = fails

abbrev pub truth_and : Truth → Truth → Truth
truth_and fails b = fails
truth_and holds b = b
truth_and raises fails = fails
truth_and raises holds = raises
truth_and raises raises = raises

abbrev pub truth_or : Truth → Truth → Truth
truth_or holds b = holds
truth_or fails b = b
truth_or raises holds = holds
truth_or raises fails = raises
truth_or raises raises = raises

factor : Suffix → ℕ
factor plain = 1
factor mebi = 2 ^ 20
factor gibi = 2 ^ 30

-- The number of a quantity, in units of 1.
abbrev pub scale : ℕ → ℤ → ℤ
scale k (pos n) = pos (n * k)
scale k (negsuc n) = sub_ℕ 0 (suc n * k)

abbrev pub member : String → List String → Bool
member s = any (λ t. t == s)

unfoldable pub meaning : Expr → Device → Truth
unfolding factor
meaning falsum dev = fails
meaning (capacity_present k) dev = of_bool (has_key k dev.capacity)
meaning (capacity_at_least k n s) dev = elim (lookup k dev.capacity) [
  | none ↦ raises
  | some v ↦ of_bool (leb64 (scale (factor s) n) v)
]
meaning (attribute_present k) dev = of_bool (has_key k dev.attributes)
meaning (attribute_at_least k n) dev = elim (lookup k dev.attributes) [
  | none ↦ raises
  | some a ↦ elim a.int_value [ none ↦ raises | some v ↦ of_bool (leb64 n v) ]
]
meaning (attribute_holds k) dev = elim (lookup k dev.attributes) [
  | none ↦ raises
  | some a ↦ elim a.bool_value [ none ↦ raises | some v ↦ of_bool v ]
]
meaning (attribute_is k s) dev = elim (lookup k dev.attributes) [
  | none ↦ raises
  | some a ↦ elim a.string_value [ none ↦ raises | some v ↦ of_bool (v == s) ]
]
meaning (attribute_in k l) dev = elim (lookup k dev.attributes) [
  | none ↦ raises
  | some a ↦ elim a.string_value [ none ↦ raises | some v ↦ of_bool (member v l) ]
]
meaning (conj a b) dev = truth_and (meaning a dev) (meaning b dev)
meaning (disj a b) dev = truth_or (meaning a dev) (meaning b dev)
meaning (group a) dev = meaning a dev
