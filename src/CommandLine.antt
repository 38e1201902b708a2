-- ===== src/CommandLine.antt =====
-- The command line of a node: rosrust/src/api/resolve.rs. The arguments, the variables of the
-- environment that are texts, and the host name that the system gives are parameters.
use rosrust.Prelude.{
  ℕ, zero, suc, ◌-◌, Bool, true, false, not, ◌&&◌, Option, none, some, List, [], ◌∷◌, ◌==◌,
  if◌then◌else◌, Bytes, codes, length,
}
pub mod Mappings
mod Tests

abbrev pub Pair : Type 0
Pair = Bytes × Bytes

unfoldable pub starts_with : Bytes → Bytes → Bool
starts_with [] s = true
starts_with (c ∷ prefix) [] = false
starts_with (c ∷ prefix) (d ∷ s) = c == d && starts_with prefix s

abbrev pub drop : ℕ → Bytes → Bytes
drop zero s = s
drop (suc n) [] = []
drop (suc n) (c ∷ s) = drop n s

-- `trim_start_matches`, which takes the prefix off as often as it is there.
unfoldable pub trim_start_matches : ℕ → Bytes → Bytes → Bytes
unfolding starts_with
trim_start_matches zero prefix s = s
trim_start_matches (suc fuel) prefix s =
    let shorter = trim_start_matches fuel prefix (drop (length prefix) s) in
    if starts_with prefix s then shorter else s

abbrev find : Bytes → List Bytes → Option Bytes
find prefix [] = none
find prefix (v ∷ args) =
    let later = find prefix args in if starts_with prefix v then some v else later

-- `args().skip(1)`.
abbrev pub skip_first : List Bytes → List Bytes
skip_first [] = []
skip_first (_ ∷ args) = args

unfoldable pub find_with_prefix : List Bytes → Bytes → Option Bytes
unfolding trim_start_matches
find_with_prefix args prefix = elim (find prefix (skip_first args)) [
  | none ↦ none
  | some v ↦ some (trim_start_matches (length v) prefix v)
]

abbrev unwrap_or : Option Bytes → Bytes → Bytes
unwrap_or none default = default
unwrap_or (some v) default = v

unfoldable pub master : List Bytes → (Bytes → Option Bytes) → Bytes
unfolding find_with_prefix
master args var =
    unwrap_or (find_with_prefix args (codes "__master:="))
      (unwrap_or (var (codes "ROS_MASTER_URI")) (codes "http://localhost:11311/"))

-- `system_hostname`, of the bytes that the system gives.
unfoldable pub system_hostname : Bytes → Bytes
system_hostname [] = []
system_hostname (v ∷ buffer) =
    let later = system_hostname buffer in if v == 0 then [] else v ∷ later

unfoldable pub hostname : List Bytes → (Bytes → Option Bytes) → Bytes → Bytes
unfolding find_with_prefix system_hostname
hostname args var buffer = unwrap_or (find_with_prefix args (codes "__hostname:=")) (
    unwrap_or (find_with_prefix args (codes "__ip:=")) (
      unwrap_or (var (codes "ROS_HOSTNAME"))
        (unwrap_or (var (codes "ROS_IP")) (system_hostname buffer))))

unfoldable pub namespace : List Bytes → (Bytes → Option Bytes) → Bytes
unfolding find_with_prefix
namespace args var =
    unwrap_or (find_with_prefix args (codes "__ns:=")) (unwrap_or (var (codes "ROS_NAMESPACE")) [])

unfoldable pub name : List Bytes → Bytes → Bytes
unfolding find_with_prefix
name args default = unwrap_or (find_with_prefix args (codes "__name:=")) default

abbrev pub push : ℕ → List Bytes → List Bytes
push c [] = (c ∷ []) ∷ []
push c (s ∷ parts) = (c ∷ s) ∷ parts

-- Whether a text starts with the second byte of ":=".
abbrev pub is_equal_next : Bytes → Bool
is_equal_next [] = false
is_equal_next (c ∷ s) = c == b'='

-- `split(":=")`; the flag says that the next byte is the second of a separator.
unfoldable pub split : Bool → Bytes → List Bytes
split second [] = [] ∷ []
split true (c ∷ s) = split false s
split false (c ∷ s) =
    let after = split true s in
    let later = split false s in if c == b':' && is_equal_next s then [] ∷ after else push c later

abbrev pub push_key : ℕ → Option Pair → Option Pair
push_key c none = none
push_key c (some (key, value)) = some (c ∷ key, value)

-- `splitn(2, ":=")`, if it gives two parts.
unfoldable pub split_once : Bytes → Option Pair
split_once [] = none
split_once (c ∷ s) =
    let later = split_once s in
    if c == b':' && is_equal_next s then some ([], drop 1 s) else push_key c later

abbrev pub pair_of : List Bytes → Option Pair
pair_of (key ∷ value ∷ []) = some (key, value)
pair_of _ = none

abbrev pub keep : Option Pair → List Pair → List Pair
keep none pairs = pairs
keep (some p) pairs = p ∷ pairs

abbrev pub mappings_of : List Bytes → List Pair
mappings_of [] = []
mappings_of (v ∷ args) =
    let later = mappings_of args in
    if starts_with (codes "_") v then later else keep (pair_of (split false v)) later

unfoldable pub mappings : List Bytes → List Pair
unfolding starts_with split
mappings args = mappings_of (skip_first args)

-- `replacen('_', "~", 1)`.
abbrev pub replace_first : Bytes → Bytes
replace_first [] = []
replace_first (c ∷ s) = let later = replace_first s in if c == b'_' then b'~' ∷ s else c ∷ later

abbrev pub tilde : Option Pair → Option Pair
tilde none = none
tilde (some (key, value)) = some (replace_first key, value)

abbrev pub params_of : List Bytes → List Pair
params_of [] = []
params_of (v ∷ args) =
    let later = params_of args in
    if starts_with (codes "_") v && not (starts_with (codes "__") v)
    then keep (tilde (split_once v)) later
    else later

unfoldable pub params : List Bytes → List Pair
unfolding starts_with split_once
params args = params_of (skip_first args)

abbrev is_assignment : Bytes → Bool
is_assignment v = elim (split_once v) [ none ↦ false | some _ ↦ true ]

abbrev unused_of : List Bytes → List Bytes
unused_of [] = []
unused_of (v ∷ args) = let later = unused_of args in if is_assignment v then later else v ∷ later

unfoldable pub get_unused_args : List Bytes → List Bytes
unfolding split_once
get_unused_args [] = []
get_unused_args (program ∷ args) = program ∷ unused_of args
