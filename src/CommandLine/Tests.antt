-- ===== src/CommandLine/Tests.antt =====
-- Witnesses and tests of the command line.
use rosrust.Prelude.{◌≡◌, refl, some, List, [], ◌∷◌, Bytes, codes, map}
use rosrust.CommandLine.{Pair, mappings, params, get_unused_args, master, find_with_prefix}
use rosrust.CommandLine.Mappings.{argument, mappings-arguments}

abbrev pairs : List Pair
pairs = (codes "a", codes "x") ∷ (codes "/c", codes "d") ∷ []

mappings-arguments_example : mappings (codes "node" ∷ map argument pairs) ≡ pairs
unfolding rosrust.CommandLine.starts_with
mappings-arguments_example =
    mappings-arguments (codes "node") pairs ((refl, refl, refl), ((refl, refl, refl), tt))

abbrev line : List Bytes
line =
    codes "node" ∷ codes "a:=b:=c" ∷ codes "this" ∷ codes "_foo:=123:=456" ∷ codes "__name:=me" ∷ []

mappings_test : mappings line ≡ []
unfolding mappings
mappings_test = refl

params_test : params line ≡ (codes "~foo", codes "123:=456") ∷ []
unfolding params
params_test = refl

unused_test : get_unused_args line ≡ codes "node" ∷ codes "this" ∷ []
unfolding get_unused_args
unused_test = refl

-- A prefix that is there twice is taken off twice.
prefix_test :
    find_with_prefix (codes "node" ∷ codes "__ns:=__ns:=x" ∷ []) (codes "__ns:=") ≡ some (codes "x")
unfolding find_with_prefix
prefix_test = refl
