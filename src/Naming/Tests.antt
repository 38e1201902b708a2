-- ===== src/Naming/Tests.antt =====
-- The unit tests of the naming modules, and the theorems at concrete names.
use rosrust.Prelude.{◌≡◌, ◌↔◌, refl, [], ◌∷◌, arith, if◌then◌else◌, codes, equal, equal_all}
use rosrust.Naming.Path.{
  ok, err, empty_name, illegal_character, leading_slash_missing, missing_parent, Buffer, slice,
  display, trim_end, from_str, parent, is_legal_char, ◌>>=◌,
}
use rosrust.Naming.Path.Parse.{IsWord, IsValid, from_str_iff}
use rosrust.Naming.Mapper
use rosrust.Naming.Resolver.{Resolver, new, resolve, map, translate}
use rosrust.Naming.Resolver.Remap.{made, mapped, translate-map, translate-parses}

abbrev foo_bar : Buffer
foo_bar = record { chain = codes "foo" ∷ codes "b_r" ∷ [] }

parses :
    (from_str (codes "/foo/b_r") ≡ ok foo_bar)
    × (from_str (codes "/foo/b_r//") ≡ ok foo_bar)
    × (from_str (codes "/") ≡ ok (record { chain = [] }))
    × (from_str (codes "a") ≡ err (leading_slash_missing (codes "a")))
    × (from_str (codes "/foo$") ≡ err (illegal_character (codes "foo$")))
    × (from_str (codes "/a//b") ≡ err empty_name)
unfolding from_str
parses = (refl, refl, refl, refl, refl, refl)

-- A tilde passes inside a word too, though the error's text speaks of letters, numbers and
-- underscores only.
tilde_passes : from_str (codes "/a~b") ≡ ok (record { chain = codes "a~b" ∷ [] })
unfolding from_str
tilde_passes = refl

parents :
    (parent (slice foo_bar) ≡ ok (record { chain = codes "foo" ∷ [] }))
    × (parent (record { chain = [] }) ≡ err missing_parent)
unfolding parent
parents = (refl, refl)

foo-IsWord : IsWord (codes "foo")
unfolding is_legal_char
foo-IsWord = record {
  ne_nil = λ e. cc;
  no_slash = (ground arith, (ground arith, (ground arith, tt)));
  legal = (refl, (refl, (refl, tt)));
}

b_r-IsWord : IsWord (codes "b_r")
unfolding is_legal_char
b_r-IsWord = record {
  ne_nil = λ e. cc;
  no_slash = (ground arith, (ground arith, (ground arith, tt)));
  legal = (refl, (refl, (refl, tt)));
}

from_str_iff_example :
    (from_str (codes "/foo/b_r/") ≡ ok foo_bar)
    ↔ (IsValid foo_bar.chain × (display foo_bar.chain ≡ trim_end (codes "/foo/b_r/")))
from_str_iff_example = from_str_iff (codes "/foo/b_r/") foo_bar

abbrev node : Resolver
node = record {
  path = record { chain = codes "some" ∷ codes "long" ∷ codes "path" ∷ [] };
  namespace = record { chain = codes "some" ∷ codes "long" ∷ [] };
  mapper = Mapper.new;
}

node_new : new (codes "/some/long/path") ≡ ok node
unfolding new from_str parent
node_new = refl

abbrev remapped : Resolver
unfolding Mapper.add
remapped = record node {
  mapper =
      Mapper.add (codes "some" ∷ codes "long" ∷ codes "foo" ∷ [])
        (record { chain = codes "a" ∷ [] }) Mapper.new;
}

node_map : map node (codes "foo") (codes "/a") ≡ ok remapped
unfolding map resolve from_str remapped
node_map = refl

translate-map_example : translate remapped (codes "foo") ≡ (do
  p ← resolve node (codes "foo")
  if equal_all (codes "some" ∷ codes "long" ∷ codes "foo" ∷ []) p.chain
      then ok (display (codes "a" ∷ []))
      else translate node (codes "foo"))
translate-map_example =
    translate-map node (codes "foo") (codes "/a")
      {s = record { chain = codes "some" ∷ codes "long" ∷ codes "foo" ∷ [] }}
      {d = record { chain = codes "a" ∷ [] }} node_map (unfold resolve from_str in refl)
      (unfold resolve from_str in refl) (codes "foo")

remapped_translates :
    (translate remapped (codes "foo") ≡ ok (codes "/a"))
    × (translate remapped (codes "~foo") ≡ ok (codes "/some/long/path/foo"))
unfolding translate resolve from_str Mapper.add Mapper.translate display equal
remapped_translates = (refl, refl)

translate-parses_example :
    (b : Buffer) × (from_str (codes "/a") ≡ ok b) × (display b.chain ≡ codes "/a")
translate-parses_example =
    translate-parses (codes "foo")
      (mapped (codes "foo") (codes "/a") (made (codes "/some/long/path") node_new) node_map)
      remapped_translates.0
