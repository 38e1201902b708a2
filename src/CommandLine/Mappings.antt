-- ===== src/CommandLine/Mappings.antt =====
-- The remappings that a command line gives: rosrust/src/api/resolve.rs.
use rosrust.Prelude.{
  ◌≡◌, refl, ap, Bool, true, false, ◌&&◌, ◌||◌, List, [], ◌∷◌, ◌++◌, ◌==◌, Bytes, codes, All, map,
}
use rosrust.CommandLine.{Pair, starts_with, push, is_equal_next, split, mappings_of, mappings}

-- A text with no ":=" in it.
abbrev pub has_separator : Bytes → Bool
has_separator [] = false
has_separator (c ∷ s) = (c == b':' && is_equal_next s) || has_separator s

-- The argument for a remapping.
abbrev pub argument : Pair → Bytes
argument (key, value) = key ++ (codes ":=" ++ value)

-- A key and a value that a remapping can have: neither has a ":=", and the key has no '_' in front.
abbrev pub Fits : Pair → Type 0
Fits (key, value) =
    (has_separator key ≡ false)
    × (has_separator value ≡ false)
    × (starts_with (codes "_") (argument (key, value)) ≡ false)

or_parts : (a b : Bool) → (a || b) ≡ false → (a ≡ false) × (b ≡ false)
or_parts false b h = (refl, h)
or_parts true b h = cc

split-whole : (s : Bytes) → has_separator s ≡ false → split false s ≡ s ∷ []
unfolding split
split-whole [] h = refl
split-whole (c ∷ s) h =
    let parts = or_parts (c == b':' && is_equal_next s) (has_separator s) h in
    rw (parts.0) (ap (push c) (split-whole s parts.1))

next-same : (s value : Bytes) → is_equal_next (s ++ (codes ":=" ++ value)) ≡ is_equal_next s
next-same [] value = refl
next-same (c ∷ s) value = refl

split-argument :
    (key value : Bytes)
    → has_separator key ≡ false
    → split false (key ++ (codes ":=" ++ value)) ≡ key ∷ split false value
unfolding split
split-argument [] value h = refl
split-argument (c ∷ key) value h =
    let parts = or_parts (c == b':' && is_equal_next key) (has_separator key) h in
    rw (next-same key value, parts.0) (ap (push c) (split-argument key value parts.1))

mappings_of-arguments :
    (pairs : List Pair) → All Fits pairs → mappings_of (map argument pairs) ≡ pairs
mappings_of-arguments [] h = refl
mappings_of-arguments ((key, value) ∷ pairs) (fits, rest) =
    rw (fits.2, split-argument key value fits.0, split-whole value fits.1)
      (ap (λ (ps : List Pair). (key, value) ∷ ps) (mappings_of-arguments pairs rest))

-- The remappings that are read from a command line are those that were written on it, in their order,
-- if no key or value has a ":=" and no key an underscore in front.
pub mappings-arguments :
    (program : Bytes) (pairs : List Pair)
    → All Fits pairs
    → mappings (program ∷ map argument pairs) ≡ pairs
unfolding mappings
mappings-arguments program pairs h = mappings_of-arguments pairs h
