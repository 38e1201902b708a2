-- ===== src/Naming/Resolver.antt =====
-- rosrust/src/api/naming/mod.rs: the resolver of a node's names.
use rosrust.Prelude.{
  ℕ, Bool, true, false, Option, none, some, List, [], ◌∷◌, ◌==◌, if◌then◌else◌, Bytes,
}
use rosrust.Naming.Path.{
  Error, empty_name, Result, ok, err, ◌>>=◌, Slice, Buffer, slice, take, parent, display, add,
  from_str,
}
use rosrust.Naming.Mapper
use rosrust.Naming.Mapper.{Mapper}
pub mod Names
pub mod Remap

pub record Resolver : Type 0 where
  pub path : Buffer
  pub namespace : Buffer
  pub mapper : Mapper

-- `Resolver::new`.
unfoldable pub new : Bytes → Result Resolver
new name = do
  path ← from_str name
  namespace ← parent (slice path)
  ok (record { path = path; namespace = take namespace; mapper = Mapper.new })

-- `name.parse()` behind a base.
below : Buffer → Bytes → Result Buffer
below base name = do b ← from_str (b'/' ∷ name); ok (add base (slice b))

-- `Resolver::resolve`.
unfoldable pub resolve : Resolver → Bytes → Result Buffer
unfolding below
resolve r [] = err empty_name
resolve r (c ∷ cs) =
    if c == b'/'
    then from_str (c ∷ cs)
    else if c == b'~'
    then below r.path cs
    else below r.namespace (c ∷ cs)

-- `Resolver::map`; the resolver is unchanged on an error.
unfoldable pub map : Resolver → Bytes → Bytes → Result Resolver
map r source destination = do
  s ← resolve r source
  d ← resolve r destination
  ok (record r { mapper = Mapper.add s.chain d r.mapper })

-- The written form of what the mapper gives, or of the path itself.
written : Buffer → Option Slice → Bytes
written path (some v) = display v.chain
written path none = display path.chain

-- `Resolver::translate`.
unfoldable pub translate : Resolver → Bytes → Result Bytes
unfolding written
translate r name = do
  path ← resolve r name
  ok (written path (Mapper.translate path.chain r.mapper))
