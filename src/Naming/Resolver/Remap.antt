-- ===== src/Naming/Resolver/Remap.antt =====
-- What `map` changes, and what `translate` returns in a resolver that was built by calls.
use mathlib.Core.Path.{subst}
use rosrust.Prelude.{
  ◌≡◌, refl, sym, ◌∙◌, inl, inr, some, List, [], ◌∷◌, if◌then◌else◌, Bool-cases, Option-cases,
  Bytes, equal_all,
}
use rosrust.Naming.Path.{
  Result, ok, err, >>=-eq-ok, ok-injective, ◌>>=◌, Slice, Buffer, slice, display, from_str,
}
use rosrust.Naming.Path.Parse.{IsValid, from_str-display_valid}
use rosrust.Naming.Mapper
use rosrust.Naming.Mapper.{Mapper}
use rosrust.Naming.Mapper.Lookup.{translate-add}
use rosrust.Naming.Resolver.{Resolver, new, resolve, map, written, translate}
use rosrust.Naming.Resolver.Names.{IsResolver, new-IsResolver, resolve-IsValid}

abbrev added : Resolver → Buffer → Buffer → Resolver
added r s d = record r { mapper = Mapper.add s.chain d r.mapper }

map-ok :
    (r : Resolver) (source destination : Bytes) {r' : Resolver}
    → map r source destination ≡ ok r'
    → (s d : Buffer) × (resolve r source ≡ ok s)
      × (resolve r destination ≡ ok d)
      × (added r s d ≡ r')
unfolding map
map-ok r source destination h =
    let (s, es, rest) = >>=-eq-ok (resolve r source) _ h in
    let (d, ed, last) = >>=-eq-ok (resolve r destination) _ rest in
    (s, d, es, ed, ok-injective last)

-- Names resolve the same way after a remapping.
resolve-added : (r : Resolver) (s d : Buffer) (n : Bytes) → resolve (added r s d) n ≡ resolve r n
unfolding resolve
resolve-added r s d [] = refl
resolve-added r s d (c ∷ cs) = refl

written-added :
    (m : Mapper) (s d p : Buffer)
    → written p (Mapper.translate p.chain (Mapper.add s.chain d m)) ≡ (
        if equal_all s.chain p.chain
        then display d.chain
        else written p (Mapper.translate p.chain m))
unfolding written
written-added m s d p = elim (Bool-cases (equal_all s.chain p.chain)) [
  | inl e ↦ rw (translate-add s.chain p.chain d m, e)
  | inr e ↦ rw (translate-add s.chain p.chain d m, e)
]

translate-added :
    (r : Resolver) (s d : Buffer) (name : Bytes)
    → translate (added r s d) name ≡ (do
      p ← resolve r name
      if equal_all s.chain p.chain then ok (display d.chain) else translate r name)
unfolding translate
translate-added r s d name = rw (resolve-added r s d name) (go (resolve r name) refl)
  where
    go :
        (o : Result Buffer)
        → resolve r name ≡ o
        → (o >>= λ p. ok (written p (Mapper.translate p.chain (Mapper.add s.chain d r.mapper)))) ≡ (
            o >>= λ p. if equal_all s.chain p.chain then ok (display d.chain) else translate r name)
    go (err x) e = refl
    go (ok p) e =
        rw (e, written-added r.mapper s d p)
          elim (Bool-cases (equal_all s.chain p.chain)) [ inl t ↦ rw t | inr t ↦ rw t ]

-- After `map` succeeds, a name that resolves to what the source resolves to is translated to the
-- destination, and every other name as before, errors included.
pub translate-map :
    (r : Resolver) (source destination : Bytes) {r' : Resolver} {s d : Buffer}
    → map r source destination ≡ ok r'
    → resolve r source ≡ ok s
    → resolve r destination ≡ ok d
    → (name : Bytes)
    → translate r' name ≡ (do
      p ← resolve r name
      if equal_all s.chain p.chain then ok (display d.chain) else translate r name)
translate-map r source destination {r'} {s} {d} h hs hd name =
    let (s', d', es, ed, e) = map-ok r source destination h in
    let same_s : s' ≡ s = ok-injective (sym es ∙ hs) in
    let same_d : d' ≡ d = ok-injective (sym ed ∙ hd) in
    rw (← e, same_s, same_d) (translate-added r s d name)

-- A resolver that calls of the interface have made.
pub data Built : Resolver → Type 0 where
  made : (name : Bytes) {r : Resolver} → new name ≡ ok r → Built r
  mapped :
      (source destination : Bytes) {r r' : Resolver}
      → Built r
      → map r source destination ≡ ok r'
      → Built r'

added-IsValid :
    (m : Mapper) (s d : Buffer) (ks : List Bytes)
    → IsValid d.chain
    → ((v : Slice) → Mapper.translate ks m ≡ some v → IsValid v.chain)
    → (v : Slice) → Mapper.translate ks (Mapper.add s.chain d m) ≡ some v
    → IsValid v.chain
added-IsValid m s d ks h old v t = elim (Bool-cases (equal_all s.chain ks)) [
  | inl e ↦
      let same : some (slice d) ≡ some v = rw (translate-add s.chain ks d m, e) at t in
      subst (λ (x : Slice). IsValid x.chain) (cc same) h
  | inr e ↦ old v (rw (translate-add s.chain ks d m, e) at t)
]

map-IsResolver :
    (r : Resolver) (source destination : Bytes) {r' : Resolver}
    → IsResolver r
    → map r source destination ≡ ok r'
    → IsResolver r'
map-IsResolver r source destination i h =
    let (s, d, es, ed, e) = map-ok r source destination h in
    subst IsResolver e (record {
      path_valid = i.path_valid;
      namespace_valid = i.namespace_valid;
      node = i.node;
      remaps_valid = λ ks v t.
          added-IsValid r.mapper s d ks (resolve-IsValid r destination i ed) (i.remaps_valid ks) v
            t;
    })

pub Built-IsResolver : {r : Resolver} → Built r → IsResolver r
Built-IsResolver (made name h) = (new-IsResolver name h).0
Built-IsResolver (mapped source destination {r} b h) =
    map-IsResolver r source destination (Built-IsResolver b) h

abbrev Parses : Bytes → Type 0
Parses t = (b : Buffer) × (from_str t ≡ ok b) × (display b.chain ≡ t)

parses : (c : List Bytes) → IsValid c → Parses (display c)
parses c v = (record { chain = c }, from_str-display_valid (record { chain = c }) v, refl)

-- What `translate` returns is the written form of a chain of legal words, which parses back to it.
pub translate-parses :
    {r : Resolver} (name : Bytes) {t : Bytes}
    → Built r
    → translate r name ≡ ok t
    → (b : Buffer) × (from_str t ≡ ok b) × (display b.chain ≡ t)
unfolding translate written
translate-parses {r} name {t} b h =
    let i = Built-IsResolver b in
    let (p, resolved, e) = >>=-eq-ok (resolve r name) _ h in
    elim (Option-cases (Mapper.translate p.chain r.mapper)) [
      | inl missing ↦
          subst Parses (ok-injective (rw missing at e))
            (parses p.chain (resolve-IsValid r name i resolved))
      | inr (v, found) ↦
          subst Parses (ok-injective (rw found at e))
            (parses v.chain (i.remaps_valid p.chain v found))
    ]
