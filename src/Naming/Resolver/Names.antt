-- ===== src/Naming/Resolver/Names.antt =====
-- What names resolve to, and the invariant of a resolver.
use mathlib.Core.Path.{subst}
use rosrust.Prelude.{
  ℕ, ◌≡◌, ◌≢◌, refl, sym, ap, ◌∙◌, inl, inr, none, some, List, [], ◌∷◌, ◌++◌, arith, ◌==◌,
  Bool-cases, All-append, Bytes,
}
use rosrust.Naming.Path.{
  ok, >>=-eq-ok, ok-injective, Slice, Buffer, slice, add, split_last, parent, display, trim_end,
  from_str,
}
use rosrust.Naming.Path.Parse.{
  IsWord, IsValid, joined, display-joined, from_str_iff, from_str-display_valid,
}
use rosrust.Naming.Mapper
use rosrust.Naming.Mapper.Lookup.{translate-new}
use rosrust.Naming.Resolver.{Resolver, new, resolve, below}

-- The node's name is one word below its namespace, all names held are legal.
pub record IsResolver (r : Resolver) : Type 0 where
  pub path_valid : IsValid r.path.chain
  pub namespace_valid : IsValid r.namespace.chain
  pub node : (w : Bytes) × (r.path.chain ≡ r.namespace.chain ++ w ∷ [])
  pub remaps_valid :
      (ks : List Bytes) (v : Slice) → Mapper.translate ks r.mapper ≡ some v → IsValid v.chain

split_last-concat :
    (w : Bytes) (ws : List Bytes) → (l : Bytes) × (w ∷ ws ≡ split_last w ws ++ l ∷ [])
unfolding split_last
split_last-concat w [] = (w, refl)
split_last-concat w (v ∷ ws) = let (l, e) = split_last-concat v ws in (l, ap (◌∷◌ w) e)

split_last-IsValid : (w : Bytes) (ws : List Bytes) → IsValid (w ∷ ws) → IsValid (split_last w ws)
unfolding split_last
split_last-IsValid w [] h = tt
split_last-IsValid w (v ∷ ws) h = (h.0, split_last-IsValid v ws h.1)

parent-ok :
    (c : List Bytes) {s : Slice}
    → IsValid c
    → parent (record { chain = c }) ≡ ok s
    → IsValid s.chain × ((w : Bytes) × (c ≡ s.chain ++ w ∷ []))
unfolding parent
parent-ok [] v h = cc
parent-ok (w ∷ ws) {s} v h =
    let e : s.chain ≡ split_last w ws = ground arith in
    rw e (split_last-IsValid w ws v, split_last-concat w ws)

none_ne_some {ℓ} : {A : Type ℓ} {a : A} → ¬ (none ≡ some a)
none_ne_some h = cc

-- A resolver that is made holds its invariant, and its path is the given name.
pub new-IsResolver :
    (name : Bytes) {r : Resolver}
    → new name ≡ ok r
    → IsResolver r × (display r.path.chain ≡ trim_end name)
unfolding new
new-IsResolver name {r} h =
    let (p, parsed, rest) = >>=-eq-ok (from_str name) _ h in
    let (n, up, last) = >>=-eq-ok (parent (slice p)) _ rest in
    let (valid, shown) = (from_str_iff name p).0 parsed in
    let (w, e) = (parent-ok p.chain valid up).1 in
    subst (λ x. IsResolver x × (display x.path.chain ≡ trim_end name)) (ok-injective last)
      (
        record {
          path_valid = valid;
          namespace_valid = (parent-ok p.chain valid up).0;
          node = (w, e);
          remaps_valid = λ ks v t. absurd (none_ne_some (sym (translate-new ks) ∙ t));
        },
        shown,
      )

from_str-IsValid : (s : Bytes) {b : Buffer} → from_str s ≡ ok b → IsValid b.chain
from_str-IsValid s {b} h = ((from_str_iff s b).0 h).0

below-IsValid :
    (base : Buffer) (s : Bytes) {b : Buffer}
    → IsValid base.chain
    → below base s ≡ ok b
    → IsValid b.chain
unfolding below
below-IsValid base s {b} v h =
    let (c, parsed, e) = >>=-eq-ok (from_str (b'/' ∷ s)) _ h in
    subst (λ (x : Buffer). IsValid x.chain) (ok-injective e)
      (All-append IsWord base.chain c.chain v (from_str-IsValid _ parsed))

-- Whatever a name resolves to is a chain of legal words.
pub resolve-IsValid :
    (r : Resolver) (name : Bytes) {b : Buffer}
    → IsResolver r
    → resolve r name ≡ ok b
    → IsValid b.chain
unfolding resolve
resolve-IsValid r [] i h = cc
resolve-IsValid r (c ∷ cs) i h = elim (Bool-cases (c == b'/')) [
  | inl e ↦ from_str-IsValid (c ∷ cs) (rw e at h)
  | inr e ↦ elim (Bool-cases (c == b'~')) [
    | inl t ↦ below-IsValid r.path cs i.path_valid (rw (e, t) at h)
    | inr t ↦ below-IsValid r.namespace (c ∷ cs) i.namespace_valid (rw (e, t) at h)
  ]
]

below_lem :
    (base : Buffer) (w : Bytes) (ws : List Bytes)
    → IsValid (w ∷ ws)
    → below base (joined (w ∷ ws)) ≡ ok (add base (record { chain = w ∷ ws }))
unfolding below
below_lem base w ws v =
    let read = from_str-display_valid (record { chain = w ∷ ws }) v in
    rw (rw (display-joined (w ∷ ws) (λ e. cc)) at read)

-- A name with the words `ws` resolves to those words if it is written absolutely, to the node's
-- path with the words behind it if a tilde stands in front, and else to the namespace with them
-- behind it.
pub resolve_forms :
    (r : Resolver) (c : ℕ) (cs : Bytes) (ws : List Bytes)
    → IsValid ((c ∷ cs) ∷ ws)
    → c ≢ b'~'
    → let words = (c ∷ cs) ∷ ws in
      (resolve r (display words) ≡ ok (record { chain = words }))
      × (resolve r (b'~' ∷ joined words) ≡ ok (record { chain = r.path.chain ++ words }))
      × (resolve r (joined words) ≡ ok (record { chain = r.namespace.chain ++ words }))
unfolding resolve
resolve_forms r c cs ws v n = (from_absolute, below_lem r.path (c ∷ cs) ws v, relative)
  where
    from_absolute : resolve r (display ((c ∷ cs) ∷ ws)) ≡ ok (record { chain = (c ∷ cs) ∷ ws })
    from_absolute =
        let read = from_str-display_valid (record { chain = (c ∷ cs) ∷ ws }) v in
        rw (display-joined ((c ∷ cs) ∷ ws) (λ e. cc))
          (rw (display-joined ((c ∷ cs) ∷ ws) (λ e. cc)) at read)

    relative :
        resolve r (joined ((c ∷ cs) ∷ ws))
        ≡ ok (record { chain = r.namespace.chain ++ (c ∷ cs) ∷ ws })
    relative =
        let base = below_lem r.namespace (c ∷ cs) ws v in ground (arith, base, v.0.no_slash.0)
