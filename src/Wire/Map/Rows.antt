-- ===== src/Wire/Map/Rows.antt =====
-- Rows and tables: the item of a row is split again, and `insert` on distinct keys.
use rosrust.Prelude.{
  none, some, ◌==◌, ◌≡◌, ◌≢◌, refl, sym, ap, ◌∙◌, true, false, List, [], ◌∷◌, ◌++◌, equal, All,
  Bool-cases, inl, inr, append_assoc, append-nil, Bytes,
}
use rosrust.Wire.Reader.{continues, tail_of}
use rosrust.Wire.Reader.Laws.{continues-append}
use rosrust.Wire.Map.{Row, get, insert, split_item}

-- A key without the sign that ends it.
abbrev pub IsKey : Bytes → Type 0
IsKey k = All (λ b. (b == b'=') ≡ false) k

pub split_item-item :
    (k v : Bytes) → IsKey k → split_item (k ++ (b'=' ∷ v)) ≡ some (record { key = k; value = v })
unfolding split_item
split_item-item [] v h = refl
split_item-item (b ∷ k) v h = rw (split_item-item k v h.1, h.0) refl

-- The item of a row with no key or value that is not a text.
pub item-is_utf8 :
    (k v : Bytes)
    → continues 0 0 0 k ≡ true
    → continues 0 0 0 v ≡ true
    → continues 0 0 0 (k ++ (b'=' ∷ v)) ≡ true
unfolding continues tail_of
item-is_utf8 k v hk hv = continues-append 0 0 0 k (b'=' ∷ v) hk hv

-- The keys of a table are distinct.
abbrev pub Distinct : List Row → Type 0
Distinct [] = Unit
Distinct (r ∷ table) = All (λ s. equal r.key s.key ≡ false) table × Distinct table

-- Rows inserted one after the other.
unfoldable pub insert_all : List Row → List Row → List Row
insert_all output [] = output
insert_all output (r ∷ rows) = insert_all (insert r output) rows

some-ne-none : {A : Type 0} {a : A} → some a ≢ none
some-ne-none h = cc

insert-new : (r : Row) (t : List Row) → get r.key t ≡ none → insert r t ≡ t ++ (r ∷ [])
unfolding insert get
insert-new r [] h = refl
insert-new r (s ∷ t) h = elim (Bool-cases (equal s.key r.key)) [
  | inl e ↦ absurd (some-ne-none (rw e at h))
  | inr e ↦ rw e (ap (◌∷◌ s) (insert-new r t (rw e at h)))
]

get-append-new :
    (k : Bytes) (t : List Row) (r : Row)
    → get k t ≡ none
    → equal r.key k ≡ false
    → get k (t ++ (r ∷ [])) ≡ none
unfolding get
get-append-new k [] r h e = rw e refl
get-append-new k (s ∷ t) r h e = elim (Bool-cases (equal s.key k)) [
  | inl f ↦ rw f (rw f at h)
  | inr f ↦ rw f (get-append-new k t r (rw f at h) e)
]

still_new :
    (r : Row) (t rows : List Row)
    → All (λ s. equal r.key s.key ≡ false) rows
    → All (λ s. get s.key t ≡ none) rows
    → All (λ s. get s.key (t ++ (r ∷ [])) ≡ none) rows
still_new r t [] d h = tt
still_new r t (s ∷ rows) d h = (get-append-new s.key t r h.0 d.0, still_new r t rows d.1 h.1)

pub insert_all-append :
    (t rows : List Row)
    → Distinct rows
    → All (λ s. get s.key t ≡ none) rows
    → insert_all t rows ≡ t ++ rows
unfolding insert_all
insert_all-append t [] d h = sym (append-nil t)
insert_all-append t (r ∷ rows) d h =
    ap (λ u. insert_all u rows) (insert-new r t h.0)
    ∙ (insert_all-append (t ++ (r ∷ [])) rows d.1 (still_new r t rows d.0 h.1)
        ∙ append_assoc t (r ∷ []) rows)

All-new : (rows : List Row) → All (λ s. get s.key [] ≡ none) rows
unfolding get
All-new [] = tt
All-new (r ∷ rows) = (refl, All-new rows)

pub insert_all-Distinct : (rows : List Row) → Distinct rows → insert_all [] rows ≡ rows
insert_all-Distinct rows d = insert_all-append [] rows d (All-new rows)
