-- ===== src/Codegen/Collect/Insert.antt =====
-- `insert` on a table with distinct keys.
use rosrust.Prelude.{
  some, ◌≡◌, ◌⊎◌, inl, inr, refl, sym, ◌∙◌, false, ◌&&◌, List, [], ◌∷◌, All, equal,
}
use rosrust.Codegen.Scan.{Text}
use rosrust.Codegen.Field.{Entry, get}
use rosrust.Codegen.Msg.{Msg}
use rosrust.Codegen.Checksums.{Messages, insert}
use rosrust.Codegen.Checksums.Pass.{
  same_key, Distinct, get-cons, same_pair, none-ne-some, true-ne-false,
}

unfoldable pub Known : Messages → Text → Text → Type 0
Known msgs p n = (m : Msg) × (get p n msgs ≡ some m)

insert-cases :
    {A : Type 0} (new e : Entry A) (table : List (Entry A))
    → ((e.pkg ≡ new.pkg) × (e.name ≡ new.name) × (insert new (e ∷ table) ≡ new ∷ table))
      ⊎ ((equal e.pkg new.pkg && equal e.name new.name ≡ false)
          × (insert new (e ∷ table) ≡ e ∷ insert new table))
unfolding insert
insert-cases new e table = elim (get-cons e table new.pkg new.name) [
  | inl (a, b, _) ↦ inl (a, b, rw (insert, same_pair a b) refl)
  | inr (differs, _) ↦ inr (differs, rw (insert, differs) refl)
]

get-here :
    {A : Type 0} (e : Entry A) (table : List (Entry A)) → get e.pkg e.name (e ∷ table) ≡ some e.item
get-here e table = elim (get-cons e table e.pkg e.name) [
  | inl (_, _, here) ↦ here
  | inr (differs, _) ↦ absurd (true-ne-false (sym (same_pair refl refl) ∙ differs))
]

pub get-insert :
    {A : Type 0} (new : Entry A) (table : List (Entry A))
    → get new.pkg new.name (insert new table) ≡ some new.item
unfolding insert
get-insert new [] = get-here new []
get-insert new (e ∷ table) = elim (insert-cases new e table) [
  | inl (a, b, is) ↦ rw is (get-here new table)
  | inr (differs, is) ↦ rw is (elim (get-cons e (insert new table) new.pkg new.name) [
    | inl (a, b, _) ↦ absurd (true-ne-false (sym (same_pair a b) ∙ differs))
    | inr (_, later) ↦ later ∙ get-insert new table
  ])
]

pub insert-Known :
    (new : Entry Msg) (table : Messages) (p n : Text)
    → Known table p n
    → Known (insert new table) p n
unfolding insert Known get
insert-Known new [] p n (m, h) = absurd (none-ne-some h)
insert-Known new (e ∷ table) p n (m, h) = elim (insert-cases new e table) [
  | inl (a, b, is) ↦ rw is (elim (get-cons e table p n) [
    | inl (x, y, _) ↦ (new.item, found (sym a ∙ x) (sym b ∙ y))
    | inr (_, later) ↦ elim (get-cons new table p n) [
      | inl (_, _, here) ↦ (new.item, here)
      | inr (_, same) ↦ (m, same ∙ (sym later ∙ h))
    ]
  ])
  | inr (_, is) ↦ rw is (elim (get-cons e (insert new table) p n) [
    | inl (_, _, here) ↦ (e.item, here)
    | inr (differs, same) ↦ elim (get-cons e table p n) [
      | inl (x, y, _) ↦ absurd (true-ne-false (sym (same_pair x y) ∙ differs))
      | inr (_, later) ↦
          let rest = insert-Known new table p n (m, sym later ∙ h) in (rest.0, same ∙ rest.1)
    ]
  ])
]
  where
    found : new.pkg ≡ p → new.name ≡ n → get p n (new ∷ table) ≡ some new.item
    found x y = elim (get-cons new table p n) [
      | inl (_, _, here) ↦ here
      | inr (differs, _) ↦ absurd (true-ne-false (sym (same_pair x y) ∙ differs))
    ]

pub insert-All :
    {A : Type 0} (P : Entry A → Type 0) (new : Entry A) (table : List (Entry A))
    → P new
    → All P table
    → All P (insert new table)
unfolding insert
insert-All P new [] h a = (h, tt)
insert-All P new (e ∷ table) h a = elim (insert-cases new e table) [
  | inl (_, _, is) ↦ rw is (h, a.1)
  | inr (_, is) ↦ rw is (a.0, insert-All P new table h a.1)
]

pub insert-Distinct :
    (new : Entry Msg) (table : Messages) → Distinct table → Distinct (insert new table)
unfolding insert
insert-Distinct new [] d = (tt, tt)
insert-Distinct new (e ∷ table) d = elim (insert-cases new e table) [
  | inl (a, b, is) ↦ rw is (rw (sym a, sym b) d.0, d.1)
  | inr (differs, is) ↦
      rw is (
        insert-All (λ f. same_key e f ≡ false) new table differs d.0,
        insert-Distinct new table d.1,
      )
]
