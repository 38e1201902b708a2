-- ===== src/Codegen/Checksums/Count.antt =====
-- How many messages have a checksum, in a table with distinct keys.
use rosrust.Prelude.{
  Option, none, some, ℕ, suc, ◌≤◌, ◌≡◌, inl, inr, refl, sym, ap, ◌∙◌, Bool, true, false, [], ◌∷◌,
  arith, All, Option-cases, if◌then◌else◌, length,
}
use rosrust.Codegen.Scan.{Text}
use rosrust.Codegen.Field.{Entry, Hashes, get}
use rosrust.Codegen.Msg.{Msg}
use rosrust.Codegen.Checksums.{Messages, Sums, entry, added, pass}
use rosrust.Codegen.Checksums.Pass.{
  same_key, Distinct, get-cons, same_pair, visit-cases, true-ne-false,
}

is_some : {A : Type 0} → Option A → Bool
is_some none = false
is_some (some _) = true

-- How many messages have a checksum.
unfoldable pub count : Hashes → Messages → ℕ
unfolding is_some
count h [] = 0
count h (e ∷ ms) = let rest = count h ms in if is_some (get e.pkg e.name h) then suc rest else rest

count-others :
    (e : Entry Msg) (t : Text) (h : Hashes) (ms : Messages)
    → All (λ f. same_key e f ≡ false) ms
    → count (entry e.pkg e.name t ∷ h) ms ≡ count h ms
unfolding count
count-others e t h [] d = refl
count-others e t h (f ∷ ms) d = elim (get-cons (entry e.pkg e.name t) h f.pkg f.name) [
  | inl (a, b, _) ↦ absurd (true-ne-false (sym (same_pair a b) ∙ d.0))
  | inr (_, same) ↦ rw (count, same, count-others e t h ms d.1) refl
]

-- A checksum more is one message more that has one.
unfoldable pub Adds : Messages → Entry Msg → Type 0
Adds ms e =
    (h : Hashes) (t : Text)
    → get e.pkg e.name h ≡ none
    → count (entry e.pkg e.name t ∷ h) ms ≡ suc (count h ms)

Adds-head : (e : Entry Msg) (ms : Messages) → All (λ f. same_key e f ≡ false) ms → Adds (e ∷ ms) e
unfolding Adds count is_some
Adds-head e ms d h t new = elim (get-cons (entry e.pkg e.name t) h e.pkg e.name) [
  | inl (_, _, here) ↦ rw (count, here, new, count-others e t h ms d) refl
  | inr (differs, _) ↦ absurd (true-ne-false (sym (same_pair refl refl) ∙ differs))
]

Adds-tail :
    (e : Entry Msg) (ms fs : Messages)
    → All (λ f. same_key e f ≡ false) fs
    → All (Adds ms) fs
    → All (Adds (e ∷ ms)) fs
unfolding Adds count is_some
Adds-tail e ms [] d a = tt
Adds-tail e ms (f ∷ fs) d a = (one, Adds-tail e ms fs d.1 a.1)
  where
    one : Adds (e ∷ ms) f
    one h t new = elim (get-cons (entry f.pkg f.name t) h e.pkg e.name) [
      | inl (x, y, _) ↦ absurd (true-ne-false (sym (same_pair (sym x) (sym y)) ∙ d.0))
      | inr (_, same) ↦ elim (Option-cases (get e.pkg e.name h)) [
        | inl g ↦ rw (count, same, g, a.0 h t new) refl
        | inr (u, g) ↦ rw (count, same, g, a.0 h t new) refl
      ]
    ]

pub Distinct-Adds : (ms : Messages) → Distinct ms → All (Adds ms) ms
Distinct-Adds [] d = tt
Distinct-Adds (e ∷ ms) d = (Adds-head e ms d.0, Adds-tail e ms ms d.0 (Distinct-Adds ms d.1))

-- The entry of each message is found by its key.
unfoldable pub Found : Messages → Entry Msg → Type 0
Found ms e = get e.pkg e.name ms ≡ some e.item

Found-tail :
    (e : Entry Msg) (ms fs : Messages)
    → All (λ f. same_key e f ≡ false) fs
    → All (Found ms) fs
    → All (Found (e ∷ ms)) fs
unfolding Found
Found-tail e ms [] d a = tt
Found-tail e ms (f ∷ fs) d a = (one, Found-tail e ms fs d.1 a.1)
  where
    one : Found (e ∷ ms) f
    one = elim (get-cons e ms f.pkg f.name) [
      | inl (x, y, _) ↦ absurd (true-ne-false (sym (same_pair x y) ∙ d.0))
      | inr (_, same) ↦ same ∙ a.0
    ]

pub Distinct-Found : (ms : Messages) → Distinct ms → All (Found ms) ms
unfolding Found
Distinct-Found [] d = tt
Distinct-Found (e ∷ ms) d = (here, Found-tail e ms ms d.0 (Distinct-Found ms d.1))
  where
    here : Found (e ∷ ms) e
    here = elim (get-cons e ms e.pkg e.name) [
      | inl (_, _, found) ↦ found
      | inr (differs, _) ↦ absurd (true-ne-false (sym (same_pair refl refl) ∙ differs))
    ]

pub count_le : (h : Hashes) (ms : Messages) → count h ms ≤ length ms
unfolding count is_some
count_le h [] = omega arith
count_le h (e ∷ ms) = elim (Option-cases (get e.pkg e.name h)) [
  | inl g ↦ rw (count, g) (omega (arith, count_le h ms))
  | inr (_, g) ↦ rw (count, g) (omega (arith, count_le h ms))
]

pub count_full :
    (h : Hashes) (ms : Messages)
    → length ms ≤ count h ms
    → All (λ e. (t : Text) × (get e.pkg e.name h ≡ some t)) ms
unfolding count is_some
count_full h [] full = tt
count_full h (e ∷ ms) full = elim (Option-cases (get e.pkg e.name h)) [
  | inl g ↦
      let more : suc (length ms) ≤ count h ms = rw (count, g) at full in
      absurd (omega (arith, count_le h ms))
  | inr (t, g) ↦
      let more : suc (length ms) ≤ suc (count h ms) = rw (count, g) at full in
      ((t, g), count_full h ms (omega arith))
]

module _ (md5 : Text → Text) where
  pub pass-count :
      (messages ms : Messages) (s : Sums)
      → All (Adds messages) ms
      → length s.hashes ≡ count s.hashes messages
      → length (pass md5 ms s).hashes ≡ count (pass md5 ms s).hashes messages
  unfolding pass Adds
  pass-count messages [] s a c = c
  pass-count messages (e ∷ ms) s a c = elim (visit-cases md5 e s) [
    | inl (same, _) ↦ rw (pass, same) (pass-count messages ms s a.1 c)
    | inr (answer, new, _, is) ↦
        rw (pass, is)
          (pass-count messages ms (added md5 e answer s) a.1
            (ap suc c ∙ sym (a.0 s.hashes (md5 answer) new)))
  ]
