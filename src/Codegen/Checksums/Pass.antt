-- ===== src/Codegen/Checksums/Pass.antt =====
-- One pass over the messages: what it keeps, and what it means that it changes nothing.
use rosrust.Prelude.{
  none, some, ◌<◌, ◌≤◌, ◌≡◌, ◌≢◌, ◌⊎◌, inl, inr, refl, sym, ◌∙◌, Bool, true, false, ◌&&◌, List, [],
  ◌∷◌, arith, All, Bool-cases, Option-cases, length, equal, equal_iff, equal_refl,
}
use rosrust.Codegen.Scan.{Text}
use rosrust.Codegen.Field.{Entry, Hashes, get}
use rosrust.Codegen.Msg.{Msg, get_md5_representation}
use rosrust.Codegen.Msg.Dependencies.{Extends, get_md5_representation-Extends}
use rosrust.Codegen.Checksums.{Messages, Sums, entry, added, visit, pass}

pub none-ne-some : {A : Type 0} {a : A} → none ≢ some a
none-ne-some h = cc

pub true-ne-false : true ≢ false
true-ne-false h = cc

pub some-injective : {A : Type 0} {a b : A} → some a ≡ some b → a ≡ b
some-injective h = cc

abbrev pub same_key : {A B : Type 0} → Entry A → Entry B → Bool
same_key e f = equal e.pkg f.pkg && equal e.name f.name

-- The keys of a `HashMap` are distinct.
abbrev pub Distinct : {A : Type 0} → List (Entry A) → Type 0
Distinct [] = Unit
Distinct (e ∷ table) = All (λ f. same_key e f ≡ false) table × Distinct table

pub same_pair : {a b p n : Text} → a ≡ p → b ≡ n → (equal a p && equal b n) ≡ true
same_pair {p = p} {n = n} x y = rw (x, y, equal_refl p, equal_refl n) refl

pub get-cons :
    {A : Type 0} (e : Entry A) (table : List (Entry A)) (p n : Text)
    → ((e.pkg ≡ p) × (e.name ≡ n) × (get p n (e ∷ table) ≡ some e.item))
      ⊎ ((equal e.pkg p && equal e.name n ≡ false) × (get p n (e ∷ table) ≡ get p n table))
unfolding get
get-cons e table p n = elim (Bool-cases (equal e.pkg p)) [
  | inr a ↦ inr (rw a refl, rw (get, a) refl)
  | inl a ↦ elim (Bool-cases (equal e.name n)) [
    | inr b ↦ inr (rw (a, b) refl, rw (get, a, b) refl)
    | inl b ↦ inl ((equal_iff e.pkg p).0 a, (equal_iff e.name n).0 b, rw (get, a, b) refl)
  ]
]

-- Adding a key that is not there.
cons-Extends : (e : Entry Text) (h : Hashes) → get e.pkg e.name h ≡ none → Extends h (e ∷ h)
cons-Extends e h new p n t k = elim (get-cons e h p n) [
  | inl (a, b, _) ↦
      let there : get e.pkg e.name h ≡ some t = rw (a, b) k in
      absurd (none-ne-some (sym new ∙ there))
  | inr (_, same) ↦ same ∙ k
]

pub visit-cases :
    (md5 : Text → Text) (e : Entry Msg) (s : Sums)
    → ((visit md5 e s ≡ s)
        × (((t : Text) × (get e.pkg e.name s.hashes ≡ some t))
            ⊎ (get_md5_representation e.item s.hashes ≡ none)))
      ⊎ ((answer : Text) × (get e.pkg e.name s.hashes ≡ none)
          × (get_md5_representation e.item s.hashes ≡ some answer)
          × (visit md5 e s ≡ added md5 e answer s))
unfolding visit
visit-cases md5 e s = elim (Option-cases (get e.pkg e.name s.hashes)) [
  | inr (t, k) ↦ inl (rw (visit, k) refl, inl (t, k))
  | inl k ↦ elim (Option-cases (get_md5_representation e.item s.hashes)) [
    | inl r ↦ inl (rw (visit, k, r) refl, inr r)
    | inr (answer, r) ↦ inr (answer, k, r, rw (visit, k, r) refl)
  ]
]

-- A message that has its checksum, or that cannot have it yet.
abbrev pub Stuck : Sums → Entry Msg → Type 0
Stuck s e =
    ((t : Text) × (get e.pkg e.name s.hashes ≡ some t))
    ⊎ (get_md5_representation e.item s.hashes ≡ none)

module _ (md5 : Text → Text) where
  pass-changed : (ms : Messages) (s : Sums) → s.changed ≡ true → (pass md5 ms s).changed ≡ true
  unfolding pass
  pass-changed [] s h = h
  pass-changed (e ∷ ms) s h = elim (visit-cases md5 e s) [
    | inl (same, _) ↦ rw (pass, same) (pass-changed ms s h)
    | inr (answer, _, _, new) ↦ rw (pass, new) (pass-changed ms (added md5 e answer s) refl)
  ]

  pub pass-Stuck :
      (ms : Messages) (s : Sums)
      → (pass md5 ms s).changed ≡ false
      → (pass md5 ms s ≡ s) × All (Stuck s) ms
  unfolding pass
  pass-Stuck [] s h = (refl, tt)
  pass-Stuck (e ∷ ms) s h = elim (visit-cases md5 e s) [
    | inl (same, why) ↦
        let rest = pass-Stuck ms s (rw (pass, same) at h) in (rw (pass, same) rest.0, (why, rest.1))
    | inr (answer, _, _, new) ↦
        absurd
          (true-ne-false (sym (pass-changed ms (added md5 e answer s) refl) ∙ rw (pass, new) at h))
  ]

  pub pass_grows :
      (ms : Messages) (s : Sums)
      → (length s.hashes ≤ length (pass md5 ms s).hashes)
        × ((s.changed ≡ true)
            ⊎ ((pass md5 ms s).changed ≡ false)
            ⊎ (length s.hashes < length (pass md5 ms s).hashes))
  unfolding pass
  pass_grows [] s =
      (omega arith, elim (Bool-cases s.changed) [ inl h ↦ inl h | inr h ↦ inr (inl h) ])
  pass_grows (e ∷ ms) s = elim (visit-cases md5 e s) [
    | inl (same, _) ↦ rw (pass, same) (pass_grows ms s)
    | inr (answer, _, _, new) ↦
        rw (pass, new)
          (let rest = (pass_grows ms (added md5 e answer s)).0 in
            (omega arith, inr (inr (omega arith))))
  ]

  -- Every checksum is made from the text of its message, and that text is the one that the message
  -- has now.
  abbrev pub Backed : Messages → Sums → Type 0
  Backed messages s =
      (p n t : Text)
      → get p n s.hashes ≡ some t
      → (m : Msg) × (r : Text) × (get p n messages ≡ some m)
        × (get p n s.representations ≡ some r)
        × (t ≡ md5 r)
        × (get_md5_representation m s.hashes ≡ some r)

  visit-Backed :
      (messages : Messages) (e : Entry Msg) (s : Sums)
      → get e.pkg e.name messages ≡ some e.item
      → Backed messages s
      → Backed messages (visit md5 e s)
  visit-Backed messages e s at_key backed = elim (visit-cases md5 e s) [
    | inl (same, _) ↦ rw same backed
    | inr (answer, new, made, is) ↦ rw is λ p n t h.
        let sum = entry e.pkg e.name (md5 answer) in
        let text = entry e.pkg e.name answer in
        let more = cons-Extends sum s.hashes new in
        elim (get-cons sum s.hashes p n) [
          | inl (a, b, here) ↦ (
            e.item,
            answer,
            rw (sym a, sym b) at_key,
            elim (get-cons text s.representations p n) [
              | inl (_, _, there) ↦ there
              | inr (differs, _) ↦ absurd (true-ne-false (sym (same_pair a b) ∙ differs))
            ],
            some-injective (sym h ∙ here),
            get_md5_representation-Extends e.item s.hashes (sum ∷ s.hashes) more made,
          )
          | inr (differs, later) ↦
              let old = backed p n t (sym later ∙ h) in
              (
                old.0,
                old.1,
                old.2,
                elim (get-cons text s.representations p n) [
                  | inl (a, b, _) ↦ absurd (true-ne-false (sym (same_pair a b) ∙ differs))
                  | inr (_, there) ↦ there ∙ old.3
                ],
                old.4,
                get_md5_representation-Extends old.0 s.hashes (sum ∷ s.hashes) more old.5,
              )
        ]
  ]

  pub pass-Backed :
      (messages ms : Messages) (s : Sums)
      → All (λ e. get e.pkg e.name messages ≡ some e.item) ms
      → Backed messages s
      → Backed messages (pass md5 ms s)
  unfolding pass
  pass-Backed messages [] s keys backed = backed
  pass-Backed messages (e ∷ ms) s keys backed =
      pass-Backed messages ms (visit md5 e s) keys.1 (visit-Backed messages e s keys.0 backed)
