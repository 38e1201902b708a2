-- ===== src/Codegen/Checksums/Settled.antt =====
-- The loop over the messages ends, with every checksum that can be made.
use rosrust.Prelude.{
  Option, none, some, ℕ, zero, suc, ◌+◌, ◌<◌, ◌≡◌, inl, inr, refl, sym, ap, ◌∙◌, [], ◌∷◌, arith,
  All, Bool-cases, Option-cases, length, ltb,
}
use rosrust.Codegen.Scan.{Text}
use rosrust.Codegen.Field.{Hashes, get}
use rosrust.Codegen.Msg.{get_md5_representation}
use rosrust.Codegen.Checksums.{
  Messages, MessageMap, Sums, pass, unchanged, loop, start, finish, calculate_md5,
}
use rosrust.Codegen.Checksums.Pass.{
  Distinct, Stuck, pass-Stuck, pass_grows, Backed, pass-Backed, none-ne-some, true-ne-false,
  some-injective,
}
use rosrust.Codegen.Checksums.Count.{
  count, Adds, Found, Distinct-Adds, Distinct-Found, count_le, count_full, pass-count,
}

module _ (md5 : Text → Text) where
  -- The checksum that a text gives, when there is a text.
  abbrev pub checksum : Option Text → Option Text
  checksum none = none
  checksum (some answer) = some (md5 answer)

  -- A message has a checksum exactly when it has a text, with the other checksums as they are, and
  -- then its checksum is that of the text.
  abbrev pub Settled : Messages → Hashes → Type 0
  Settled messages hashes =
      All (λ e. get e.pkg e.name hashes ≡ checksum (get_md5_representation e.item hashes)) messages

  known_Stuck :
      (s : Sums) (ms : Messages)
      → All (λ e. (t : Text) × (get e.pkg e.name s.hashes ≡ some t)) ms
      → All (Stuck s) ms
  known_Stuck s [] h = tt
  known_Stuck s (e ∷ ms) h = (inl h.0, known_Stuck s ms h.1)

  loop_ends :
      (fuel : ℕ) (messages : Messages) (s : Sums)
      → All (Adds messages) messages
      → All (Found messages) messages
      → Backed md5 messages s
      → length s.hashes ≡ count s.hashes messages
      → length messages < length s.hashes + fuel
      → (r : Sums) × (loop md5 fuel messages s ≡ some r)
        × Backed md5 messages r
        × All (Stuck r) messages
  unfolding loop Found
  loop_ends zero messages s a f b c h = absurd (omega (arith, count_le s.hashes messages))
  loop_ends (suc fuel) messages s a f b c h =
      let next = pass md5 messages (unchanged s) in
      let kept = pass-Backed md5 messages messages (unchanged s) f b in
      let counted = pass-count md5 messages messages (unchanged s) a c in
      let grown = pass_grows md5 messages (unchanged s) in
      elim (Bool-cases (ltb (length s.hashes) (length messages))) [
        | inr full ↦ (
          s,
          rw (loop, full) refl,
          b,
          known_Stuck s messages (count_full s.hashes messages (ground arith)),
        )
        | inl less ↦ elim (Bool-cases next.changed) [
          | inl more ↦
              let bigger : length s.hashes < length next.hashes = elim grown.1 [
                | inl never ↦ absurd (true-ne-false (sym never))
                | inr (inl same) ↦ absurd (true-ne-false (sym more ∙ same))
                | inr (inr grows) ↦ grows
              ] in
              let rest = loop_ends fuel messages next a f kept counted (omega arith) in
              (rest.0, rw (loop, less, more) rest.1, rest.2, rest.3)
          | inr same ↦
              let stuck = pass-Stuck md5 messages (unchanged s) same in
              (next, rw (loop, less, same) refl, kept, rw (stuck.0) (stuck.1))
        ]
      ]

  settles :
      (messages ms : Messages) (s : Sums)
      → All (Found messages) ms
      → Backed md5 messages s
      → All (Stuck s) ms
      → Settled ms s.hashes
  unfolding Found
  settles messages [] s f b k = tt
  settles messages (e ∷ ms) s f b k = (one, settles messages ms s f.1 b k.1)
    where
      has :
          {t : Text}
          → get e.pkg e.name s.hashes ≡ some t
          → get e.pkg e.name s.hashes ≡ checksum (get_md5_representation e.item s.hashes)
      has {t} g =
          let back = b e.pkg e.name t g in
          let item : e.item ≡ back.0 = some-injective (sym f.0 ∙ back.2) in
          rw (item, back.5) (g ∙ ap some back.4)

      one : get e.pkg e.name s.hashes ≡ checksum (get_md5_representation e.item s.hashes)
      one = elim k.0 [
        | inl (t, g) ↦ has g
        | inr r ↦ elim (Option-cases (get e.pkg e.name s.hashes)) [
          | inl g ↦ rw (g, r) refl
          | inr (t, g) ↦ has g
        ]
      ]

  start-Backed : (messages : Messages) → Backed md5 messages start
  unfolding get
  start-Backed messages p n t h = absurd (none-ne-some h)

  start-count : (messages : Messages) → 0 ≡ count [] messages
  unfolding count get
  start-count [] = refl
  start-count (e ∷ ms) = start-count ms

  -- Whatever the messages and the order in which the map gives them, the loop ends within a fuel that
  -- is one more than their number. Then a message has a checksum exactly when every message that it
  -- names has one, and that checksum is the one of the text made with the checksums as they are.
  pub loop-Settled :
      (messages : Messages)
      → Distinct messages
      → (r : Sums) × (loop md5 (suc (length messages)) messages start ≡ some r)
        × Settled messages r.hashes
  loop-Settled messages d =
      let found = Distinct-Found messages d in
      let ends =
        loop_ends (suc (length messages)) messages start (Distinct-Adds messages d) found
          (start-Backed messages) (start-count messages) (omega arith) in
      (ends.0, ends.1, settles messages messages ends.0 found ends.2 ends.3)

  -- Computing the checksums of a map of messages and services ends, with a table or with an error.
  pub calculate_md5_ends :
      (m : MessageMap) → Distinct m.messages → (r : Option Hashes) × (calculate_md5 md5 m ≡ some r)
  unfolding calculate_md5
  calculate_md5_ends m d =
      let ends = loop-Settled m.messages d in (finish md5 m ends.0, rw (calculate_md5, ends.1) refl)
