-- ===== src/Codegen/Collect/Ends.antt =====
-- The loop over the messages ends where no message contains itself.
use rosrust.Prelude.{
  Option, none, some, ℕ, zero, suc, ◌+◌, ◌<◌, ◌≤◌, ◌≡◌, ◌⊎◌, refl, inl, inr, List, [], ◌∷◌, ◌++◌,
  All, arith, Option-cases,
}
use rosrust.Codegen.Scan.{Text}
use rosrust.Codegen.Field.{get}
use rosrust.Codegen.Msg.{Msg, Name, dependencies}
use rosrust.Codegen.Checksums.{Messages, MessageMap}
use rosrust.Codegen.Collect.{MessageCase, message, service, push_all, add, search, get_message_map}
use rosrust.Codegen.Collect.Closed.{Closed, get_message_map-Closed}
use rosrust.Codegen.Collect.Pending.{Pending, Pending-inv, push_all-append}
use rosrust.Codegen.Collect.Folders.{Open, Included, get_message, get_message-Named}
use rosrust.Codegen.Collect.Served.{HasParts, search-Served}

-- The names that a message or a service needs.
abbrev pub needs : MessageCase → List Name
needs (message m) = dependencies m
needs (service s q r) = dependencies q ++ dependencies r

abbrev pub total : (Name → ℕ) → List Name → ℕ
total weight [] = 0
total weight (d ∷ names) = suc (weight d + total weight names)

total-append :
    (weight : Name → ℕ) (a b : List Name) → total weight (a ++ b) ≡ total weight a + total weight b
total-append weight [] b = omega arith
total-append weight (d ∷ a) b = let h = total-append weight a b in omega arith

total-push_all :
    (weight : Name → ℕ) (a pending : List Name)
    → total weight (push_all a pending) ≡ total weight a + total weight pending
unfolding push_all
total-push_all weight [] pending = omega arith
total-push_all weight (d ∷ a) pending = let h = total-push_all weight a (d ∷ pending) in omega arith

-- A message weighs as much as all that it needs and one for each of them, or more: as a message does
-- not contain itself, the number of the messages in it, each as often as it stands there, is such a weight.
abbrev pub Weighs : (Text → Text → Option MessageCase) → (Name → ℕ) → Type 0
Weighs find weight =
    (v : Name) (found : MessageCase)
    → find v.pkg v.name ≡ some found
    → total weight (needs found) ≤ weight v

-- A name that is asked for, or that a message or a service needs which is needed itself.
pub data Needed (find : Text → Text → Option MessageCase) (roots : List Name) : Name → Type 0 where
  asked : {d : Name} → Pending d roots → Needed find roots d
  inside :
      {d : Name} (v : Name) (found : MessageCase)
      → Needed find roots v
      → find v.pkg v.name ≡ some found
      → Pending d (needs found)
      → Needed find roots d

module _ (find : Text → Text → Option MessageCase) (weight : Name → ℕ) where
  add-Pending :
      (v : Name) (found : MessageCase) (msgs : Messages) (srvs pending : List Name) (d : Name)
      → Pending d
          (add find v found (record { msgs = msgs; srvs = srvs; pending = pending })).pending
      → Pending d (needs found) ⊎ Pending d pending
  unfolding add
  add-Pending v (message m) msgs srvs pending d h = Pending-inv (dependencies m) pending d h
  add-Pending v (service s q r) msgs srvs pending d h =
      Pending-inv (dependencies q ++ dependencies r) pending d
        (rw (push_all-append (dependencies q) (dependencies r) pending) h)

  add-total :
      (v : Name) (found : MessageCase) (msgs : Messages) (srvs pending : List Name)
      → total weight
          (add find v found (record { msgs = msgs; srvs = srvs; pending = pending })).pending
        ≡ total weight (needs found) + total weight pending
  unfolding add
  add-total v (message m) msgs srvs pending = total-push_all weight (dependencies m) pending
  add-total v (service s q r) msgs srvs pending =
      let one = total-push_all weight (dependencies q) pending in
      let two = total-push_all weight (dependencies r) (push_all (dependencies q) pending) in
      let sum = total-append weight (dependencies q) (dependencies r) in omega arith

  -- A map is found, or a message that is needed is not.
  abbrev pub Ends : List Name → Option (Option MessageMap) → Type 0
  Ends roots x =
      ((m : MessageMap) × (x ≡ some (some m)))
      ⊎ ((x ≡ some none) × (v : Name) × Needed find roots v × (find v.pkg v.name ≡ none))

  grown :
      (roots : List Name) (v : Name) (found : MessageCase) (pending : List Name) (msgs : Messages)
      (srvs : List Name)
      → find v.pkg v.name ≡ some found
      → ((d : Name) → Pending d (v ∷ pending) → Needed find roots d)
      → (d : Name)
      → Pending d
          (add find v found (record { msgs = msgs; srvs = srvs; pending = pending })).pending
      → Needed find roots d
  unfolding Pending
  grown roots v found pending msgs srvs g near d p =
      elim (add-Pending v found msgs srvs pending d p) [
        | inl n ↦ inside v found (near v (inl refl)) g n
        | inr r ↦ near d (inr r)
      ]

  search-Ends :
      (roots : List Name) (fuel : ℕ) (msgs : Messages) (srvs pending : List Name)
      → Weighs find weight
      → ((d : Name) → Pending d pending → Needed find roots d)
      → total weight pending < fuel
      → Ends roots (search find fuel msgs srvs pending)
  unfolding search Pending
  search-Ends roots zero msgs srvs pending w near h = absurd (omega arith)
  search-Ends roots (suc fuel) msgs srvs [] w near h =
      inl (record { messages = msgs; services = srvs }, refl)
  search-Ends roots (suc fuel) msgs srvs (v ∷ pending) w near h =
      elim (Option-cases (get v.pkg v.name msgs)) [
        | inr (m, k) ↦
            rw (search, k)
              (search-Ends roots fuel msgs srvs pending w (λ d p. near d (inr p)) (omega arith))
        | inl k ↦ elim (Option-cases (find v.pkg v.name)) [
          | inl g ↦ rw (search, k, g) (inr (refl, v, near v (inl refl), g))
          | inr (found, g) ↦
              let less = w v found g in
              let same = add-total v found msgs srvs pending in
              let nearer = grown roots v found pending msgs srvs g near in
              rw (search, k, g) (search-Ends roots fuel _ _ _ w nearer (omega arith))
        ]
      ]

  roots-total : (roots : List Name) → total weight (push_all roots []) ≡ total weight roots
  roots-total roots = let h = total-push_all weight roots [] in omega arith

  get_message_map-Ends :
      (roots : List Name)
      → Weighs find weight
      → Ends roots (get_message_map find (suc (total weight roots)) roots)
  unfolding get_message_map Pending
  get_message_map-Ends roots w =
      let h = roots-total roots in
      search-Ends roots (suc (total weight roots)) [] [] (push_all roots []) w asked_for
        (omega arith)
    where
      asked_for : (d : Name) → Pending d (push_all roots []) → Needed find roots d
      asked_for d p = elim (Pending-inv roots [] d p) [ inl r ↦ asked r | inr e ↦ elim e [ ] ]

-- What the loop finds holds every message or service asked for and every one that its messages name,
-- and both messages of each of its services, and its keys are distinct.
abbrev pub IsWhole : List Name → MessageMap → Type 0
IsWhole roots m = Closed roots m × All (HasParts m.messages) m.services

-- When no message contains itself, which is that the messages have a weight, the loop ends with the
-- fuel that the weight gives: with a map, or with an error, and then a message that is asked for or
-- needed is not found, or not read. A map holds every message or service asked for and every one that its messages name, and both
-- messages of each of its services, and its keys are distinct.
pub get_message_map-IsWhole :
    (open_ : Open) (i : Included) (folders : List Text) (weight : Name → ℕ) (roots : List Name)
    → Weighs (get_message open_ i folders) weight
    → let out = get_message_map (get_message open_ i folders) (suc (total weight roots)) roots in
      ((m : MessageMap) × (out ≡ some (some m)) × IsWhole roots m)
      ⊎ ((out ≡ some none)
          × (v : Name) × Needed (get_message open_ i folders) roots v
          × (get_message open_ i folders v.pkg v.name ≡ none))
get_message_map-IsWhole open_ i folders weight roots w =
    elim (get_message_map-Ends (get_message open_ i folders) weight roots w) [
      | inr e ↦ inr e
      | inl (m, found) ↦ inl (
        m,
        found,
        (
          get_message_map-Closed (get_message open_ i folders) names (suc (total weight roots))
              roots m found,
          search-Served (get_message open_ i folders) (get_message-Named open_ i folders)
              (suc (total weight roots)) [] [] (push_all roots []) tt
              (unfold get_message_map in found),
        ),
      )
    ]
  where
    names :
        (p n s : Text) (q r : Msg) → get_message open_ i folders p n ≡ some (service s q r) → s ≡ n
    names p n s q r h = let named = get_message-Named open_ i folders p n in (rw h at named).0
