-- ===== src/Codegen/Collect/Closed.antt =====
-- The map that is found holds the messages asked for and all that they need.
use rosrust.Prelude.{
  Option, some, ℕ, zero, suc, ◌≡◌, ◌⊎◌, inl, inr, sym, ap, ◌∙◌, true, List, [], ◌∷◌, ◌++◌, All,
  Option-cases,
}
use rosrust.Codegen.Scan.{Text}
use rosrust.Codegen.Field.{Entry, get}
use rosrust.Codegen.Msg.{Msg, Name, dependencies}
use rosrust.Codegen.Checksums.{Messages, MessageMap, insert}
use rosrust.Codegen.Checksums.Pass.{Distinct, none-ne-some, some-injective}
use rosrust.Codegen.Collect.{
  MessageCase, message, service, push_all, keyed, add, search, get_message_map, contains, include,
}
use rosrust.Codegen.Collect.Insert.{Known, get-insert, insert-Known, insert-All, insert-Distinct}
use rosrust.Codegen.Collect.Pending.{
  Pending, contains-include, include-keeps, Pending-push_all, pushed, Pending-drop, push_all-append,
}

-- A name is a message of the map, or a service of it.
abbrev pub Held : Messages → List Name → Name → Type 0
Held msgs srvs d = ((m : Msg) × (get d.pkg d.name msgs ≡ some m)) ⊎ (contains d srvs ≡ true)

-- A name is held, or waits to be looked at.
Covered : Messages → List Name → List Name → Name → Type 0
Covered msgs srvs pending d = Held msgs srvs d ⊎ Pending d pending

AllWeaken :
    {A : Type 0} {P Q : A → Type 0} (xs : List A) → ((x : A) → P x → Q x) → All P xs → All Q xs
AllWeaken [] f h = tt
AllWeaken (x ∷ xs) f h = (f x h.0, AllWeaken xs f h.1)

-- What the loop keeps: the names asked for and the needs of the messages found are covered, and the keys
-- are distinct.
Inv : List Name → Messages → List Name → List Name → Type 0
Inv roots msgs srvs pending =
    All (Covered msgs srvs pending) roots
    × All (λ e. All (Covered msgs srvs pending) (dependencies e.item)) msgs
    × Distinct msgs

-- The state changes so that whatever was covered still is.
moves :
    (roots msgs : _) (srvs pending srvs' pending' : List Name)
    → ((d : Name) → Covered msgs srvs pending d → Covered msgs srvs' pending' d)
    → Inv roots msgs srvs pending
    → Inv roots msgs srvs' pending'
unfolding Inv
moves roots msgs srvs pending srvs' pending' f i =
    (AllWeaken roots f i.0, AllWeaken msgs (λ e h. AllWeaken (dependencies e.item) f h) i.1, i.2)

-- A message is put in, and its needs are pushed.
puts :
    (roots msgs : _) (srvs pending : List Name) (e : Entry Msg)
    → Inv roots msgs srvs pending
    → Inv roots (insert e msgs) srvs (push_all (dependencies e.item) pending)
unfolding Inv Covered
puts roots msgs srvs pending e i = (
  AllWeaken roots grow i.0,
  insert-All
      (λ f.
        All (Covered (insert e msgs) srvs (push_all (dependencies e.item) pending))
          (dependencies f.item))
      e msgs (AllWeaken (dependencies e.item) (λ d h. inr h) (pushed (dependencies e.item) pending))
      (AllWeaken msgs (λ f h. AllWeaken (dependencies f.item) grow h) i.1),
  insert-Distinct e msgs i.2,
)
  where
    grow :
        (d : Name)
        → Covered msgs srvs pending d
        → Covered (insert e msgs) srvs (push_all (dependencies e.item) pending) d
    grow d (inl (inl known)) = inl (inl (unfold Known in insert-Known e msgs d.pkg d.name known))
    grow d (inl (inr served)) = inl (inr served)
    grow d (inr w) = inr (Pending-push_all (dependencies e.item) pending d w)

Covered-drop :
    (msgs : Messages) (srvs srvs' ds pending : List Name) (v : Name)
    → ((d : Name) → contains d srvs ≡ true → contains d srvs' ≡ true)
    → Held msgs srvs' v
    → (d : Name) → Covered msgs srvs (push_all ds (v ∷ pending)) d
    → Covered msgs srvs' (push_all ds pending) d
unfolding Covered
Covered-drop msgs srvs srvs' ds pending v keep held d (inl (inl known)) = inl (inl known)
Covered-drop msgs srvs srvs' ds pending v keep held d (inl (inr served)) = inl (inr (keep d served))
Covered-drop msgs srvs srvs' ds pending v keep held d (inr w) =
    elim (Pending-drop ds pending v d w) [ inl e ↦ inl (rw e held) | inr rest ↦ inr rest ]

-- What the search promises of a map.
abbrev pub Closed : List Name → MessageMap → Type 0
Closed roots m =
    All (Held m.messages m.services) roots
    × All (λ e. All (Held m.messages m.services) (dependencies e.item)) m.messages
    × Distinct m.messages

module _ (get_message : Text → Text → Option MessageCase)
    (names : (p n s : Text) (q r : Msg) → get_message p n ≡ some (service s q r) → s ≡ n) where
  add-Inv :
      (roots msgs : _) (srvs pending : List Name) (v : Name) (found : MessageCase)
      → get_message v.pkg v.name ≡ some found
      → Inv roots msgs srvs (v ∷ pending)
      → let next =
          add get_message v found (record { msgs = msgs; srvs = srvs; pending = pending }) in
        Inv roots next.msgs next.srvs next.pending
  unfolding add
  add-Inv roots msgs srvs pending v (message m) g i =
      let put = puts roots msgs srvs (v ∷ pending) (keyed v.pkg v.name m) i in
      moves roots _ srvs _ srvs _
        (Covered-drop _ srvs srvs (dependencies m) pending v (λ d h. h)
          (inl (m, get-insert (keyed v.pkg v.name m) msgs)))
        put
  add-Inv roots msgs srvs pending v (service s q r) g i =
      let msgs' = insert (keyed v.pkg q.name q) msgs in
      let msgs'' = insert (keyed v.pkg r.name r) msgs' in
      let one = puts roots msgs srvs (v ∷ pending) (keyed v.pkg q.name q) i in
      let two =
        puts roots msgs' srvs (push_all (dependencies q) (v ∷ pending)) (keyed v.pkg r.name r)
          one in
      let name : Name = record { pkg = v.pkg; name = s } in
      let named = names v.pkg v.name s q r g in
      let held : contains v (include name srvs) ≡ true =
        ap (λ n. contains (record { pkg = v.pkg; name = n }) (include name srvs)) (sym named)
        ∙ contains-include name srvs in
      let drop =
        Covered-drop msgs'' srvs (include name srvs) (dependencies q ++ dependencies r) pending v
          (λ d h. include-keeps name d srvs h) (inr held) in
      moves roots msgs'' srvs _ (include name srvs) _
        (rw
          (
            push_all-append (dependencies q) (dependencies r) (v ∷ pending),
            push_all-append (dependencies q) (dependencies r) pending,
          )
          at drop)
        two

  search-Closed :
      (fuel : ℕ) (roots msgs : _) (srvs pending : List Name) {m : MessageMap}
      → Inv roots msgs srvs pending
      → search get_message fuel msgs srvs pending ≡ some (some m)
      → Closed roots m
  unfolding search Covered Pending Inv
  search-Closed zero roots msgs srvs pending i h = absurd (none-ne-some h)
  search-Closed (suc fuel) roots msgs srvs [] i h =
      rw (sym (some-injective (some-injective h))) (ends i)
    where
      bare : (d : Name) → Covered msgs srvs [] d → Held msgs srvs d
      bare d (inl held) = held
      bare d (inr w) = elim w [ ]

      ends : Inv roots msgs srvs [] → Closed roots (record { messages = msgs; services = srvs })
      ends i = (
        AllWeaken roots bare i.0,
        AllWeaken msgs (λ e h. AllWeaken (dependencies e.item) bare h) i.1,
        i.2,
      )
  search-Closed (suc fuel) roots msgs srvs (v ∷ pending) i h =
      elim (Option-cases (get v.pkg v.name msgs)) [
        | inr (m, k) ↦
            search-Closed fuel roots msgs srvs pending
              (moves roots msgs srvs (v ∷ pending) srvs pending
                (Covered-drop msgs srvs srvs [] pending v (λ d h. h) (inl (m, k))) i)
              (rw (search, k) at h)
        | inl k ↦ elim (Option-cases (get_message v.pkg v.name)) [
          | inl g ↦ absurd (none-ne-some (some-injective (rw (search, k, g) at h)))
          | inr (found, g) ↦
              search-Closed fuel roots _ _ _ (add-Inv roots msgs srvs pending v found g i)
                (rw (search, k, g) at h)
        ]
      ]

  roots-Covered : (roots : List Name) → All (Covered [] [] (push_all roots [])) roots
  unfolding Covered
  roots-Covered roots = AllWeaken roots (λ d h. inr h) (pushed roots [])

  -- A map that is found holds every message or service asked for, and every one that a message of the map
  -- names, and its keys are distinct.
  pub get_message_map-Closed :
      (fuel : ℕ) (roots : List Name) (m : MessageMap)
      → get_message_map get_message fuel roots ≡ some (some m)
      → Closed roots m
  unfolding get_message_map Inv
  get_message_map-Closed fuel roots m h =
      search-Closed fuel roots [] [] (push_all roots []) (roots-Covered roots, tt, tt) h
