-- ===== src/Codegen/Collect/Served.antt =====
-- The services of a map that is found have their two messages in it.
use rosrust.Prelude.{
  Option, some, ℕ, zero, suc, ◌≡◌, sym, inl, inr, List, [], ◌∷◌, ◌++◌, All, codes, Option-cases,
  Bool-cases,
}
use rosrust.Codegen.Scan.{Text}
use rosrust.Codegen.Field.{get}
use rosrust.Codegen.Msg.{Msg, Name}
use rosrust.Codegen.Checksums.{Messages, MessageMap, insert}
use rosrust.Codegen.Checksums.Pass.{none-ne-some, some-injective}
use rosrust.Codegen.Collect.{MessageCase, message, service, keyed, add, search, contains, include}
use rosrust.Codegen.Collect.Insert.{Known, get-insert, insert-Known}
use rosrust.Codegen.Collect.Folders.{Named}

-- The messages of a service, under its name with the ends that they are given.
abbrev pub HasParts : Messages → Name → Type 0
HasParts msgs d =
    Known msgs d.pkg (d.name ++ codes "Req") × Known msgs d.pkg (d.name ++ codes "Res")

include-All :
    (P : Name → Type 0) (n : Name) (names : List Name) → P n → All P names → All P (include n names)
include-All P n names p h = elim (Bool-cases (contains n names)) [
  | inl e ↦ rw e h
  | inr e ↦ rw e (p, h)
]

insert-Served :
    (p n : Text) (m : Msg) (msgs : Messages) (srvs : List Name)
    → All (HasParts msgs) srvs
    → All (HasParts (insert (keyed p n m) msgs)) srvs
insert-Served p n m msgs [] h = tt
insert-Served p n m msgs (d ∷ srvs) h = (
  (
    insert-Known (keyed p n m) msgs d.pkg (d.name ++ codes "Req") h.0.0,
    insert-Known (keyed p n m) msgs d.pkg (d.name ++ codes "Res") h.0.1,
  ),
  insert-Served p n m msgs srvs h.1,
)

module _ (get_message : Text → Text → Option MessageCase)
    (named : (p n : Text) → Named n (get_message p n)) where
  of_found :
      (p n : Text) (found : MessageCase) → get_message p n ≡ some found → Named n (some found)
  of_found p n found g = let h = named p n in rw g at h

  add-Served :
      (msgs : Messages) (srvs pending : List Name) (v : Name) (found : MessageCase)
      → Named v.name (some found)
      → All (HasParts msgs) srvs
      → let next =
          add get_message v found (record { msgs = msgs; srvs = srvs; pending = pending }) in
        All (HasParts next.msgs) next.srvs
  unfolding add
  add-Served msgs srvs pending v (message m) is h = insert-Served v.pkg v.name m msgs srvs h
  add-Served msgs srvs pending v (service s q r) (same, req, res) h =
      let one = insert (keyed v.pkg q.name q) msgs in
      include-All (HasParts (insert (keyed v.pkg r.name r) one)) (record { pkg = v.pkg; name = s })
        srvs
        (
          rw (same, ← req)
              (insert-Known (keyed v.pkg r.name r) one v.pkg q.name
                (unfold Known in (q, get-insert (keyed v.pkg q.name q) msgs))),
          rw (same, ← res) (unfold Known in (r, get-insert (keyed v.pkg r.name r) one)),
        )
        (insert-Served v.pkg r.name r one srvs (insert-Served v.pkg q.name q msgs srvs h))

  pub search-Served :
      (fuel : ℕ) (msgs : Messages) (srvs pending : List Name) {m : MessageMap}
      → All (HasParts msgs) srvs
      → search get_message fuel msgs srvs pending ≡ some (some m)
      → All (HasParts m.messages) m.services
  unfolding search
  search-Served zero msgs srvs pending i h = absurd (none-ne-some h)
  search-Served (suc fuel) msgs srvs [] i h = rw (sym (some-injective (some-injective h))) i
  search-Served (suc fuel) msgs srvs (v ∷ pending) i h =
      elim (Option-cases (get v.pkg v.name msgs)) [
        | inr (m, k) ↦ search-Served fuel msgs srvs pending i (rw (search, k) at h)
        | inl k ↦ elim (Option-cases (get_message v.pkg v.name)) [
          | inl g ↦ absurd (none-ne-some (some-injective (rw (search, k, g) at h)))
          | inr (found, g) ↦
              search-Served fuel _ _ _
                (add-Served msgs srvs pending v found (of_found v.pkg v.name found g) i)
                (rw (search, k, g) at h)
        ]
      ]
