-- ===== src/Queue/Newest.antt =====
-- A full queue keeps the newest messages.
use rosrust.Prelude.{
  ℕ, suc, ◌+◌, ◌≤◌, ◌<◌, ◌≡◌, ◌⊎◌, inl, inr, refl, sym, ap, ◌∙◌, Bool, true, false, List, [], ◌∷◌,
  ◌++◌, arith, Bool-cases, if◌then◌else◌, ltb, length, append_assoc, append-nil, length-append,
}
use rosrust.Queue.{LossySender, remove_extra_data, try_send, send_each}

-- A list is the end of another, and either all of it or as long as the bound.
abbrev pub Newest : {A : Type 0} → ℕ → List A → List A → Type 0
Newest {A} n kept all =
    (front : List A) × (front ++ kept ≡ all)
    × (length kept ≤ n)
    × ((front ≡ []) ⊎ (length kept ≡ n))

small : (n m : ℕ) → ltb n m ≡ false → m ≤ n
small n m h = ground arith

large : (n m : ℕ) → ltb n m ≡ true → n < m
large n m h = ground arith

module _ {A : Type 0} where
  remove_extra_data-Newest : (n : ℕ) (data_ : List A) → Newest n (remove_extra_data n data_) data_
  unfolding remove_extra_data
  remove_extra_data-Newest n [] = ([], refl, omega arith, inl refl)
  remove_extra_data-Newest n (x ∷ data_) = elim (Bool-cases (ltb n (length (x ∷ data_)))) [
    | inr e ↦ rw (remove_extra_data, e) ([], refl, small n (length (x ∷ data_)) e, inl refl)
    | inl e ↦
        let rest = remove_extra_data-Newest n data_ in
        rw (remove_extra_data, e)
          (
            x ∷ rest.0,
            ap (◌∷◌ x) rest.1,
            rest.2,
            inr (full n data_ rest (large n (length (x ∷ data_)) e)),
          )
  ]
    where
      full :
          (n : ℕ) (data_ : List A) (rest : Newest n (remove_extra_data n data_) data_)
          → n < suc (length data_)
          → length (remove_extra_data n data_) ≡ n
      full n data_ (front, all, short, inr h) more = h
      full n data_ (front, all, short, inl h) more =
          let same : remove_extra_data n data_ ≡ data_ = rw h at all in
          let size = ap length same in omega arith

  Newest-then :
      (n : ℕ) (a b c ms : List A) → Newest n a b → Newest n c (a ++ ms) → Newest n c (b ++ ms)
  Newest-then n a b c ms (f, e, short, why) (g, k, fits, reason) = (
    f ++ g,
    append_assoc f g c ∙ (ap (◌++◌ f) k ∙ (sym (append_assoc f a ms) ∙ ap (λ xs. xs ++ ms) e)),
    fits,
    both f g why reason k,
  )
    where
      both :
          (f g : List A)
          → (f ≡ []) ⊎ (length a ≡ n)
          → (g ≡ []) ⊎ (length c ≡ n)
          → g ++ c ≡ a ++ ms
          → (f ++ g ≡ []) ⊎ (length c ≡ n)
      both f g why (inr full) k = inr full
      both f g (inl p) (inl q) k = inl (rw (p, q) refl)
      both f g (inr p) (inl q) k =
          let same : c ≡ a ++ ms = rw q at k in
          let size : length c ≡ length a + length ms = ap length same ∙ length-append a ms in
          inr (omega arith)

  -- A queue that is open with one more message.
  more : A → LossySender A → LossySender A
  more m s = record s { data_ = remove_extra_data s.queue_size (s.data_ ++ (m ∷ [])) }

  send_each-open :
      (m : A) (messages : List A) (s : LossySender A)
      → s.is_open ≡ true
      → send_each (m ∷ messages) s ≡ send_each messages (more m s)
  unfolding send_each try_send more
  send_each-open m messages s open_ =
      ap
        (λ (b : Bool).
          let sent : Bool × LossySender A =
            if b
            then (true, record s { data_ = remove_extra_data s.queue_size (s.data_ ++ (m ∷ [])) })
            else (false, s) in
          send_each messages sent.1)
        open_

  send_each_nil : (s : LossySender A) → send_each [] s ≡ s
  unfolding send_each
  send_each_nil s = refl

  -- After messages are sent on an open queue that is not over its size, the queue holds the newest of the
  -- messages that it had and those sent, in their order: all of them, or as many as its size.
  pub send_each-Newest :
      (messages : List A) (s : LossySender A)
      → s.is_open ≡ true
      → length s.data_ ≤ s.queue_size
      → Newest s.queue_size (send_each messages s).data_ (s.data_ ++ messages)
  unfolding more
  send_each-Newest [] s open_ fits =
      rw (send_each_nil s) ([], sym (append-nil s.data_), fits, inl refl)
  send_each-Newest (m ∷ messages) s open_ fits =
      let next = remove_extra_data-Newest s.queue_size (s.data_ ++ (m ∷ [])) in
      let rest = send_each-Newest messages (more m s) open_ next.2 in
      let both =
        Newest-then s.queue_size (more m s).data_ (s.data_ ++ (m ∷ []))
          (send_each messages (more m s)).data_ messages next rest in
      rw (send_each-open m messages s open_)
        (both.0, both.1 ∙ append_assoc s.data_ (m ∷ []) messages, both.2, both.3)
