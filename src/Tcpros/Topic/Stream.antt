-- ===== src/Tcpros/Topic/Stream.antt =====
-- The messages that a publisher sends are the ones that the subscriber's callback is given.
use rosrust.Prelude.{
  inl, inr, sym, true, ◌+◌, length-append, some, ℕ, zero, suc, ◌%◌, ◌<◌, ◌≡◌, refl, ap, ◌∙◌, List,
  [], ◌∷◌, ◌++◌, map, arith, length, All, append_assoc, Bytes,
}
use rosrust.Wire.Reader.{ok, err, unexpected_eof, pure, read_exact, bound}
use rosrust.Wire.Reader.Laws.{>>=_ok, read_exact-append}
use rosrust.Wire.Codec.{ByteOrder, RosMsg, IsCodec, u32_msg, encode_vec}
use rosrust.Wire.Codec.Primitive.{unsigned-IsCodec}
use rosrust.Wire.Codec.RoundTrip.{decode_slice-encode_vec}
use rosrust.Tcpros.Topic.{
  package_to_vector, join_connection, PublisherStream, send, send_all, written, handle_data,
}
use rosrust.Queue.{LossySender, lossy_channel, try_send, send_each}
use rosrust.Queue.Newest.{Newest, send_each-Newest}

-- The end of a list of images is the images of the end.
unmap :
    {A B : Type 0} (f : A → B) (front kept : List B) (xs : List A)
    → front ++ kept ≡ map f xs
    → (ys : List A) × (zs : List A) × (ys ++ zs ≡ xs)
      × (kept ≡ map f zs)
      × (length ys ≡ length front)
unmap f [] kept xs e = ([], xs, refl, e, refl)
unmap f (x ∷ front) kept [] e = absurd cc
unmap f (x ∷ front) kept (y ∷ xs) e =
    let rest : front ++ kept ≡ map f xs = cc in
    let (ys, zs, all, same, size) = unmap f front kept xs rest in
    (y ∷ ys, zs, ap (◌∷◌ y) all, same, ap (λ n. suc n) size)

map-length : {A B : Type 0} (f : A → B) (xs : List A) → length (map f xs) ≡ length xs
map-length f [] = refl
map-length f (x ∷ xs) = ap (λ n. suc n) (map-length f xs)

nil : {A : Type 0} (xs : List A) → length xs ≡ 0 → xs ≡ []
nil [] h = refl
nil (x ∷ xs) h = absurd (omega arith)

-- What a queue keeps of images are the images of what it would keep.
kept-map :
    {A B : Type 0} (f : A → B) (n : ℕ) (kept : List B) (xs : List A)
    → Newest n kept (map f xs)
    → (zs : List A) × (kept ≡ map f zs) × Newest n zs xs
kept-map f n kept xs (front, all, short, why) =
    let (ys, zs, split, same, size) = unmap f front kept xs all in
    let fits : length kept ≡ length zs = ap length same ∙ map-length f zs in
    (
      zs,
      same,
      (
        ys,
        split,
        omega arith,
        elim why [ inl e ↦ inl (nil ys (size ∙ ap length e)) | inr e ↦ inr (sym fits ∙ e) ],
      ),
    )

All-end :
    {A : Type 0} (P : A → Type 0) (front kept xs : List A)
    → front ++ kept ≡ xs
    → All P xs
    → All P kept
All-end P [] kept xs e h = rw e h
All-end P (x ∷ front) kept [] e h = absurd cc
All-end P (x ∷ front) kept (y ∷ xs) e h =
    let rest : front ++ kept ≡ xs = cc in All-end P front kept xs rest h.1

module _ (o : ByteOrder) {A : Type 0} (m : RosMsg A) where
  -- A message that fits and whose length the wire can carry.
  abbrev pub Sendable : (A → Type 0) → A → Type 0
  Sendable Fits a = Fits a × (length (m.encode a) < bound 4)

  package_to_vector-encode_vec :
      (a : A) (rest : Bytes)
      → length (m.encode a) < bound 4
      → package_to_vector o (encode_vec o m a ++ rest) ≡ ok (encode_vec o m a) rest
  unfolding package_to_vector encode_vec
  package_to_vector-encode_vec a rest h =
      let n = length (m.encode a) in
      let size : n % bound 4 ≡ n = omega (arith, h) in
      let head : (u32_msg o).decode (encode_vec o m a ++ rest) ≡ ok n (m.encode a ++ rest) =
        ap (u32_msg o).decode (append_assoc ((u32_msg o).encode (n % bound 4)) (m.encode a) rest)
        ∙ ((unsigned-IsCodec o 4).reads_back _ (m.encode a ++ rest) (omega (arith, h))
            ∙ ap (λ k. ok k (m.encode a ++ rest)) size) in
      let body = read_exact-append n (m.encode a) rest refl in
      >>=_ok (u32_msg o).decode _ (encode_vec o m a ++ rest) head
      ∙ (>>=_ok (read_exact n) (λ body. pure ((u32_msg o).encode n ++ body)) (m.encode a ++ rest)
            body
          ∙ rw size refl)

  package_nil : package_to_vector o [] ≡ err unexpected_eof []
  unfolding package_to_vector read_exact
  package_nil = refl

  try_send-open :
      (buffer : Bytes) (s : LossySender Bytes)
      → s.is_open ≡ true
      → ((try_send buffer s).0 ≡ true) × ((try_send buffer s).1.is_open ≡ true)
  unfolding try_send
  try_send-open buffer s h = rw (try_send, h) (refl, refl)

  sends :
      (messages : List A) (s : PublisherStream)
      → (send_all o m messages s).stream ≡ send_each (map (encode_vec o m) messages) s.stream
  unfolding send_all send send_each
  sends [] s = refl
  sends (a ∷ messages) s = sends messages (send o m a s)

  joins :
      (fuel : ℕ) (messages : List A) (s : LossySender Bytes)
      → All (λ a. length (m.encode a) < bound 4) messages
      → length messages < fuel
      → s.is_open ≡ true
      → join_connection o fuel (written (map (encode_vec o m) messages)) s
        ≡ some (send_each (map (encode_vec o m) messages) s)
  unfolding join_connection send_each
  joins zero messages s h small open_ = absurd (omega arith)
  joins (suc fuel) [] s h small open_ = rw (join_connection, package_nil) refl
  joins (suc fuel) (a ∷ messages) s h small open_ =
      let taken = try_send-open (encode_vec o m a) s open_ in
      rw
        (
          join_connection,
          package_to_vector-encode_vec a (written (map (encode_vec o m) messages)) h.0,
          taken.0,
        )
        (joins fuel messages (try_send (encode_vec o m a) s).1 h.1 (omega arith) taken.1)

  handles :
      {Fits : A → Type 0} (messages : List A)
      → IsCodec m Fits
      → All (Sendable Fits) messages
      → handle_data m (map (encode_vec o m) messages) ≡ messages
  unfolding handle_data
  handles [] c h = refl
  handles (a ∷ messages) c h =
      let one = (decode_slice-encode_vec o m a c h.0.0 h.0.1).0 in
      rw (handle_data, one) (ap (◌∷◌ a) (handles messages c h.1))

  short :
      (Fits : A → Type 0) (xs : List A)
      → All (Sendable Fits) xs
      → All (λ a. length (m.encode a) < bound 4) xs
  short Fits [] h = tt
  short Fits (x ∷ xs) h = (h.0.1, short Fits xs h.1)

  -- Messages that fit are sent on a stream with a queue of `p` messages, of which the thread has taken
  -- none before: it writes the newest of them, and of these the newest wait in the subscriber's queue of
  -- `q` messages when the connection ends. In both queues that is all of them, or as many as its size.
  -- The callback is given what waits, as it was sent and in its order.
  pub handle_data-send_all :
      {Fits : A → Type 0} (p q : ℕ) (s : PublisherStream) (messages : List A)
      → IsCodec m Fits
      → All (Sendable Fits) messages
      → s.stream ≡ lossy_channel p
      → (kept : List A) × (received : LossySender Bytes) × (handled : List A) × Newest p kept
          messages
        × (join_connection o
              (suc (length messages))
              (written (send_all o m messages s).stream.data_)
              (lossy_channel q)
            ≡ some received)
        × (handle_data m received.data_ ≡ handled)
        × Newest q handled kept
  handle_data-send_all {Fits = Fits} p q s messages c h fresh =
      let sent = (send_all o m messages s).stream in
      let one : Newest p sent.data_ (map (encode_vec o m) messages) =
        rw (sends messages s, fresh)
          (send_each-Newest (map (encode_vec o m) messages) (lossy_channel p) refl (omega arith)) in
      let (kept, same, newest) = kept-map (encode_vec o m) p sent.data_ messages one in
      let fine = All-end (Sendable Fits) newest.0 kept messages newest.1 h in
      let received = send_each (map (encode_vec o m) kept) (lossy_channel q) in
      let two = send_each-Newest (map (encode_vec o m) kept) (lossy_channel q) refl (omega arith) in
      let (handled, as_sent, newer) = kept-map (encode_vec o m) q received.data_ kept two in
      let size : length messages ≡ length newest.0 + length kept =
        ap length (sym newest.1) ∙ length-append newest.0 kept in
      (
        kept,
        received,
        handled,
        newest,
        rw same (
            joins (suc (length messages)) kept (lossy_channel q) (short Fits kept fine)
              (omega arith) refl),
        rw as_sent (handles handled c (All-end (Sendable Fits) newer.0 handled kept newer.1 fine)),
        newer,
      )
