-- ===== src/Queue.antt =====
-- The bounded queue between a connection and a callback: rosrust/src/util/lossy_channel.rs. The
-- channel of the package crossbeam is the list of its messages, the oldest first; its receiver is
-- there as long as the sender is.
use rosrust.Prelude.{ℕ, Bool, true, false, List, [], ◌∷◌, ◌++◌, if◌then◌else◌, ltb, length}
pub mod Newest
mod Tests

pub record LossySender (A : Type 0) : Type 0 where
  pub data_ : List A
  pub is_open : Bool
  pub killed : Bool
  pub queue_size : ℕ

-- `lossy_channel`.
abbrev pub lossy_channel : {A : Type 0} → ℕ → LossySender A
lossy_channel n = record { data_ = []; is_open = true; killed = false; queue_size = n }

-- `remove_extra_data`: the loop takes the oldest message as long as there are too many.
unfoldable pub remove_extra_data : {A : Type 0} → ℕ → List A → List A
remove_extra_data queue_size [] = []
remove_extra_data queue_size (x ∷ data_) =
    let later = remove_extra_data queue_size data_ in
    if ltb queue_size (length (x ∷ data_)) then later else x ∷ data_

-- `try_send`: whether the message was taken, and the queue. A closed queue gives the message back.
unfoldable pub try_send : {A : Type 0} → A → LossySender A → Bool × LossySender A
unfolding remove_extra_data
try_send msg s =
    if s.is_open
    then (true, record s { data_ = remove_extra_data s.queue_size (s.data_ ++ (msg ∷ [])) })
    else (false, s)

unfoldable pub close : {A : Type 0} → LossySender A → LossySender A
close s = record s { is_open = false; killed = true }

unfoldable pub set_queue_size : {A : Type 0} → ℕ → LossySender A → LossySender A
set_queue_size n s = record s { queue_size = n }

unfoldable pub set_queue_size_max : {A : Type 0} → ℕ → LossySender A → LossySender A
set_queue_size_max n s = record s { queue_size = if ltb s.queue_size n then n else s.queue_size }

-- Messages sent one after the other.
unfoldable pub send_each : {A : Type 0} → List A → LossySender A → LossySender A
unfolding try_send
send_each [] s = s
send_each (m ∷ messages) s = send_each messages (try_send m s).1
