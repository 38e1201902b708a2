-- ===== src/Queue/Tests.antt =====
-- A run of the theorem on queues.
use rosrust.Prelude.{ℕ, refl, [], ◌∷◌, ◌++◌, arith}
use rosrust.Queue.{lossy_channel, send_each}
use rosrust.Queue.Newest.{Newest, send_each-Newest}

send_each-Newest_example :
    Newest {A = ℕ} 2 (send_each (5 ∷ 6 ∷ 7 ∷ []) (lossy_channel 2)).data_ ([] ++ (5 ∷ 6 ∷ 7 ∷ []))
send_each-Newest_example = send_each-Newest (5 ∷ 6 ∷ 7 ∷ []) (lossy_channel 2) refl (omega arith)
