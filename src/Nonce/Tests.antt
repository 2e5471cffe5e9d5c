-- ===== src/Nonce/Tests.antt =====
-- The theorems on nonces applied to short streams.
use pq_key_establishment_mav.Base.{ℕ, ◌≡◌, refl, arith, List, [], ◌∷◌}
use pq_key_establishment_mav.Nonce.{
  dir_tx, dir_rx, sender_ctx_init, sender_ctx_next, replay_window_init,
}
use pq_key_establishment_mav.Nonce.Replay.{
  taken_of, acceptable_of, replay_window_exact, AllDistinct, no_counter_twice,
}
use pq_key_establishment_mav.Nonce.Bytes.{sender_nonces_differ}

-- Reordered, repeated, far ahead, too old.
abbrev arrivals : List ℕ
arrivals = 5 ∷ 3 ∷ 5 ∷ 3 ∷ 4 ∷ 80 ∷ 16 ∷ 17 ∷ 17 ∷ 200 ∷ []

arrivals_taken : taken_of (replay_window_init dir_rx 1) arrivals ≡ 5 ∷ 3 ∷ 4 ∷ 80 ∷ 17 ∷ 200 ∷ []
unfolding replay_window_init
arrivals_taken = replay_window_exact dir_rx 1 arrivals

replay_window_exact_example :
    taken_of (replay_window_init dir_rx 1) arrivals ≡ acceptable_of [] arrivals
replay_window_exact_example = replay_window_exact dir_rx 1 arrivals

no_counter_twice_example : AllDistinct (taken_of (replay_window_init dir_rx 1) arrivals)
no_counter_twice_example = no_counter_twice dir_rx 1 arrivals

abbrev drone : ℕ
drone = 7

abbrev third : ℕ
third = 2

sender_nonces_differ_example : (drone ≡ drone) × (third ≡ third)
unfolding sender_ctx_next sender_ctx_init
sender_nonces_differ_example =
    sender_nonces_differ dir_tx dir_tx 1 1 drone drone third third 2 2 (omega arith) (omega arith)
      refl refl refl
