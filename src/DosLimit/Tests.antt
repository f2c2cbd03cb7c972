-- ===== src/DosLimit/Tests.antt =====
-- Two connected peers of one prefix, and the theorems at them.
use electrs_cash.Common.{ℕ, ◌+◌, ◌≤◌, ◌<◌, ◌≡◌, refl, true, false, List, [], ◌∷◌, arith, ◌⊎◌}
use electrs_cash.Common.Map.{lookup}
use electrs_cash.Common.Int.{pos, ltb_ℤ}
use electrs_cash.Errors.{ok, err, msg}
use electrs_cash.DosLimit.{
  IpAddr, v4, get_prefix, GlobalLimits, inc_connection, dec_connection, prefix_dec, count_of,
}
use electrs_cash.DosLimit.Peers.{Tracks, count, inc_connection-Tracks, dec_connection-Tracks}

abbrev first_peer : IpAddr
first_peer = v4 (10 ∷ 1 ∷ 0 ∷ 1 ∷ [])

abbrev second_peer : IpAddr
second_peer = v4 (10 ∷ 1 ∷ 0 ∷ 2 ∷ [])

abbrev both : GlobalLimits
both = record {
  max_connections_total = pos 5;
  max_connections_shared_prefix = 3;
  total_connections = 2;
  prefixed = (10 ∷ 1 ∷ [], 2) ∷ [];
}

same_prefix : (p : List ℕ) → count_of both.prefixed p ≡ count p (first_peer ∷ second_peer ∷ [])
unfolding get_prefix lookup
same_prefix p = elim (prefix_dec (10 ∷ 1 ∷ []) p) [
  | yes same ↦ ground (arith, same)
  | no other ↦ ground (arith, other)
]

both-Tracks : Tracks both (first_peer ∷ second_peer ∷ [])
unfolding get_prefix
both-Tracks = record {
  total = refl;
  by_prefix = same_prefix;
  shared = λ p. ground arith;
  u32 = omega arith;
}

inc_connection-Tracks_example :
    ((count (get_prefix first_peer) (first_peer ∷ second_peer ∷ []) < 3)
      × (ltb_ℤ (pos 2) (pos 5) ≡ true)
      × ((inc_connection both first_peer).1
          ≡ ok (3, count (get_prefix first_peer) (first_peer ∷ second_peer ∷ []) + 1))
      × Tracks (inc_connection both first_peer).0 (first_peer ∷ first_peer ∷ second_peer ∷ []))
    ⊎ (((3 ≤ count (get_prefix first_peer) (first_peer ∷ second_peer ∷ []))
          ⊎ (ltb_ℤ (pos 2) (pos 5) ≡ false))
        × ((inc_connection both first_peer).1 ≡ err msg)
        × Tracks (inc_connection both first_peer).0 (first_peer ∷ second_peer ∷ []))
inc_connection-Tracks_example =
    inc_connection-Tracks both (first_peer ∷ second_peer ∷ []) first_peer both-Tracks

dec_connection-Tracks_example :
    ((dec_connection both second_peer).1 ≡ ok (1, count (get_prefix second_peer) (first_peer ∷ [])))
    × Tracks (dec_connection both second_peer).0 (first_peer ∷ [])
dec_connection-Tracks_example =
    dec_connection-Tracks both (first_peer ∷ []) second_peer [] both-Tracks
