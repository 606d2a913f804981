-- ===== src/Sync/Replicator.antt =====
-- synchronization/replicator.py: updates from other servers, resolved by version.
use distributed_tickit_syste.Common.{
  ℕ, String, ◌≡◌, refl, Option, none, some, List, [], ◌∷◌, arith, ite, ℕ_discrete, string_same,
  nat_key, ltb, if◌then◌else◌, map, ◌==◌, All, ◌≢◌, ◌++◌, ap, ◌∙◌,
}
use distributed_tickit_syste.Common.Dict.{lookup, insert, lookup-insert}
use distributed_tickit_syste.Sync.SeatState.{SeatState}
use distributed_tickit_syste.Sync.StateStore.{StateStore, get_seat}
use mathlib.Core.List.{append-nil, append_assoc}

pub record StateReplicator : Type 0 where
  pub local_store : StateStore
  pub peers : List String
  -- the calls that the callback got, if one is registered
  pub on_replicate_callback : Option (List (String × SeatState))

-- `[p for p in peers if p != local_store.server_id]`
unfoldable pub other_servers : String → List String → List String
other_servers server_id [] = []
other_servers server_id (p ∷ peers) =
    ite (string_same p server_id) (other_servers server_id peers)
      (p ∷ other_servers server_id peers)

unfoldable pub init : StateStore → List String → StateReplicator
unfolding other_servers
init local_store peers = record {
  local_store = local_store;
  peers = other_servers local_store.server_id peers;
  on_replicate_callback = none;
}

unfoldable pub set_replicate_callback : StateReplicator → StateReplicator
set_replicate_callback r = record r { on_replicate_callback = some [] }

-- What the callback raises is logged and dropped.
unfoldable pub replicate_to_peer : String → SeatState → StateReplicator → StateReplicator
replicate_to_peer peer_id seat r = elim r.on_replicate_callback [
  | none ↦ r
  | some calls ↦ record r { on_replicate_callback = some (calls ++ (peer_id, seat) ∷ []) }
]

-- The rounds of the loop of `broadcast_update` for the peers that are left.
unfoldable pub broadcast_to : List String → SeatState → StateReplicator → StateReplicator
unfolding replicate_to_peer
broadcast_to [] seat r = r
broadcast_to (p ∷ peers) seat r = broadcast_to peers seat (replicate_to_peer p seat r)

unfoldable pub broadcast_update : SeatState → StateReplicator → StateReplicator
unfolding broadcast_to
broadcast_update seat r = broadcast_to r.peers seat r

abbrev store_remote : SeatState → StateStore → StateStore
store_remote seat s = record s { seats = insert seat.seat_id seat s.seats }

-- The update reaches the store's dictionary directly: the version clock stays.
unfoldable pub apply_to_store : SeatState → StateStore → StateStore
unfolding get_seat
apply_to_store seat s = elim (get_seat seat.seat_id s) [
  | none ↦ store_remote seat s
  | some local_seat ↦
      if ltb local_seat.version seat.version
      then store_remote seat s
      else if seat.version == local_seat.version
      then s
      else s
]

unfoldable pub apply_remote_update : SeatState → StateReplicator → StateReplicator
unfolding apply_to_store
apply_remote_update seat r = record r { local_store = apply_to_store seat r.local_store }

unfoldable pub get_replication_status : StateReplicator → List (String × ℕ)
get_replication_status r = map (λ peer. (peer, r.local_store.version_clock)) r.peers

-- The seat that is kept: the remote one if there is no local one or its version is higher.
abbrev pub resolve : SeatState → Option SeatState → SeatState
resolve remote none = remote
resolve remote (some own) = if ltb own.version remote.version then remote else own

-- A remote update decides its own seat by the versions, a tie for the local copy, and changes no
-- other seat, nor the server's id or clock.
pub apply_remote_update_lem :
    (seat : SeatState) (r : StateReplicator) (k : ℕ)
    → let s = r.local_store in
      let s' = (apply_remote_update seat r).local_store in
      (lookup k s'.seats
        ≡ ite
            (ℕ_discrete seat.seat_id k)
            (some (resolve seat (lookup seat.seat_id s.seats)))
            (lookup k s.seats))
      × (s'.version_clock ≡ s.version_clock)
      × (s'.server_id ≡ s.server_id)
unfolding apply_remote_update
apply_remote_update_lem seat r k =
    ground (arith, lookup-insert k seat.seat_id seat r.local_store.seats)

-- A registered callback gets one call for each peer, in the order of the peers, and no other.
broadcast_to-calls :
    (peers : List String) (seat : SeatState) (r : StateReplicator)
    (calls : List (String × SeatState))
    → r.on_replicate_callback ≡ some calls
    → (broadcast_to peers seat r).on_replicate_callback
      ≡ some (calls ++ map (λ peer. (peer, seat)) peers)
unfolding broadcast_to
broadcast_to-calls [] seat r calls e = rw append-nil e
broadcast_to-calls (p ∷ peers) seat r calls e =
    broadcast_to-calls peers seat (replicate_to_peer p seat r) (calls ++ (p, seat) ∷ [])
      (ground arith)
    ∙ ap some (append_assoc calls ((p, seat) ∷ []) (map (λ peer. (peer, seat)) peers))

other_servers-others :
    (server_id : String) (peers : List String)
    → All (λ p. p ≢ server_id) (other_servers server_id peers)
unfolding other_servers
other_servers-others server_id [] = tt
other_servers-others server_id (p ∷ peers) = ground (arith, other_servers-others server_id peers)

-- A broadcast from a new replicator with a callback calls it once for each peer, in the order in
-- which the peers were listed, with the seat; the own server is not among them.
pub broadcast_update_lem :
    (store : StateStore) (peers : List String) (seat : SeatState)
    → let others = other_servers store.server_id peers in
      ((broadcast_update seat (set_replicate_callback (init store peers))).on_replicate_callback
        ≡ some (map (λ peer. (peer, seat)) others))
      × All (λ p. p ≢ store.server_id) others
unfolding broadcast_update
broadcast_update_lem store peers seat = (
  unfold init set_replicate_callback in
      broadcast_to-calls (other_servers store.server_id peers) seat _ [] refl,
  other_servers-others store.server_id peers,
)
