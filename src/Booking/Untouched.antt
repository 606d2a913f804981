-- ===== src/Booking/Untouched.antt =====
-- What the methods of the app do to the seats, the leases and the strategy.
use distributed_tickit_syste.Common.{
  ℕ, ◌≡◌, refl, ap, ◌∙◌, inl, inr, String, List, [], ◌∷◌, ite, string_same, nat_key, string_key,
  Option-cases, Bool-cases,
}
use distributed_tickit_syste.Common.Dict.{lookup}
use distributed_tickit_syste.Sync.SeatState.{SeatState}
use distributed_tickit_syste.Sync.SeatState
use distributed_tickit_syste.Sync.Simulator.{Timer, deliver_update}
use distributed_tickit_syste.Booking.Desk
use distributed_tickit_syste.Booking.Desk.{
  Seat, Desk, is_locked, is_empty, expire_leases_locked, Reply, done, not_locked, lease_expired,
}
use distributed_tickit_syste.Booking.App.{App}
use distributed_tickit_syste.Booking.Routing.{ActiveStrategy}
use distributed_tickit_syste.Booking.Choice.{IsValid}
use distributed_tickit_syste.Booking.Methods
use distributed_tickit_syste.Booking.Methods.{
  ToggleReadings, on_sync_delivered, switch_on, apply_recovery, toggle_server, primary_seats,
}
use distributed_tickit_syste.Booking.Steps.{
  outer, outer-replicate, Keeps, unchanged, bind-Keeps, or_key_error-Keeps, current_metrics-Keeps,
}
use distributed_tickit_syste.Balancer.Metrics.{ServerMetrics}
use distributed_tickit_syste.Booking.Desk.{expire_leases_locked}
use distributed_tickit_syste.Booking.App.{◌>>=◌, breaker_of, current_metrics}
use distributed_tickit_syste.Booking.Snapshot.{
  SnapshotReadings, begin_snapshot, rest_of_snapshot, tidy, read_server, breaker_read, read_servers,
  snapshot,
}

pub desks : {o o' : Desk × ActiveStrategy} → o ≡ o' → o.0 ≡ o'.0
desks e = ap (λ o. o.0) e

pub strategies : {o o' : Desk × ActiveStrategy} → o ≡ o' → o.1 ≡ o'.1
strategies e = ap (λ o. o.1) e

pub outer-confirm_seat :
    (now : ℕ) (stamp : String) (delays : String → ℕ) (k : ℕ) (a : App)
    → outer (Methods.confirm_seat now stamp delays k a).1
      ≡ ((Desk.confirm_seat now k a.desk).1, a.strategy)
unfolding Methods.confirm_seat
outer-confirm_seat now stamp delays k a = by_reply (Desk.confirm_seat now k a.desk).0 refl
  where
    by_reply :
        (reply : Reply Seat)
        → (Desk.confirm_seat now k a.desk).0 ≡ reply
        → outer (Methods.confirm_seat now stamp delays k a).1
          ≡ ((Desk.confirm_seat now k a.desk).1, a.strategy)
    by_reply (done seat) e =
        rw (e, Methods.confirm_seat)
          (outer-replicate stamp delays k SeatState.reserved seat.owner
            (record a { desk = (Desk.confirm_seat now k a.desk).1 }))
    by_reply not_locked e = rw (e, Methods.confirm_seat) refl
    by_reply lease_expired e = rw (e, Methods.confirm_seat) refl

pub outer-cancel_lock :
    (k : ℕ) (a : App)
    → outer (Methods.cancel_lock k a).1 ≡ ((Desk.cancel_lock k a.desk).1, a.strategy)
unfolding Methods.cancel_lock
outer-cancel_lock k a = by_reply (Desk.cancel_lock k a.desk).0 refl
  where
    by_reply :
        (reply : Reply (Unit {0}))
        → (Desk.cancel_lock k a.desk).0 ≡ reply
        → outer (Methods.cancel_lock k a).1 ≡ ((Desk.cancel_lock k a.desk).1, a.strategy)
    by_reply (done u) e = rw (e, Methods.cancel_lock) refl
    by_reply not_locked e = rw (e, Methods.cancel_lock) refl
    by_reply lease_expired e = rw (e, Methods.cancel_lock) refl

pub outer-renew_lease :
    (now later asked k : ℕ) (a : App)
    → outer (Methods.renew_lease now later asked k a).1
      ≡ ((Desk.renew_lease now later asked k a.desk).1, a.strategy)
unfolding Methods.renew_lease
outer-renew_lease now later asked k a = by_reply (Desk.renew_lease now later asked k a.desk).0 refl
  where
    by_reply :
        (reply : Reply ℕ)
        → (Desk.renew_lease now later asked k a.desk).0 ≡ reply
        → outer (Methods.renew_lease now later asked k a).1
          ≡ ((Desk.renew_lease now later asked k a.desk).1, a.strategy)
    by_reply (done left) e = rw (e, Methods.renew_lease) refl
    by_reply not_locked e = rw (e, Methods.renew_lease) refl
    by_reply lease_expired e = rw (e, Methods.renew_lease) refl

outer-on_sync_delivered :
    (sid : String) (seat : SeatState) (a : App) → outer (on_sync_delivered sid seat a) ≡ outer a
unfolding on_sync_delivered
outer-on_sync_delivered sid seat a = elim (Option-cases (lookup sid a.replicators)) [
  | inl missing ↦ rw (missing, on_sync_delivered) refl
  | inr (replicator, at) ↦ rw (at, on_sync_delivered) refl
]

pub outer-deliver : (timer : Timer) (a : App) → outer (Methods.deliver timer a) ≡ outer a
unfolding Methods.deliver
outer-deliver timer a =
    outer-on_sync_delivered timer.peer_id timer.seat
      (record a { consistency_simulator = (deliver_update timer a.consistency_simulator).1 })

outer-apply_recovery :
    (sid : String) (updates : List SeatState) (a : App)
    → outer (apply_recovery sid updates a) ≡ outer a
unfolding apply_recovery
outer-apply_recovery sid [] a = refl
outer-apply_recovery sid (seat ∷ updates) a =
    outer-apply_recovery sid updates (on_sync_delivered sid seat a)
    ∙ outer-on_sync_delivered sid seat a

outer-ite :
    {P : Type 0} (same : Dec P) (x y : App) (d : Desk × ActiveStrategy)
    → outer x ≡ d
    → outer y ≡ d
    → outer (ite same x y) ≡ d
outer-ite (yes p) x y d e e' = e
outer-ite (no n) x y d e e' = e'

outer-switch_on :
    (r : ToggleReadings) (sid : String) (a : App) → outer (switch_on r sid a) ≡ outer a
unfolding switch_on
outer-switch_on r sid a =
    outer-ite (string_same sid "Server 1") _ _ (outer a) refl
      (outer-apply_recovery sid (primary_seats a) _)

pub outer-toggle_server :
    (r : ToggleReadings) (sid : String) (a : App) → outer (toggle_server r sid a) ≡ outer a
unfolding toggle_server
outer-toggle_server r sid a = elim (Option-cases (lookup sid a.servers)) [
  | inl missing ↦ rw (missing, toggle_server) refl
  | inr (server, at) ↦ elim (Bool-cases server.online) [
    | inl on ↦ rw (at, toggle_server, on) refl
    | inr off ↦ rw (at, toggle_server, off) (outer-switch_on r sid _)
  ]
]

read_server-Keeps : (r : SnapshotReadings) (sid : String) → Keeps (read_server r sid)
read_server-Keeps r sid =
    bind-Keeps (breaker_of sid) (λ b. breaker_read r sid b)
      (λ a. or_key_error-Keeps sid (lookup sid a.breakers) a) (λ b a. unchanged a)

read_servers-Keeps :
    (r : SnapshotReadings) (metrics : List ServerMetrics) → Keeps (read_servers r metrics)
unfolding read_servers
read_servers-Keeps r [] = unchanged
read_servers-Keeps r (metric ∷ metrics) =
    bind-Keeps (read_server r metric.server_id) (λ _. read_servers r metrics)
      (read_server-Keeps r metric.server_id) (λ _. read_servers-Keeps r metrics)

rest_of_snapshot-Keeps : (r : SnapshotReadings) → Keeps (rest_of_snapshot r)
rest_of_snapshot-Keeps r =
    bind-Keeps (current_metrics r.metrics) (λ metrics. tidy r >>= λ _. read_servers r metrics)
      (current_metrics-Keeps r.metrics)
      (λ metrics.
        bind-Keeps (tidy r) (λ _. read_servers r metrics) unchanged
          (λ _. read_servers-Keeps r metrics))

pub snapshot-IsValid :
    (r : SnapshotReadings) (a : App) → IsValid a.strategy → IsValid (snapshot r a).1.strategy
unfolding snapshot
snapshot-IsValid r a v = (rest_of_snapshot-Keeps r (begin_snapshot r a).1).2 v

pub desk-snapshot :
    (r : SnapshotReadings) (a : App)
    → (snapshot r a).1.desk ≡ expire_leases_locked r.expired_at a.desk
unfolding snapshot
desk-snapshot r a = (rest_of_snapshot-Keeps r (begin_snapshot r a).1).0
