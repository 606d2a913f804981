-- ===== src/Monitoring/Timeouts.antt =====
-- What a check of the heartbeats finds out, and whom it tells.
use distributed_tickit_syste.Common.{
  ℕ, ◌+◌, ◌≡◌, refl, ap, ap₂, ◌∙◌, String, Bool, true, false, not, ◌&&◌, Option, none, some,
  string_same, [], ◌∷◌, ◌++◌, leb, if◌then◌else◌, string_key, arith, All,
}
use distributed_tickit_syste.Common.Dict.{
  Dict, lookup, insert, lookup-insert, IsUnique, insert-IsUnique,
}
use distributed_tickit_syste.Monitoring.Heartbeat.{
  Heartbeat, HeartbeatMonitor, StatusCall, tell, status_or, in_time, check_from,
  check_server_health, refresh_from, refresh_server_health, record_heartbeat, is_server_alive,
}
use mathlib.Core.List.{Memᴰ}
use mathlib.Core.List.Memᴰ

-- Both loops leave the same status.
refresh_lem :
    (now : ℕ) (m : HeartbeatMonitor) (hs : Dict String Heartbeat) (status : Dict String Bool)
    → (check_from now m hs status).1 ≡ refresh_from now m hs status
unfolding check_from refresh_from
refresh_lem now m [] status = refl
refresh_lem now m ((sid, h) ∷ hs) status =
    refresh_lem now m hs (insert sid (in_time now m h) status)

-- The status that the heartbeats of a dictionary give a server at `now`.
unfoldable pub judged :
    ℕ → HeartbeatMonitor → Dict String Heartbeat → String → Option Bool → Option Bool
judged now m hs sid before = elim (lookup sid hs) [
  | none ↦ before
  | some h ↦ some (in_time now m h)
]

judged_lem :
    (now : ℕ) (m : HeartbeatMonitor) (hs : Dict String Heartbeat) (status : Dict String Bool)
    (sid : String)
    → IsUnique hs
    → lookup sid (refresh_from now m hs status) ≡ judged now m hs sid (lookup sid status)
unfolding refresh_from judged lookup
judged_lem now m [] status sid u = refl
judged_lem now m ((k, h) ∷ hs) status sid u = ground (
  arith,
  judged_lem now m hs (insert k (in_time now m h) status) sid u.1,
  lookup-insert sid k (in_time now m h) status,
)

-- Of every server that has sent a heartbeat, a check at `now` finds out that it is alive exactly if
-- its last heartbeat is not older than the timeout; the status of the others stays. The heartbeats
-- have no key twice.
pub check_server_health_lem :
    (now : ℕ) (m : HeartbeatMonitor) (sid : String)
    → IsUnique m.heartbeats
    → lookup sid (check_server_health now m).1.server_status
      ≡ judged now m m.heartbeats sid (lookup sid m.server_status)
unfolding check_server_health
check_server_health_lem now m sid u =
    ap (lookup sid) (refresh_lem now m m.heartbeats m.server_status)
    ∙ judged_lem now m m.heartbeats m.server_status sid u

-- After a heartbeat of a server and before any other, `is_server_alive` answers at `now` that the
-- server is alive exactly if the heartbeat is not older than the timeout. The heartbeats before it
-- have no key twice.
pub is_server_alive-record_heartbeat :
    (sid : String) (timestamp now : ℕ) (m : HeartbeatMonitor)
    → IsUnique m.heartbeats
    → (is_server_alive now sid (record_heartbeat sid timestamp m).1).0
      ≡ leb now (timestamp + m.timeout)
unfolding is_server_alive record_heartbeat judged
is_server_alive-record_heartbeat sid timestamp now m u =
    let heartbeat : Heartbeat = record { server_id = sid; timestamp = timestamp } in
    let after = (record_heartbeat sid timestamp m).1 in
    let found =
      check_server_health_lem now after sid (insert-IsUnique sid heartbeat m.heartbeats u) in
    let there = lookup-insert sid sid heartbeat m.heartbeats in ground (arith, found, there)

insert_again :
    (k : String) (b : Bool) (d : Dict String Bool) → lookup k d ≡ some b → insert k b d ≡ d
unfolding lookup insert
insert_again k b [] e = absurd (ground arith)
insert_again k b ((j, c) ∷ d) e = ground (arith, insert_again k b d)

-- The status already says of every heartbeat what a check at `now` would find.
abbrev Agrees : ℕ → HeartbeatMonitor → Dict String Bool → Dict String Heartbeat → Type 0
Agrees now m status hs =
    All (λ (e : String × Heartbeat). lookup e.0 status ≡ some (in_time now m e.1)) hs

refreshed-Agrees :
    (now : ℕ) (m : HeartbeatMonitor) (hs : Dict String Heartbeat) (status : Dict String Bool)
    → IsUnique hs
    → Agrees now m (refresh_from now m hs status) hs
unfolding refresh_from judged
refreshed-Agrees now m [] status u = tt
refreshed-Agrees now m ((k, h) ∷ hs) status u = (
  ground (
    arith,
    judged_lem now m hs (insert k (in_time now m h) status) k u.1,
    lookup-insert k k (in_time now m h) status,
  ),
  refreshed-Agrees now m hs (insert k (in_time now m h) status) u.1,
)

silent :
    (k : String) (b : Bool) (m : HeartbeatMonitor) (status : Dict String Bool)
    → lookup k status ≡ some b
    → (if status_or true k status && not b then tell k false m else []) ≡ []
silent k true m status e = ground arith
silent k false m status e = ground arith

told_nothing :
    (now : ℕ) (m : HeartbeatMonitor) (hs : Dict String Heartbeat) (status : Dict String Bool)
    → Agrees now m status hs
    → (check_from now m hs status).0 ≡ []
unfolding check_from
told_nothing now m [] status a = refl
told_nothing now m ((k, h) ∷ hs) status a =
    let same = insert_again k (in_time now m h) status a.0 in
    let rest = told_nothing now m hs status a.1 in
    ap₂ ◌++◌ (silent k (in_time now m h) m status a.0)
      (ap (λ s. (check_from now m hs s).0) same ∙ rest)

-- A check tells of a server that has fallen silent.
told_of :
    (now : ℕ) (m : HeartbeatMonitor) (hs : Dict String Heartbeat) (status : Dict String Bool)
    (sid : String) (h : Heartbeat) (call : StatusCall)
    → IsUnique hs
    → lookup sid hs ≡ some h
    → in_time now m h ≡ false
    → status_or true sid status ≡ true
    → Memᴰ call (tell sid false m)
    → Memᴰ call (check_from now m hs status).0
unfolding check_from lookup
told_of now m [] status sid h call u there late up told = cc
told_of now m ((k, g) ∷ hs) status sid h call u there late up told =
    let own = if status_or true k status && not (in_time now m g) then tell k false m else [] in
    let later = (check_from now m hs (insert k (in_time now m g) status)).0 in
    elim (string_same k sid) as (λ d. string_same k sid ≡ d → Memᴰ call (own ++ later)) [
      | yes p ↦ λ is.
          let same : g ≡ h = ground arith in
          let this : own ≡ tell sid false m = rw (p, same, up, late) refl in
          Memᴰ.append_left later (rw this told)
      | no apart ↦ λ is. Memᴰ.append_right own (
          told_of now m hs (insert k (in_time now m g) status) sid h call u.1 (ground arith) late
            (ground (arith, lookup-insert sid k (in_time now m g) status)) told)
    ]
      refl

-- A query of all servers, `get_all_server_status`, hides a failure. Let the last heartbeat of a server
-- be older than the timeout, its status not be down yet and a callback be registered. A check of the
-- heartbeats tells the callback that the server is down. After a query at the same time, which
-- tells nobody, the status says that the server is down, and the check tells nobody of any server.
-- The heartbeats have no key twice.
pub refresh_hides_failures :
    (now : ℕ) (m : HeartbeatMonitor) (sid : String) (h : Heartbeat) (call : StatusCall)
    → IsUnique m.heartbeats
    → lookup sid m.heartbeats ≡ some h
    → in_time now m h ≡ false
    → status_or true sid m.server_status ≡ true
    → Memᴰ call (tell sid false m)
    → Memᴰ call (check_server_health now m).0
      × (lookup sid (refresh_server_health now m).server_status ≡ some false)
      × ((check_server_health now (refresh_server_health now m)).0 ≡ [])
unfolding check_server_health refresh_server_health judged
refresh_hides_failures now m sid h call u there late up told = (
  told_of now m m.heartbeats m.server_status sid h call u there late up told,
  judged_lem now m m.heartbeats m.server_status sid u ∙ rw (there, late, judged) refl,
  told_nothing now (refresh_server_health now m) m.heartbeats _
      (refreshed-Agrees now m m.heartbeats m.server_status u),
)
