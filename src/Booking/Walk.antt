-- ===== src/Booking/Walk.antt =====
-- The random walk of the metrics of the servers stays within its limits.
use distributed_tickit_syste.Common.{
  ℕ, ◌≤◌, ◌≡◌, refl, ap, String, true, false, Option, none, some, [], ◌∷◌, min, max, string_key,
  arith,
}
use distributed_tickit_syste.Common.Int.{ℤ, pos, negsuc, ◌+ℤ◌}
use distributed_tickit_syste.Common.Dict.{Dict, lookup, keys}
use distributed_tickit_syste.Booking.App.{Server}
use distributed_tickit_syste.Booking.Snapshot.{Draws, clamp, refresh_server, refresh_server_metrics}

between :
    (low high n : ℕ) → low ≤ high → (low ≤ max low (min high n)) × (max low (min high n) ≤ high)
between low high n le = (grind arith, grind (arith, le))

clamp-bounds :
    (low high : ℕ) (z : ℤ) → low ≤ high → (low ≤ clamp low high z) × (clamp low high z ≤ high)
unfolding clamp
clamp-bounds low high (pos n) le = between low high n le
clamp-bounds low high (negsuc n) le = (omega arith, le)

abbrev pub IsBounded : Server → Type 0
IsBounded s =
    (5 ≤ s.cpu)
    × (s.cpu ≤ 95)
    × (s.connections ≤ 30)
    × (25 ≤ s.response_time)
    × (s.response_time ≤ 700)

refresh_server-IsBounded :
    (d : Draws) (s : Server) → s.online ≡ true → IsBounded (refresh_server d s)
unfolding refresh_server
refresh_server-IsBounded d s on =
    let (cpu_low, cpu_high) = clamp-bounds 5 95 (pos s.cpu +ℤ d.cpu) (omega arith) in
    let (few, many) = clamp-bounds 0 30 (pos s.connections +ℤ d.connections) (omega arith) in
    let (fast, slow) = clamp-bounds 25 700 (pos s.response_time +ℤ d.response_time) (omega arith) in
    rw (on, refresh_server) (cpu_low, cpu_high, many, fast, slow)

refresh_server-offline : (d : Draws) (s : Server) → s.online ≡ false → refresh_server d s ≡ s
unfolding refresh_server
refresh_server-offline d s off = rw (off, refresh_server) refl

abbrev refreshed : Draws → Option Server → Option Server
refreshed d none = none
refreshed d (some s) = some (refresh_server d s)

lookup-refresh_server_metrics :
    (draws : String → Draws) (sid : String) (servers : Dict String Server)
    → lookup sid (refresh_server_metrics draws servers) ≡ refreshed (draws sid) (lookup sid servers)
unfolding refresh_server_metrics lookup
lookup-refresh_server_metrics draws sid [] = refl
lookup-refresh_server_metrics draws sid ((k, s) ∷ servers) =
    ground (arith, lookup-refresh_server_metrics draws sid servers)

keys-refresh_server_metrics :
    (draws : String → Draws) (servers : Dict String Server)
    → keys (refresh_server_metrics draws servers) ≡ keys servers
unfolding refresh_server_metrics keys
keys-refresh_server_metrics draws [] = refl
keys-refresh_server_metrics draws ((k, s) ∷ servers) =
    ap (◌∷◌ k) (keys-refresh_server_metrics draws servers)

-- Whatever is drawn, and whatever the metrics were before, a server that is online has a load between
-- 5 and 95, at most 30 connections and a response time between 25 and 700 after the refresh, and
-- one that is offline is as it was. The servers are the same ones in the same order.
pub refresh_server_metrics_lem :
    (draws : String → Draws) (sid : String) (servers : Dict String Server) (s : Server)
    → lookup sid servers ≡ some s
    → ((after : Server) × (lookup sid (refresh_server_metrics draws servers) ≡ some after)
        × (s.online ≡ true → IsBounded after)
        × (s.online ≡ false → after ≡ s))
      × (keys (refresh_server_metrics draws servers) ≡ keys servers)
refresh_server_metrics_lem draws sid servers s at = (
  (
    refresh_server (draws sid) s,
    rw at at (lookup-refresh_server_metrics draws sid servers),
    refresh_server-IsBounded (draws sid) s,
    refresh_server-offline (draws sid) s,
  ),
  keys-refresh_server_metrics draws servers,
)
