-- ===== src/Monitoring/Status.antt =====
-- monitoring/heartbeat.py: the status of a server in detail. `strftime` is Python's, and each reading
-- of the clock is an argument. Times are whole milliseconds, so `int` changes nothing.
use distributed_tickit_syste.Common.{
  ℕ, ◌≡◌, refl, ◌∙◌, String, Bool, false, Option, none, some, [], ◌∷◌, string_key, Option-cases,
  inl, inr, arith,
}
use mathlib.Core.Option.{map as map_option}
use distributed_tickit_syste.Common.Int.{ℤ, sub_ℕ}
use distributed_tickit_syste.Common.Dict.{Dict, lookup, IsUnique}
use distributed_tickit_syste.Monitoring.Heartbeat.{
  Heartbeat, HeartbeatMonitor, in_time, refresh_server_health, is_server_alive,
}
use distributed_tickit_syste.Monitoring.Timeouts.{judged, check_server_health_lem}

pub record HealthInfo : Type 0 where
  pub is_alive : Bool
  pub last_heartbeat : Option String
  pub time_since_heartbeat_ms : Option ℤ

module _ (strftime : ℕ → String) where
  unfoldable pub status_from_heartbeat :
      (now : ℕ) → Option Heartbeat → HeartbeatMonitor → HealthInfo
  status_from_heartbeat now none m = record {
    is_alive = false;
    last_heartbeat = none;
    time_since_heartbeat_ms = none;
  }
  status_from_heartbeat now (some heartbeat) m = record {
    is_alive = in_time now m heartbeat;
    last_heartbeat = some (strftime heartbeat.timestamp);
    time_since_heartbeat_ms = some (sub_ℕ now heartbeat.timestamp);
  }

  unfoldable pub get_server_status : (now : ℕ) → String → HeartbeatMonitor → HealthInfo
  unfolding status_from_heartbeat
  get_server_status now sid m = status_from_heartbeat now (lookup sid m.heartbeats) m

  -- The dictionary over the heartbeats that are left; the clock is read for each of them.
  unfoldable pub statuses :
      (now : String → ℕ) → HeartbeatMonitor → Dict String Heartbeat → Dict String HealthInfo
  unfolding status_from_heartbeat
  statuses now m [] = []
  statuses now m ((sid, heartbeat) ∷ heartbeats) =
      (sid, status_from_heartbeat (now sid) (some heartbeat) m) ∷ statuses now m heartbeats

  unfoldable pub get_all_server_status :
      (refreshed_at : ℕ)
      → (now : String → ℕ) → HeartbeatMonitor
      → Dict String HealthInfo × HeartbeatMonitor
  unfolding statuses
  get_all_server_status refreshed_at now m =
      let refreshed = refresh_server_health refreshed_at m in
      (statuses now refreshed m.heartbeats, refreshed)

  -- The detailed status of a server and `is_server_alive`, asked at the same time, agree for every
  -- server that has sent a heartbeat and, if no status is kept of the others, for those too. The
  -- heartbeats have no key twice.
  pub is_server_alive-get_server_status :
      (now : ℕ) (sid : String) (m : HeartbeatMonitor)
      → IsUnique m.heartbeats
      → (lookup sid m.heartbeats ≡ none → lookup sid m.server_status ≡ none)
      → (is_server_alive now sid m).0 ≡ (get_server_status now sid m).is_alive
  unfolding is_server_alive get_server_status judged
  is_server_alive-get_server_status now sid m u unknown =
      let found = check_server_health_lem now m sid u in
      elim (Option-cases (lookup sid m.heartbeats)) [
        | inl missing ↦ let no_status = unknown missing in ground (arith, found)
        | inr (h, there) ↦ ground (arith, found)
      ]

  statuses_lem :
      (now : String → ℕ) (m : HeartbeatMonitor) (hs : Dict String Heartbeat) (sid : String)
      → lookup sid (statuses now m hs)
        ≡ map_option (λ h. status_from_heartbeat (now sid) (some h) m) (lookup sid hs)
  unfolding statuses lookup
  statuses_lem now m [] sid = refl
  statuses_lem now m ((k, h) ∷ hs) sid = ground (arith, statuses_lem now m hs sid)

  -- Everybody that has sent a heartbeat is in the status of all servers, with the status of its own.
  pub get_all_server_status_lem :
      (refreshed_at : ℕ) (now : String → ℕ) (sid : String) (m : HeartbeatMonitor)
      → lookup sid (get_all_server_status refreshed_at now m).0 ≡ (elim (lookup sid m.heartbeats) [
        | none ↦ none
        | some h ↦ some (get_server_status (now sid) sid m)
      ])
  unfolding get_all_server_status get_server_status refresh_server_health
  get_all_server_status_lem refreshed_at now sid m =
      statuses_lem now (refresh_server_health refreshed_at m) m.heartbeats sid
      ∙ by_heartbeat (lookup sid m.heartbeats) refl
    where
      by_heartbeat :
          (o : Option Heartbeat)
          → lookup sid m.heartbeats ≡ o
          → map_option
              (λ h. status_from_heartbeat (now sid) (some h) (refresh_server_health refreshed_at m))
              o
            ≡ map_option (λ h. get_server_status (now sid) sid m) o
      by_heartbeat none e = refl
      by_heartbeat (some h) e = rw (get_server_status, e) refl
