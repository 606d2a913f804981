-- ===== src/Telemetry/Latest.antt =====
-- Which metrics and which events a `MetricsCollector` shows.
use distributed_tickit_syste.Common.{
  ℕ, zero, suc, ◌-◌, ◌≤◌, ◌≡◌, refl, ◌∙◌, ap, String, Option, some, List, [], ◌∷◌, ◌++◌, length,
  ite, string_same, string_key, arith, length-append, min,
}
use distributed_tickit_syste.Common.Int.{pos}
use distributed_tickit_syste.Common.Dict.{lookup-insert}
use distributed_tickit_syste.Balancer.Metrics.{ServerMetrics}
use distributed_tickit_syste.Telemetry.{
  TelemetryEvent, MetricsCollector, ingest, ingest_batch, get_latest, record_event, drop, last,
  list_events,
}

-- The last metrics of a list that are about the server, or else `before`.
unfoldable pub newest : String → List ServerMetrics → Option ServerMetrics → Option ServerMetrics
newest sid [] before = before
newest sid (m ∷ metrics) before =
    newest sid metrics (ite (string_same m.server_id sid) (some m) before)

get_latest-ingest :
    (sid : String) (m : ServerMetrics) (c : MetricsCollector)
    → get_latest sid (ingest m c) ≡ ite (string_same m.server_id sid) (some m) (get_latest sid c)
unfolding get_latest ingest
get_latest-ingest sid m c = lookup-insert sid m.server_id m c.metrics

-- After a batch, the latest metrics of a server are the last ones in the batch that are about it,
-- or the ones from before if there are none.
pub ingest_batch_lem :
    (metrics : List ServerMetrics) (sid : String) (c : MetricsCollector)
    → get_latest sid (ingest_batch metrics c) ≡ newest sid metrics (get_latest sid c)
unfolding ingest_batch newest
ingest_batch_lem [] sid c = refl
ingest_batch_lem (m ∷ metrics) sid c =
    ingest_batch_lem metrics sid (ingest m c) ∙ ap (newest sid metrics) (get_latest-ingest sid m c)

length-drop : (n : ℕ) (events : List TelemetryEvent) → length (drop n events) ≡ length events - n
length-drop zero events = omega arith
length-drop (suc n) [] = omega arith
length-drop (suc n) (event ∷ events) = omega (arith, length-drop n events)

drop-append :
    (n : ℕ) (xs ys : List TelemetryEvent) → n ≤ length xs → drop n (xs ++ ys) ≡ drop n xs ++ ys
drop-append zero xs ys h = refl
drop-append (suc n) [] ys h = absurd (omega arith)
drop-append (suc n) (x ∷ xs) ys h = drop-append n xs ys (omega arith)

-- With a positive limit `k`, `list_events` returns that many events, or all if there are fewer, and
-- the newest event comes last: an event that is recorded is appended to the `k - 1` latest before it.
pub list_events_lem :
    (event_type message server_id circuit_state timestamp : String) (latency k : ℕ)
    (c : MetricsCollector)
    → let recorded = record_event event_type message server_id latency circuit_state timestamp c in
      (length (list_events (some (pos (suc k))) c) ≡ min (suc k) (length c.events))
      × (list_events (some (pos (suc k))) recorded.1
          ≡ drop (length c.events - k) c.events ++ recorded.0 ∷ [])
unfolding list_events last record_event
list_events_lem event_type message server_id circuit_state timestamp latency k c =
    let event = (record_event event_type message server_id latency circuit_state timestamp c).0 in
    let longer : length (c.events ++ event ∷ []) - suc k ≡ length c.events - k =
      omega (arith, length-append c.events (event ∷ [])) in
    (
      length-drop (length c.events - suc k) c.events ∙ ground arith,
      ap (λ (n : ℕ). drop n (c.events ++ event ∷ [])) longer
          ∙ drop-append (length c.events - k) c.events (event ∷ []) (omega arith),
    )
