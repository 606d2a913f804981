-- ===== src/Monitoring/Transitions.antt =====
-- What the failure detector reports, against what it holds to be down.
use distributed_tickit_syste.Common.{
  ℕ, ◌≡◌, refl, ◌∙◌, ap, String, Bool, true, false, not, ◌&&◌, List, [], ◌∷◌, ◌++◌, map, ite,
  if◌then◌else◌, string_key, string_same, arith,
}
use distributed_tickit_syste.Failover.Recovery.{contains}
use distributed_tickit_syste.Monitoring.Heartbeat.{check_server_health, get_down_servers}
use distributed_tickit_syste.Monitoring.FailureDetector.{
  FailureDetector, Event, timeout_logged, recovery_logged, failure_called, recovery_called,
  difference, report_failures, report_recoveries, report_changes, run_once, run_loop,
}

contains-difference :
    (k : String) (xs ys : List String)
    → contains k (difference xs ys) ≡ (contains k xs && not (contains k ys))
unfolding contains
contains-difference k [] ys = refl
contains-difference k (x ∷ xs) ys = ground (arith, contains-difference k xs ys)

-- Whether a server is down by what has been logged, from what was known before.
unfoldable pub down_by : String → Bool → List Event → Bool
down_by k before [] = before
down_by k before (timeout_logged srv ∷ events) =
    down_by k (ite (string_same srv k) true before) events
down_by k before (recovery_logged srv ∷ events) =
    down_by k (ite (string_same srv k) false before) events
down_by k before (failure_called callback srv ∷ events) = down_by k before events
down_by k before (recovery_called callback srv ∷ events) = down_by k before events

down_by-append :
    (k : String) (b : Bool) (es es' : List Event)
    → down_by k b (es ++ es') ≡ down_by k (down_by k b es) es'
unfolding down_by
down_by-append k b [] es' = refl
down_by-append k b (timeout_logged srv ∷ es) es' =
    down_by-append k (ite (string_same srv k) true b) es es'
down_by-append k b (recovery_logged srv ∷ es) es' =
    down_by-append k (ite (string_same srv k) false b) es es'
down_by-append k b (failure_called c srv ∷ es) es' = down_by-append k b es es'
down_by-append k b (recovery_called c srv ∷ es) es' = down_by-append k b es es'

failure_calls :
    (k srv : String) (b : Bool) (callbacks : List ℕ)
    → down_by k b (map (λ callback. failure_called callback srv) callbacks) ≡ b
unfolding down_by
failure_calls k srv b [] = refl
failure_calls k srv b (c ∷ callbacks) = failure_calls k srv b callbacks

recovery_calls :
    (k srv : String) (b : Bool) (callbacks : List ℕ)
    → down_by k b (map (λ callback. recovery_called callback srv) callbacks) ≡ b
unfolding down_by
recovery_calls k srv b [] = refl
recovery_calls k srv b (c ∷ callbacks) = recovery_calls k srv b callbacks

down_by-report_failures :
    (k : String) (b : Bool) (callbacks : List ℕ) (servers : List String)
    → down_by k b (report_failures callbacks servers) ≡ (if contains k servers then true else b)
unfolding down_by report_failures contains
down_by-report_failures k b callbacks [] = refl
down_by-report_failures k b callbacks (srv ∷ servers) =
    let b' = ite (string_same srv k) true b in
    down_by-append k b' (map (λ callback. failure_called callback srv) callbacks) _
    ∙ ap (λ x. down_by k x (report_failures callbacks servers)) (failure_calls k srv b' callbacks)
    ∙ ground (arith, down_by-report_failures k b' callbacks servers)

down_by-report_recoveries :
    (k : String) (b : Bool) (callbacks : List ℕ) (servers : List String)
    → down_by k b (report_recoveries callbacks servers) ≡ (if contains k servers then false else b)
unfolding down_by report_recoveries contains
down_by-report_recoveries k b callbacks [] = refl
down_by-report_recoveries k b callbacks (srv ∷ servers) =
    let b' = ite (string_same srv k) false b in
    down_by-append k b' (map (λ callback. recovery_called callback srv) callbacks) _
    ∙ ap (λ x. down_by k x (report_recoveries callbacks servers))
        (recovery_calls k srv b' callbacks)
    ∙ ground (arith, down_by-report_recoveries k b' callbacks servers)

-- `sorted` returns the members of the set.
abbrev pub KeepsMembers : (List String → List String) → Type 0
KeepsMembers sorted = (k : String) (xs : List String) → contains k (sorted xs) ≡ contains k xs

module _ (sorted : List String → List String) (keeps : KeepsMembers sorted) where
  report_changes_lem :
      (k : String) (down : List String) (d : FailureDetector)
      → down_by k (contains k d.known_down) (report_changes sorted down d).0 ≡ contains k down
  unfolding report_changes
  report_changes_lem k down d =
      let failed = sorted (difference down d.known_down) in
      let back = sorted (difference d.known_down down) in
      let fails = report_failures d.failure_callbacks failed in
      down_by-append k (contains k d.known_down) fails _
      ∙ ground (
        arith,
        down_by-report_failures k (contains k d.known_down) d.failure_callbacks failed,
        down_by-report_recoveries k (down_by k (contains k d.known_down) fails) d.recovery_callbacks
            back,
        keeps k (difference down d.known_down),
        keeps k (difference d.known_down down),
        contains-difference k down d.known_down,
        contains-difference k d.known_down down,
      )

  known_down-run_once :
      (k : String) (now later : ℕ) (d : FailureDetector)
      → down_by k (contains k d.known_down) (run_once sorted now later d).0
        ≡ contains k (run_once sorted now later d).1.known_down
  unfolding run_once
  known_down-run_once k now later d =
      let (down, monitor) = get_down_servers later (check_server_health now d.monitor).1 in
      report_changes_lem k down (record d { monitor = monitor })

  -- After any passes, the servers that the detector knows to be down are the ones whose last logged
  -- change was a failure, or that were down before and have had no change logged since: every change
  -- of the set is reported. `sorted` keeps the members of a set.
  pub known_down-run_loop :
      (k : String) (passes : List (ℕ × ℕ)) (d : FailureDetector)
      → down_by k (contains k d.known_down) (run_loop sorted passes d).0
        ≡ contains k (run_loop sorted passes d).1.known_down
  unfolding run_loop down_by
  known_down-run_loop k [] d = refl
  known_down-run_loop k ((now, later) ∷ passes) d =
      let (events, d') = run_once sorted now later d in
      down_by-append k (contains k d.known_down) events (run_loop sorted passes d').0
      ∙ ap (λ b. down_by k b (run_loop sorted passes d').0) (known_down-run_once k now later d)
      ∙ known_down-run_loop k passes d'
