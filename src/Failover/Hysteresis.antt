-- ===== src/Failover/Hysteresis.antt =====
-- The thresholds of `FailoverManager`: how many reports in a row it takes to change a server's health.
use distributed_tickit_syste.Common.{
  ℕ, suc, ◌+◌, ◌<◌, ◌≡◌, ◌≢◌, refl, ◌∙◌, ap, ap₂, sym, ltb→lt, append_nil, String, Bool, true,
  false, List, [], ◌∷◌, ◌++◌, length, ltb, leb, if◌then◌else◌, string_key, arith, Bool-cases, inl,
  inr,
}
use distributed_tickit_syste.Common.Dict.{lookup-insert}
use distributed_tickit_syste.Failover.Manager.{
  ServerFailoverState, FailoverManager, state_of, unchanged, recovered, failed, report,
  report_healthy, report_unhealthy, Calls, calls_for, update_health,
}

state_of-same :
    (sid : String) (healthy : Bool) (t : ℕ) (reason : String) (m : FailoverManager)
    → state_of sid (update_health sid healthy t reason m).1
      ≡ (report m healthy t reason (state_of sid m)).0
unfolding update_health
state_of-same sid healthy t reason m =
    ground (arith, lookup-insert sid sid (report m healthy t reason (state_of sid m)).0 m.states)

-- A report about one server leaves the state of every other server as it was.
pub update_health-other :
    (sid other : String) (healthy : Bool) (t : ℕ) (reason : String) (m : FailoverManager)
    → sid ≢ other
    → state_of other (update_health sid healthy t reason m).1 ≡ state_of other m
unfolding update_health
update_health-other sid other healthy t reason m apart =
    ground (arith, lookup-insert other sid (report m healthy t reason (state_of sid m)).0 m.states)

module _ (m : FailoverManager) (t : ℕ) (reason : String) (s : ServerFailoverState) where
  report-fails :
      s.healthy ≡ true
      → ((report m false t reason s).0.healthy ≡ ltb (s.fail_count + 1) m.unhealthy_threshold)
        × ((report m false t reason s).0.fail_count ≡ s.fail_count + 1)
        × ((report m false t reason s).1
            ≡ (if ltb (s.fail_count + 1) m.unhealthy_threshold then unchanged else failed))
  unfolding report report_unhealthy
  report-fails h = ground arith

  report-stays_down :
      s.healthy ≡ false
      → ((report m false t reason s).0.healthy ≡ false)
        × ((report m false t reason s).1 ≡ unchanged)
  unfolding report report_unhealthy
  report-stays_down h = ground arith

  report-recovers :
      s.healthy ≡ false
      → ((report m true t reason s).0.healthy ≡ leb m.healthy_threshold (s.recover_count + 1))
        × ((report m true t reason s).0.recover_count ≡ s.recover_count + 1)
        × ((report m true t reason s).1
            ≡ (if leb m.healthy_threshold (s.recover_count + 1) then recovered else unchanged))
  unfolding report report_healthy
  report-recovers h = ground arith

  report-stays_up :
      s.healthy ≡ true
      → ((report m true t reason s).0.healthy ≡ true) × ((report m true t reason s).1 ≡ unchanged)
  unfolding report report_healthy
  report-stays_up h = ground arith

-- The same report on one server, one time after the other, with the callbacks that are called.
unfoldable pub report_all :
    String → Bool → List (ℕ × String) → FailoverManager → Calls × FailoverManager
report_all sid healthy [] m = ([], m)
report_all sid healthy ((t, reason) ∷ reports) m =
    let after = update_health sid healthy t reason m in
    let rest = report_all sid healthy reports after.1 in (after.0 ++ rest.0, rest.1)

module _ (sid : String) where
  calls-update :
      (healthy : Bool) (t : ℕ) (reason : String) (m : FailoverManager)
      → (update_health sid healthy t reason m).0
        ≡ calls_for (report m healthy t reason (state_of sid m)).1 sid m
  unfolding update_health
  calls-update healthy t reason m = refl

  stays_down :
      (reports : List (ℕ × String)) (m : FailoverManager)
      → (state_of sid m).healthy ≡ false
      → ((state_of sid (report_all sid false reports m).1).healthy ≡ false)
        × ((report_all sid false reports m).0 ≡ [])
  unfolding report_all
  stays_down [] m h = (h, refl)
  stays_down ((t, reason) ∷ reports) m h =
      let (down, quiet) = report-stays_down m t reason (state_of sid m) h in
      let same = state_of-same sid false t reason m in
      let no_calls : (update_health sid false t reason m).0 ≡ [] =
        calls-update false t reason m ∙ ap (λ c. calls_for c sid m) quiet in
      let (down', quiet') =
        stays_down reports (update_health sid false t reason m).1
          (ap (λ s. s.healthy) same ∙ down) in
      (down', rw (no_calls) quiet')

  -- The failure that reaches the threshold.
  failure_trips :
      (t : ℕ) (reason : String) (m : FailoverManager)
      → (state_of sid m).healthy ≡ true
      → ltb ((state_of sid m).fail_count + 1) m.unhealthy_threshold ≡ false
      → ((state_of sid (update_health sid false t reason m).1).healthy ≡ false)
        × ((update_health sid false t reason m).0 ≡ calls_for failed sid m)
  failure_trips t reason m h at =
      let (healthy, count, change) = report-fails m t reason (state_of sid m) h in
      (
        ap (λ s. s.healthy) (state_of-same sid false t reason m) ∙ healthy ∙ at,
        calls-update false t reason m
            ∙ ap (λ c. calls_for c sid m) (change ∙ ap (λ b. if b then unchanged else failed) at),
      )

  -- A failure before that.
  failure_counts :
      (t : ℕ) (reason : String) (m : FailoverManager)
      → (state_of sid m).healthy ≡ true
      → ltb ((state_of sid m).fail_count + 1) m.unhealthy_threshold ≡ true
      → ((state_of sid (update_health sid false t reason m).1).healthy ≡ true)
        × ((state_of sid (update_health sid false t reason m).1).fail_count
            ≡ (state_of sid m).fail_count + 1)
        × ((update_health sid false t reason m).0 ≡ [])
  failure_counts t reason m h at =
      let (healthy, count, change) = report-fails m t reason (state_of sid m) h in
      let same = state_of-same sid false t reason m in
      (
        ap (λ s. s.healthy) same ∙ healthy ∙ at,
        ap (λ s. s.fail_count) same ∙ count,
        calls-update false t reason m
            ∙ ap (λ c. calls_for c sid m) (change ∙ ap (λ b. if b then unchanged else failed) at),
      )

  settings_kept :
      (healthy : Bool) (t : ℕ) (reason : String) (m : FailoverManager)
      → ((update_health sid healthy t reason m).1.unhealthy_threshold ≡ m.unhealthy_threshold)
        × (calls_for failed sid (update_health sid healthy t reason m).1 ≡ calls_for failed sid m)
  unfolding update_health
  settings_kept healthy t reason m = (refl, refl)

  -- A healthy server with fewer failures counted than the threshold turns unhealthy with the report
  -- that reaches the threshold, and not before. Every failure callback is then called once, and none
  -- is called before that or again under further failures.
  pub failures_lem :
      (reports : List (ℕ × String)) (m : FailoverManager)
      → (state_of sid m).healthy ≡ true
      → (state_of sid m).fail_count < m.unhealthy_threshold
      → ((state_of sid (report_all sid false reports m).1).healthy
          ≡ ltb ((state_of sid m).fail_count + length reports) m.unhealthy_threshold)
        × ((report_all sid false reports m).0 ≡ (
            if ltb ((state_of sid m).fail_count + length reports) m.unhealthy_threshold
            then []
            else calls_for failed sid m))
  unfolding report_all
  failures_lem [] m h below =
      let same : (state_of sid m).fail_count + 0 ≡ (state_of sid m).fail_count = omega arith in
      let yes : ltb ((state_of sid m).fail_count + 0) m.unhealthy_threshold ≡ true = ground arith in
      (h ∙ sym yes, rw yes refl)
  failures_lem ((t, reason) ∷ reports) m h below =
      let m' = (update_health sid false t reason m).1 in
      let fails = (state_of sid m).fail_count in
      elim (Bool-cases (ltb (fails + 1) m.unhealthy_threshold)) [
        | inl before ↦
            let (up, count, quiet) = failure_counts t reason m h before in
            let (threshold, callbacks) = settings_kept false t reason m in
            let below' : (state_of sid m').fail_count < m'.unhealthy_threshold =
              rw (count, threshold) (ltb→lt _ _ before) in
            let (health, calls) = failures_lem reports m' up below' in
            let total : (state_of sid m').fail_count + length reports
                ≡ fails + suc (length reports) =
              rw count (omega arith) in
            let test : ltb ((state_of sid m').fail_count + length reports) m'.unhealthy_threshold
                ≡ ltb (fails + suc (length reports)) m.unhealthy_threshold =
              ap₂ ltb total threshold in
            (
              health ∙ test,
              ap₂ ◌++◌ quiet (calls ∙ ap₂ (λ b cs. if b then [] else cs) test callbacks),
            )
        | inr now ↦
            let (down, calls) = failure_trips t reason m h now in
            let (down', quiet) = stays_down reports m' down in
            let reached : ltb (fails + suc (length reports)) m.unhealthy_threshold ≡ false =
              ground (arith, now) in
            (
              down' ∙ sym reached,
              ap₂ ◌++◌ calls quiet
                  ∙ append_nil (calls_for failed sid m)
                  ∙ sym (ap (λ b. if b then [] else calls_for failed sid m) reached),
            )
      ]
