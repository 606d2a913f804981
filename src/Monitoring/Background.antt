-- ===== src/Monitoring/Background.antt =====
-- monitoring/failure_detector.py and monitoring/health_checker.py: `start` and `stop` of the thread
-- that makes the passes. Thread objects are numbers in the order in which they are made. A join
-- with a timeout may return before the thread has ended: `ended` says whether it has. Between two
-- passes a thread tests the stop event, which is `check`.
pub mod Single
use distributed_tickit_syste.Common.{
  ℕ, ◌+◌, ◌≡◌, refl, ap, ◌⊎◌, inl, inr, Bool, true, false, Option, none, some, List, [], ◌∷◌,
  if◌then◌else◌, ite, ℕ_discrete, ◌==◌, length, ◌≤◌, arith,
}
use distributed_tickit_syste.Monitoring.Heartbeat.{remove}

pub record Background : Type 0 where
  pub stop_event : Bool
  pub thread : Option ℕ
  -- The threads whose loops have not ended.
  pub alive : List ℕ
  pub made : ℕ

unfoldable pub init : Background
init = record { stop_event = false; thread = none; alive = []; made = 0 }

abbrev pub is_in : ℕ → List ℕ → Bool
is_in n [] = false
is_in n (k ∷ ks) = ite (ℕ_discrete k n) true (is_in n ks)

-- `self._thread and self._thread.is_alive()`
abbrev pub is_running : Option ℕ → List ℕ → Bool
is_running none alive = false
is_running (some n) alive = is_in n alive

unfoldable pub start : Background → Background
start b = if is_running b.thread b.alive then b else record {
  stop_event = false;
  thread = some b.made;
  alive = b.made ∷ b.alive;
  made = b.made + 1;
}

unfoldable pub join : (ended : Bool) → Option ℕ → Background → Background
join ended none b = b
join ended (some n) b = if ended then record b { alive = remove n b.alive } else b

-- `FailureDetector.stop` forgets the thread.
unfoldable pub stop_detector : (ended : Bool) → Background → Background
unfolding join
stop_detector ended b = record (join ended b.thread (record b { stop_event = true })) {
  thread = none;
}

-- `HealthChecker.stop` keeps it.
unfoldable pub stop_checker : (ended : Bool) → Background → Background
unfolding join
stop_checker ended b = join ended b.thread (record b { stop_event = true })

-- The test of the loop, for the thread `n`.
unfoldable pub check : (n : ℕ) → Background → Background
check n b = if b.stop_event then record b { alive = remove n b.alive } else b
