-- ===== src/Circuit/FailureTracker.antt =====
-- circuit_breaker/failure_tracker.py: outcomes in a sliding window. Times are whole milliseconds.
use distributed_tickit_syste.Common.{
  ℕ, ◌+◌, ◌*◌, ◌<◌, ◌≤◌, ◌≡◌, refl, Bool, true, false, not, List, [], ◌∷◌, ◌++◌, arith, ltb, filter,
  length, if◌then◌else◌, ◌==◌, ap, ◌∙◌,
}

pub record FailureTracker : Type 0 where
  pub window : ℕ
  -- the time of an outcome, and whether it was a failure
  pub events : List (ℕ × Bool)

unfoldable pub init : ℕ → FailureTracker
init window = record { window = window; events = [] }

-- `_prune`: `timestamp < now - window`, without the subtraction.
abbrev pub is_stale : (window now : ℕ) → ℕ × Bool → Bool
is_stale window now event = ltb (event.0 + window) now

-- The loop of `_prune`: `popleft` while the oldest event is stale.
unfoldable pub pop_stale : (window now : ℕ) → List (ℕ × Bool) → List (ℕ × Bool)
pop_stale window now [] = []
pop_stale window now (event ∷ events) =
    let rest = pop_stale window now events in
    if is_stale window now event then rest else event ∷ events

unfoldable pub prune : ℕ → FailureTracker → FailureTracker
unfolding pop_stale
prune now t = record t { events = pop_stale t.window now t.events }

unfoldable pub record_success : ℕ → FailureTracker → FailureTracker
unfolding prune
record_success now t = prune now (record t { events = t.events ++ (now, false) ∷ [] })

unfoldable pub record_failure : ℕ → FailureTracker → FailureTracker
unfolding prune
record_failure now t = prune now (record t { events = t.events ++ (now, true) ∷ [] })

-- The successes and the failures in the window.
unfoldable pub get_counts : ℕ → FailureTracker → (ℕ × ℕ) × FailureTracker
unfolding prune
get_counts now t =
    let t' = prune now t in
    (
      (
        length (filter (λ event. not event.1) t'.events),
        length (filter (λ event. event.1) t'.events),
      ),
      t',
    )

unfoldable pub total_requests : ℕ → FailureTracker → ℕ × FailureTracker
unfolding prune
total_requests now t = let t' = prune now t in (length t'.events, t')

-- A percentage, as the fraction that it is.
pub record Percentage : Type 0 where
  pub numerator : ℕ
  pub denominator : ℕ

abbrev pub percentage : ℕ × ℕ → Percentage
percentage (s, f) =
    if s + f == 0
    then record { numerator = 0; denominator = 1 }
    else record { numerator = 100 * f; denominator = s + f }

unfoldable pub failure_percentage : ℕ → FailureTracker → Percentage × FailureTracker
unfolding get_counts
failure_percentage now t = let (counts, t') = get_counts now t in (percentage counts, t')

unfoldable pub reset : FailureTracker → FailureTracker
reset t = record t { events = [] }

-- The events stand in the order of their times.
abbrev pub IsOrdered : List (ℕ × Bool) → Type 0
IsOrdered [] = Unit
IsOrdered (e ∷ []) = Unit
IsOrdered (e ∷ f ∷ events) = (e.0 ≤ f.0) × IsOrdered (f ∷ events)

abbrev fresh : (window now : ℕ) → List (ℕ × Bool) → List (ℕ × Bool)
fresh window now = filter (λ event. not (is_stale window now event))

fresh_of_fresh :
    (window now : ℕ) (e : ℕ × Bool) (events : List (ℕ × Bool))
    → IsOrdered (e ∷ events)
    → is_stale window now e ≡ false
    → fresh window now events ≡ events
fresh_of_fresh window now e [] h ok = refl
fresh_of_fresh window now e (f ∷ events) h ok = ground (arith, fresh_of_fresh window now f events)

-- Removing from the front until an event is not stale removes every stale event.
pop_stale-filter :
    (window now : ℕ) (events : List (ℕ × Bool))
    → IsOrdered events
    → pop_stale window now events ≡ fresh window now events
unfolding pop_stale
pop_stale-filter window now [] h = refl
pop_stale-filter window now (e ∷ []) h = ground arith
pop_stale-filter window now (e ∷ f ∷ events) h =
    ground (
      arith,
      pop_stale-filter window now (f ∷ events) h.1,
      fresh_of_fresh window now e (f ∷ events),
    )

count_split :
    (events : List (ℕ × Bool))
    → length (filter (λ event. not event.1) events) + length (filter (λ event. event.1) events)
      ≡ length events
count_split [] = omega arith
count_split (e ∷ events) = ground (arith, count_split events)

-- If the recorded times never went back, the counts are those of the outcomes in the window: the
-- two add up to the number of events that are not older than the window.
pub get_counts-window :
    (now : ℕ) (t : FailureTracker)
    → IsOrdered t.events
    → let kept = filter (λ event. not (is_stale t.window now event)) t.events in
      let ((s, f), t') = get_counts now t in
      (t'.events ≡ kept) × (f ≡ length (filter (λ event. event.1) kept)) × (s + f ≡ length kept)
unfolding get_counts
get_counts-window now t h =
    let e = pop_stale-filter t.window now t.events h in
    (
      e,
      ap (λ (events : List (ℕ × Bool)). length (filter (λ event. event.1) events)) e,
      count_split (pop_stale t.window now t.events) ∙ ap length e,
    )

-- A failure rate is never above 100 percent, and there is a denominator to divide by.
pub failure_percentage_bound :
    (now : ℕ) (t : FailureTracker)
    → let p = (failure_percentage now t).0 in
      (p.numerator ≤ 100 * p.denominator) × (0 < p.denominator)
unfolding failure_percentage
failure_percentage_bound now t = ground arith

-- The first failure is all that the window holds.
pub failure_percentage-first :
    (recorded counted : ℕ) (t : FailureTracker)
    → t.events ≡ []
    → counted ≤ recorded + t.window
    → (failure_percentage counted (record_failure recorded t)).0
      ≡ record { numerator = 100; denominator = 1 }
unfolding failure_percentage record_failure
failure_percentage-first recorded counted t none_yet in_window = rw none_yet (ground arith)
