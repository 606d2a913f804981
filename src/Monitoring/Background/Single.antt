-- ===== src/Monitoring/Background/Single.antt =====
-- How many loops run at once.
use distributed_tickit_syste.Common.{
  ℕ, ◌≡◌, refl, ◌⊎◌, inl, inr, Bool, true, false, Option, none, some, [], ◌∷◌, ite, ℕ_discrete,
  Bool-cases,
}
use distributed_tickit_syste.Monitoring.Heartbeat.{remove}
use distributed_tickit_syste.Monitoring.Background.{
  Background, init, is_running, start, join, stop_detector, stop_checker, check,
}

-- No loop runs, or only the one of the thread that the object holds.
abbrev pub IsSingle : Background → Type 0
IsSingle b = (b.alive ≡ []) ⊎ ((n : ℕ) × (b.thread ≡ some n) × (b.alive ≡ n ∷ []))

is_running_idle : (thread : Option ℕ) → is_running thread [] ≡ false
is_running_idle none = refl
is_running_idle (some n) = refl

is_running_own : (n : ℕ) → is_running (some n) (n ∷ []) ≡ true
is_running_own n = elim (ℕ_discrete n n) as (λ same. ite same true false ≡ true) [
  | yes e ↦ refl
  | no apart ↦ absurd (apart refl)
]

remove_own : (n : ℕ) → remove n (n ∷ []) ≡ []
remove_own n = elim (ℕ_discrete n n) as (λ same. ite same [] (n ∷ []) ≡ []) [
  | yes e ↦ refl
  | no apart ↦ absurd (apart refl)
]

remove_from_one : (k n : ℕ) → (remove k (n ∷ []) ≡ []) ⊎ (remove k (n ∷ []) ≡ n ∷ [])
remove_from_one k n =
    elim (ℕ_discrete n k)
      as (λ same. (ite same [] (n ∷ []) ≡ []) ⊎ (ite same [] (n ∷ []) ≡ n ∷ [])) [
        | yes e ↦ inl refl
        | no apart ↦ inr refl
      ]

start-IsSingle : (b : Background) → IsSingle b → IsSingle (start b)
unfolding start
start-IsSingle b (inl idle) =
    let stopped : is_running b.thread b.alive ≡ false = rw idle (is_running_idle b.thread) in
    rw (start, stopped) (inr (b.made, refl, rw idle refl))
start-IsSingle b (inr (n, at, one)) =
    let runs : is_running b.thread b.alive ≡ true = rw (at, one) (is_running_own n) in
    rw (start, runs) (inr (n, at, one))

check-IsSingle : (k : ℕ) (b : Background) → IsSingle b → IsSingle (check k b)
unfolding check
check-IsSingle k b single = elim (Bool-cases b.stop_event) [
  | inl told ↦ rw (check, told) (after_removal k b single)
  | inr goes_on ↦ rw (check, goes_on) single
]
  where
    after_removal :
        (k : ℕ) (b : Background) → IsSingle b → IsSingle (record b { alive = remove k b.alive })
    after_removal k b (inl idle) = inl (rw idle refl)
    after_removal k b (inr (n, at, one)) = elim (remove_from_one k n) [
      | inl gone ↦ inl (rw one gone)
      | inr there ↦ inr (n, at, rw one there)
    ]

stop_checker-IsSingle :
    (ended : Bool) (b : Background) → IsSingle b → IsSingle (stop_checker ended b)
unfolding stop_checker join
stop_checker-IsSingle ended b single = by_thread b.thread refl ended
  where
    by_thread :
        (thread : Option ℕ)
        → b.thread ≡ thread
        → (ended : Bool) → IsSingle (join ended thread (record b { stop_event = true }))
    by_thread none e ended = single
    by_thread (some n) e false = single
    by_thread (some n) e true = elim single [
      | inl idle ↦ inl (rw idle refl)
      | inr (k, at, one) ↦ elim (remove_from_one n k) [
        | inl gone ↦ inl (rw one gone)
        | inr there ↦ inr (k, at, rw one there)
      ]
    ]

stop_detector-IsSingle : (b : Background) → IsSingle b → IsSingle (stop_detector true b)
unfolding stop_detector join
stop_detector-IsSingle b single = inl (by_thread b.thread refl)
  where
    by_thread :
        (thread : Option ℕ)
        → b.thread ≡ thread
        → (join true thread (record b { stop_event = true })).alive ≡ []
    by_thread none e = elim single [ inl idle ↦ idle | inr (k, at, one) ↦ absurd (cc) ]
    by_thread (some n) e = elim single [
      | inl idle ↦ rw idle refl
      | inr (k, at, one) ↦ let same : n ≡ k = cc in rw (one, same) (remove_own k)
    ]

-- What can happen to the thread of a `HealthChecker`: a join may give up waiting.
pub data CheckerReach : Background → Type 0 where
  made : CheckerReach init
  started : {b : Background} → CheckerReach b → CheckerReach (start b)
  stopped : {b : Background} (ended : Bool) → CheckerReach b → CheckerReach (stop_checker ended b)
  checked : {b : Background} (k : ℕ) → CheckerReach b → CheckerReach (check k b)

-- What can happen to the thread of a `FailureDetector` whose joins wait for the thread to end.
pub data DetectorReach : Background → Type 0 where
  made : DetectorReach init
  started : {b : Background} → DetectorReach b → DetectorReach (start b)
  stopped : {b : Background} → DetectorReach b → DetectorReach (stop_detector true b)
  checked : {b : Background} (k : ℕ) → DetectorReach b → DetectorReach (check k b)

-- At most one loop of a `HealthChecker` runs, whenever it is started and stopped and whether or not
-- `stop` waits until the loop has ended: the thread that runs is the one that the checker holds.
pub CheckerReach-IsSingle : {b : Background} → CheckerReach b → IsSingle b
unfolding init
CheckerReach-IsSingle CheckerReach.made = inl refl
CheckerReach-IsSingle (CheckerReach.started {b} r) = start-IsSingle b (CheckerReach-IsSingle r)
CheckerReach-IsSingle (CheckerReach.stopped {b} ended r) =
    stop_checker-IsSingle ended b (CheckerReach-IsSingle r)
CheckerReach-IsSingle (CheckerReach.checked {b} k r) = check-IsSingle k b (CheckerReach-IsSingle r)

-- At most one loop of a `FailureDetector` runs, if `stop` always waits until the loop has ended.
pub DetectorReach-IsSingle : {b : Background} → DetectorReach b → IsSingle b
unfolding init
DetectorReach-IsSingle DetectorReach.made = inl refl
DetectorReach-IsSingle (DetectorReach.started {b} r) = start-IsSingle b (DetectorReach-IsSingle r)
DetectorReach-IsSingle (DetectorReach.stopped {b} r) =
    stop_detector-IsSingle b (DetectorReach-IsSingle r)
DetectorReach-IsSingle (DetectorReach.checked {b} k r) =
    check-IsSingle k b (DetectorReach-IsSingle r)

-- If a `FailureDetector` is stopped with a timeout that passes before its loop has ended, and is
-- started again, two loops run, and the first is no longer told to stop.
pub start-stop_detector :
    (b : Background) (n : ℕ)
    → b.thread ≡ some n
    → b.alive ≡ n ∷ []
    → ((start (stop_detector false b)).alive ≡ b.made ∷ n ∷ [])
      × ((start (stop_detector false b)).stop_event ≡ false)
unfolding start stop_detector join
start-stop_detector b n at one = rw (at, start, one) (refl, refl)
