-- ===== src/Monitoring/Tests/Threads.antt =====
-- A checker and a detector that are started, stopped and started again.
use distributed_tickit_syste.Common.{◌≡◌, refl, false, [], ◌∷◌}
use distributed_tickit_syste.Monitoring.Background.{init, start, stop_checker, stop_detector, check}
use distributed_tickit_syste.Monitoring.Background.Single.{
  IsSingle, CheckerReach, CheckerReach-IsSingle, start-stop_detector,
}

-- The join gives up waiting, and the loop ends later.
CheckerReach-IsSingle_example : IsSingle (start (check 0 (stop_checker false (start init))))
CheckerReach-IsSingle_example = CheckerReach-IsSingle (
    CheckerReach.started (
      CheckerReach.checked 0 (CheckerReach.stopped false (CheckerReach.started CheckerReach.made))))

start-stop_detector_example :
    ((start (stop_detector false (start init))).alive ≡ 1 ∷ 0 ∷ [])
    × ((start (stop_detector false (start init))).stop_event ≡ false)
unfolding start init
start-stop_detector_example = start-stop_detector (start init) 0 refl refl
