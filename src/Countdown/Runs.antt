-- ===== src/Countdown/Runs.antt =====
-- Runs of the timer wheel.
use lin_socket_io.Base.{All, some, suc, ◌≤◌, ◌<◌, ◌≡◌, refl, ◌⊎◌, List, [], ◌∷◌, arith}
use lin_socket_io.Countdown.{
  Clock, Countdown, set_timeout, select_timeout, remove_timeout, click_elapse, timout_run,
  time_click, m_fall, countdown, click_falls, click_fall, fire_all, fire, sweep, visit, scan_falls,
  reset_elapsed, find_fall_idx, last_idx, no_idx,
}
use lin_socket_io.Countdown.Alarms.{armed, click_elapse-IsWheel}
use lin_socket_io.Countdown.Falls.{find_fall_idx_lem}
use lin_socket_io.Countdown.Invariant.{IsWheel}
use lin_socket_io.Countdown.Selected.{select_timeout-armed, set_timeout-IsWheel}
use lin_socket_io.Countdown.Timeline.{
  Call, select, run, calls, clock, countdown-IsWheel, IsSmall, calls-IsWheel,
}

-- three alarms, one of which is moved, and 12 ms
abbrev trace : List Call
trace = select 1 7 ∷ select 2 3 ∷ select 3 700 ∷ select 1 30 ∷ run 4 ∷ run 8 ∷ []

trace-IsSmall : All IsSmall trace
trace-IsSmall = ground arith

-- two alarms, one of which is moved, and 12 ms
abbrev moved : Countdown
moved = set_timeout (set_timeout (set_timeout countdown 1 7) 3 700) 1 30

abbrev wheel : Countdown
wheel = (click_elapse moved 12).wheel

wheel-IsWheel : IsWheel wheel
wheel-IsWheel =
    let first = (set_timeout-IsWheel countdown 1 7 countdown-IsWheel).0 in
    let second = (set_timeout-IsWheel (set_timeout countdown 1 7) 3 700 first).0 in
    click_elapse-IsWheel moved 12
      (set_timeout-IsWheel (set_timeout (set_timeout countdown 1 7) 3 700) 1 30 second).0
      (omega arith)

abbrev pending_wheel : Clock
pending_wheel = record { wheel = wheel; pending = 3 }

-- Timers of 7, 3 and 700 ms: the first two fire after 8 ms.
fires_after_8 :
    (timout_run
      (record {
        wheel = set_timeout (set_timeout (set_timeout countdown 1 7) 2 3) 3 700;
        pending = 0;
      })
      8).1
    ≡ 2 ∷ 1 ∷ []
unfolding countdown timout_run click_elapse click_falls click_fall fire_all fire sweep visit
    find_fall_idx scan_falls set_timeout reset_elapsed
fires_after_8 = refl

select_timeout-armed_example :
    (d : Countdown) × (select_timeout wheel 1 9 ≡ some d)
    × (armed d 1 9 ≡ 1)
    × (armed (remove_timeout wheel 1) 1 9 ≡ 0)
select_timeout-armed_example = select_timeout-armed wheel 1 9 1 9 wheel-IsWheel (omega arith)

calls-IsWheel_example :
    (k : Clock) × (calls (some clock) trace ≡ some k) × IsWheel k.wheel × (k.pending < time_click)
calls-IsWheel_example = calls-IsWheel trace trace-IsSmall

find_fall_idx_lem_example :
    (find_fall_idx 700 no_idx ≤ no_idx)
    × (find_fall_idx 700 no_idx ≤ last_idx)
    × (m_fall (find_fall_idx 700 no_idx) ≤ 700)
    × ((find_fall_idx 700 no_idx ≡ last_idx) ⊎ (700 < m_fall (suc (find_fall_idx 700 no_idx))))
find_fall_idx_lem_example = find_fall_idx_lem 700 no_idx
