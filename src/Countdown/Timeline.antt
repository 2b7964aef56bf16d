-- ===== src/Countdown/Timeline.antt =====
-- The wheel of core/countdown.cpp behind a Selector, from its construction on.
use mathlib.Core.Option.{map}
use lin_socket_io.Base.{
  ap, ◌^◌, ◌*◌, All, Option, none, some, ℕ, ◌+◌, ◌≤◌, ◌<◌, ◌≡◌, refl, ◌∙◌, ◌⊎◌, inl, inr, List, [],
  ◌∷◌, arith, ltb, ltb→lt, Bool-cases,
}
use lin_socket_io.Countdown.{
  Clock, countdown, set_timeout, select_timeout, remove_timeout, click_elapse, timout_run,
  time_click,
}
use lin_socket_io.Countdown.Alarms.{click_elapse-IsWheel}
use lin_socket_io.Countdown.Kept.{m_fall_pos}
use lin_socket_io.Countdown.Invariant.{IsWheel}
use lin_socket_io.Countdown.Selected.{set_timeout-IsWheel, select_timeout_small}
use lin_socket_io.Countdown.Weights.{sum_below}

-- a call of a Selector that concerns its timers
pub data Call : Type 0 where
  select : (h timeout : ℕ) → Call
  unselect : (h : ℕ) → Call
  run : (elapsed : ℕ) → Call

-- `none`: a sum overflows in select_timeout
pub call : Clock → Call → Option Clock
call k (select h timeout) = map (λ w. record k { wheel = w }) (select_timeout k.wheel h timeout)
call k (unselect h) = some (record k { wheel = remove_timeout k.wheel h })
call k (run elapsed) = some (timout_run k elapsed).0

pub calls : Option Clock → List Call → Option Clock
calls k [] = k
calls none (a ∷ trace) = none
calls (some k) (a ∷ trace) = calls (call k a) trace

-- The sums of the call with the times of the wheel are an `int`.
abbrev pub IsSmall : Call → Type 0
IsSmall (select h timeout) = timeout + time_click * 2048 < 2 ^ 31
IsSmall (unselect h) = Unit
IsSmall (run elapsed) = elapsed + time_click * 2049 < 2 ^ 31

-- Selector()
pub clock : Clock
clock = record { wheel = countdown; pending = 0 }

pub countdown-IsWheel : IsWheel countdown
unfolding countdown sum_below
countdown-IsWheel = record {
  timers_fit = λ i. tt;
  bottom = refl;
  spent_below = λ i pos lt. m_fall_pos i pos lt;
  single = λ h. refl;
}

timout_run_cases :
    (k : Clock) (elapsed : ℕ)
    → ((k.pending + elapsed < time_click)
        × (timout_run k elapsed ≡ (record k { pending = k.pending + elapsed }, [])))
      ⊎ ((time_click ≤ k.pending + elapsed)
          × (timout_run k elapsed ≡ (
            record { wheel = (click_elapse k.wheel (k.pending + elapsed)).wheel; pending = 0 },
            (click_elapse k.wheel (k.pending + elapsed)).result,
          )))
unfolding timout_run
timout_run_cases k elapsed = elim (Bool-cases (ltb (k.pending + elapsed) time_click)) [
  | inl early ↦ inl (ltb→lt (k.pending + elapsed) time_click early, rw early refl)
  | inr due ↦ inr (ground (arith, due), rw due refl)
]

-- What holds between calls.
abbrev pub Holds : Clock → Type 0
Holds k = IsWheel k.wheel × (k.pending < time_click)

call-IsWheel :
    (k : Clock) (a : Call)
    → IsSmall a
    → Holds k
    → (j : Clock) × (call k a ≡ some j) × IsWheel j.wheel × (j.pending < time_click)
unfolding call
call-IsWheel k (select h timeout) small (wheel, lt) = (
  record k { wheel = set_timeout k.wheel h timeout },
  ap (map (λ w. record k { wheel = w })) (select_timeout_small k.wheel h timeout wheel small),
  (set_timeout-IsWheel k.wheel h timeout wheel).0,
  lt,
)
call-IsWheel k (unselect h) small (wheel, lt) =
    (_, refl, (set_timeout-IsWheel k.wheel h 0 wheel).1, lt)
call-IsWheel k (run e) small (wheel, lt) = (_, refl, run_holds.0, run_holds.1)
  where
    run_holds : Holds (timout_run k e).0
    run_holds = elim (timout_run_cases k e) [
      | inl (early, is) ↦ rw is (wheel, early)
      | inr (due, is) ↦ rw is (click_elapse-IsWheel k.wheel (k.pending + e) wheel due, omega arith)
    ]

calls_keep :
    (trace : List Call) (k : Clock)
    → All IsSmall trace
    → Holds k
    → (j : Clock) × (calls (some k) trace ≡ some j) × IsWheel j.wheel × (j.pending < time_click)
unfolding calls
calls_keep [] k small holds = (k, refl, holds.0, holds.1)
calls_keep (a ∷ trace) k (one, small) holds =
    let (j, e, wheel, lt) = call-IsWheel k a one holds in
    let (l, e', wheel', lt') = calls_keep trace j small (wheel, lt) in
    (l, ap (λ o. calls o trace) e ∙ e', wheel', lt')

-- Whatever calls a new selector has seen, where a timeout and 10240, and a time that has passed and 10245,
-- come to less than 2^31, no count of select_timeout overflows, and: each timer stands in the fall that it names, whose time its count is at least;
-- the elapsed time of a fall is less than its time; a handler has one timer if its iterator is set and
-- none if not; and less than 5 ms are pending.
pub calls-IsWheel :
    (trace : List Call)
    → All IsSmall trace
    → (k : Clock) × (calls (some clock) trace ≡ some k) × IsWheel k.wheel × (k.pending < time_click)
unfolding clock
calls-IsWheel trace small = calls_keep trace clock small (countdown-IsWheel, omega arith)
