-- ===== src/Countdown/Selected.antt =====
-- select_timeout of core/countdown.cpp: what it promises, and that it keeps the invariant.
use lin_socket_io.Base.{
  ltb, some, zero, ◌≤◌, ◌^◌, ◌*◌, all_below, all_below_sound, leb, if_either, ℕ, suc, ◌+◌, ◌<◌, ◌≡◌,
  refl, sym, ap, ◌∙◌, subst, ◌⊎◌, inl, inr, true, false, ◌&&◌, arith, ◌==◌, if◌then◌else◌,
  Bool-cases,
}
use native.Mathlib.Decide.{ℕ_discrete}
use lin_socket_io.Countdown.{
  Countdown, select_timeout, falls_size, erase_at, remove_timeout, move_timeout, set_timeout,
  find_fall_idx, no_idx, pos_fallidx, m_fall, last_idx, time_click,
}
use lin_socket_io.Countdown.Alarms.{armed}
use lin_socket_io.Countdown.Falls.{find_fall_idx_lem}
use lin_socket_io.Countdown.Invariant.{Fits, TimersFit, IsWheel, TimersFit-put, is_handler}
use lin_socket_io.Countdown.Kept.{TimersFit-insert_timer}
use lin_socket_io.Countdown.Place.{without, All-erase_timer, All-set_count}
use lin_socket_io.Countdown.Select.{
  remove_timeout-weigh, set_timeout-weigh, move_timeout_same, move_timeout_other, erase_at_elapsed,
}
use lin_socket_io.Countdown.Weights.{weigh, weigh_pointwise, weigh_zero}

set_timeout-armed :
    (c : Countdown) (h timeout g r : ℕ)
    → IsWheel c
    → (armed (set_timeout c h timeout) g r
        ≡ (if g == h then (if r == timeout then 1 else 0) else armed c g r))
      × (armed (remove_timeout c h) g r ≡ (if g == h then 0 else armed c g r))
unfolding armed
set_timeout-armed c h timeout g r wheel = elim (ℕ_discrete g h) [
  | yes e ↦
      let none_left = weigh_zero (without h alarm) c.falls (λ a x. ground arith) in
      (
        ground (arith, set_timeout-weigh c h wheel timeout alarm, none_left),
        ground (arith, remove_timeout-weigh c h wheel alarm, none_left),
      )
  | no ne ↦
      let same = weigh_pointwise (without h alarm) alarm c.falls (λ a x. ground arith) in
      (
        ground (arith, set_timeout-weigh c h wheel timeout alarm, same),
        ground (arith, remove_timeout-weigh c h wheel alarm, same),
      )
]
  where
    alarm : ℕ → ℕ → ℕ
    alarm a x = if a == g && x == r then 1 else 0

-- A new timer fits the fall that find_fall_idx gives.
new_timer-Fits :
    (c : Countdown) (h timeout : ℕ)
    → IsWheel c
    → Fits (find_fall_idx timeout no_idx) (record {
      fallidx = find_fall_idx timeout no_idx;
      handler = h;
      count = timeout + (c.falls (find_fall_idx timeout no_idx)).elapsed;
    })
new_timer-Fits c h timeout wheel =
    let (_, _, time, next) = find_fall_idx_lem timeout no_idx in
    (refl, omega (arith, time), soon (find_fall_idx timeout no_idx) next)
  where
    soon :
        (k : ℕ)
        → (k ≡ last_idx) ⊎ (timeout < m_fall (suc k))
        → k ≡ 0
        → timeout + (c.falls k).elapsed < time_click
    soon k (inl e) z = absurd (omega (arith, e))
    soon k (inr lt) z = omega (
      arith,
      subst (λ j. timeout < m_fall (suc j)) z lt,
      ap (λ j. (c.falls j).elapsed) z,
      wheel.bottom,
    )

erase_at_fit : (c : Countdown) (i h : ℕ) → TimersFit c.falls → TimersFit (erase_at c.falls i h)
unfolding erase_at
erase_at_fit c i h fit =
    TimersFit-put c.falls i _ fit (All-erase_timer (Fits i) (c.falls i).timers h (fit i))

-- A wheel with other timers and flags, and the same elapsed times.
IsWheel-change :
    (c d : Countdown)
    → IsWheel c
    → TimersFit d.falls
    → ((i : ℕ) → (d.falls i).elapsed ≡ (c.falls i).elapsed)
    → ((h : ℕ) → weigh (λ g r. is_handler h g) d.falls ≡ (if d.registered h then 1 else 0))
    → IsWheel d
IsWheel-change c d wheel fit same one = record {
  timers_fit = fit;
  bottom = same 0 ∙ wheel.bottom;
  spent_below = λ i pos lt. omega (arith, same i, wheel.spent_below i pos lt);
  single = one;
}

-- What a call changes besides the alarms: the timers fit, and the elapsed times are the same.
pub record Fit (c d : Countdown) : Type 0 where
  pub fit : TimersFit d.falls
  pub same : (i : ℕ) → (d.falls i).elapsed ≡ (c.falls i).elapsed

remove_timeout-Fit : (c : Countdown) (h : ℕ) → IsWheel c → Fit c (remove_timeout c h)
unfolding remove_timeout
remove_timeout-Fit c h wheel = elim (Bool-cases (c.registered h)) [
  | inl is ↦ rw is (record {
    fit = erase_at_fit c (pos_fallidx c h) h wheel.timers_fit;
    same = λ i. erase_at_elapsed c h wheel (pos_fallidx c h) i;
  })
  | inr is ↦ rw is (record { fit = wheel.timers_fit; same = λ i. refl })
]

move_timeout-Fit :
    (c : Countdown) (h k count : ℕ)
    → IsWheel c
    → Fits k (record { fallidx = k; handler = h; count = count })
    → Fit c (move_timeout c h k count)
move_timeout-Fit c h k count wheel new = elim (ℕ_discrete (pos_fallidx c h) k) [
  | yes at ↦ subst (Fit c) (sym (move_timeout_same c h wheel k count at)) (record {
    fit = TimersFit-put c.falls k _ wheel.timers_fit (
        All-set_count (Fits k) (c.falls k).timers h count (λ t fits. (fits.0, new.1, new.2))
          (wheel.timers_fit k));
    same = λ i. ground arith;
  })
  | no ne ↦
      subst (Fit c)
        (sym (move_timeout_other c h wheel (pos_fallidx c h) k count refl (λ e. ne (sym e))))
        (record {
          fit =
              TimersFit-insert_timer (erase_at c.falls (pos_fallidx c h) h) k _
                (erase_at_fit c (pos_fallidx c h) h wheel.timers_fit) new;
          same = λ i. ground (arith, erase_at_elapsed c h wheel (pos_fallidx c h) i);
        })
]

set_timeout-Fit : (c : Countdown) (h timeout : ℕ) → IsWheel c → Fit c (set_timeout c h timeout)
unfolding set_timeout
set_timeout-Fit c h timeout wheel = elim (Bool-cases (c.registered h)) [
  | inl is ↦ rw is (move_timeout-Fit c h _ _ wheel (new_timer-Fits c h timeout wheel))
  | inr is ↦ rw is (record {
    fit =
        TimersFit-insert_timer c.falls (find_fall_idx timeout no_idx) _ wheel.timers_fit
          (new_timer-Fits c h timeout wheel);
    same = λ i. ground arith;
  })
]

-- The iterators that a call sets.
remove_timeout_registered :
    (c : Countdown) (h g : ℕ)
    → (remove_timeout c h).registered g ≡ (if g == h then false else c.registered g)
unfolding remove_timeout
remove_timeout_registered c h g = ground arith

set_timeout_registered :
    (c : Countdown) (h timeout g : ℕ)
    → (set_timeout c h timeout).registered g ≡ (if g == h then true else c.registered g)
unfolding set_timeout move_timeout
set_timeout_registered c h timeout g = ground arith

-- Both forms of set_timeout keep the invariant.
pub set_timeout-IsWheel :
    (c : Countdown) (h timeout : ℕ)
    → IsWheel c
    → IsWheel (set_timeout c h timeout) × IsWheel (remove_timeout c h)
set_timeout-IsWheel c h timeout wheel =
    let f = set_timeout-Fit c h timeout wheel in
    let f' = remove_timeout-Fit c h wheel in
    (
      IsWheel-change c (set_timeout c h timeout) wheel f.fit f.same (λ g. ground (
        arith,
        set_timeout-weigh c h wheel timeout (λ a r. is_handler g a),
        wheel.single g,
        set_timeout_registered c h timeout g,
        left g,
      )),
      IsWheel-change c (remove_timeout c h) wheel f'.fit f'.same (λ g. ground (
        arith,
        remove_timeout-weigh c h wheel (λ a r. is_handler g a),
        wheel.single g,
        remove_timeout_registered c h g,
        left g,
      )),
    )
  where
    left :
        (g : ℕ)
        → weigh (without h (λ a r. is_handler g a)) c.falls
          ≡ (if g == h then 0 else weigh (λ a r. is_handler g a) c.falls)
    left g = elim (ℕ_discrete g h) [
      | yes e ↦
          ground
            (arith, weigh_zero (without h (λ a r. is_handler g a)) c.falls (λ a x. ground arith))
      | no ne ↦ ground (
        arith,
        weigh_pointwise (without h (λ a r. is_handler g a)) (λ a r. is_handler g a) c.falls
            (λ a x. ground arith),
      )
    ]

m_fall_small : (i : ℕ) → i < falls_size → m_fall i ≤ time_click * 2048
unfolding all_below
m_fall_small i lt =
    ground (arith, all_below_sound falls_size (λ j. leb (m_fall j) (time_click * 2048)) i refl lt)

-- The elapsed time of a fall is at most that of the highest one, so that the sum is an `int`.
pub select_timeout_small :
    (c : Countdown) (h timeout : ℕ)
    → IsWheel c
    → timeout + time_click * 2048 < 2 ^ 31
    → select_timeout c h timeout ≡ some (set_timeout c h timeout)
unfolding select_timeout
select_timeout_small c h timeout wheel small =
    let k = find_fall_idx timeout no_idx in
    let (_, last, _, _) = find_fall_idx_lem timeout no_idx in
    let high = m_fall_small k (omega arith) in
    let below : (c.falls k).elapsed ≤ time_click * 2048 = spent k (omega arith) in
    if_either (λ o. o ≡ some (set_timeout c h timeout))
      (ltb (timeout + (c.falls k).elapsed) (2 ^ 31)) _ _ (λ _. refl)
      (λ large. ground (arith, large))
  where
    spent : (k : ℕ) → k < falls_size → (c.falls k).elapsed ≤ time_click * 2048
    spent zero lt = omega (arith, wheel.bottom)
    spent (suc k) lt =
        omega (arith, wheel.spent_below (suc k) (omega arith) lt, m_fall_small (suc k) lt)

-- On a wheel with the invariant, select_timeout(h, t) where t + 10240 is below 2^31,
-- leaves the handler one alarm, in t, and select_timeout(h) with a negative time leaves it none. The
-- alarms of the other handlers stay.
pub select_timeout-armed :
    (c : Countdown) (h timeout g r : ℕ)
    → IsWheel c
    → timeout + time_click * 2048 < 2 ^ 31
    → (d : Countdown) × (select_timeout c h timeout ≡ some d)
      × (armed d g r ≡ (if g == h then (if r == timeout then 1 else 0) else armed c g r))
      × (armed (remove_timeout c h) g r ≡ (if g == h then 0 else armed c g r))
select_timeout-armed c h timeout g r wheel small =
    let (set, gone) = set_timeout-armed c h timeout g r wheel in
    (set_timeout c h timeout, select_timeout_small c h timeout wheel small, set, gone)
