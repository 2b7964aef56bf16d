-- ===== src/Countdown/Alarms.antt =====
-- The wheel of core/countdown.cpp seen as alarms: a handler and the time it has left. The order and
-- the falls are forgotten.
use lin_socket_io.Base.{
  ℕ, ◌+◌, ◌≤◌, ◌<◌, ◌≡◌, refl, sym, ap, ◌∙◌, subst, ◌≢◌, Bool, false, ◌&&◌, List, [], arith, leb,
  ◌==◌, if◌then◌else◌, All, All-map,
}
use lin_socket_io.Countdown.{
  put, Fall, Click, Countdown, m_fall, fire_all, click_falls, click_elapse, set_fall, time_click,
  falls_size, last_idx,
}
use lin_socket_io.Countdown.Elapse.{
  after, potential, term, fire_all_lem, fire_all-falls, click_falls_lem,
}
use lin_socket_io.Countdown.Invariant.{Fits, TimersFit, IsWheel, TimersFit-put, is_handler}
use lin_socket_io.Countdown.Kept.{
  Reset, click_falls_fit, click_falls_spent, click_falls-Reset, fire_all-Reset, set_fall-Reset,
}
use lin_socket_io.Countdown.Weights.{
  weigh_pointwise, tally_congr, weigh, weigh_all, tally, sum_below, sum_below_congr, put_other,
  sum_below_replace,
}
use native.Mathlib.Decide.{ℕ_discrete}

-- A handler is registered after the click if it was and has not fired.
settled :
    (left fired : ℕ) (before now : Bool)
    → left + fired ≡ (if before then 1 else 0)
    → (fired ≡ 0 → now ≡ before)
    → (0 < fired → now ≡ false)
    → left ≡ (if now then 1 else 0)
settled left fired before now sum others reset = elim (ℕ_discrete fired 0) [
  | yes z ↦ ground (arith, others z)
  | no nz ↦ ground (arith, reset (omega arith))
]

module _ (c : Countdown) (e : ℕ) (wheel : IsWheel c) where
  abbrev fired : Click
  fired = fire_all (record { wheel = c; result = [] }) (c.falls 0).timers

  abbrev emptied : Fall
  emptied = record (c.falls 0) { timers = [] }

  abbrev opened : Click
  opened = set_fall fired 0 emptied

  opened_falls : opened.wheel.falls ≡ put c.falls 0 emptied
  opened_falls =
      ap (λ f. put f 0 emptied)
        (fire_all-falls (record { wheel = c; result = [] }) (c.falls 0).timers)

  opened_fit : TimersFit opened.wheel.falls
  opened_fit =
      subst TimersFit (sym opened_falls) (TimersFit-put c.falls 0 emptied wheel.timers_fit tt)

  click_elapse_eq : click_elapse c e ≡ click_falls e opened last_idx
  unfolding click_elapse fire_all
  click_elapse_eq = refl

  module _ (w : ℕ → ℕ → ℕ) (v : ℕ → ℕ) (tick : time_click ≤ e) where
    start : potential w v e 0 falls_size opened ≡ weigh (after w v e) c.falls
    start = omega (
      arith,
      ap total opened_falls,
      sum_below_replace falls_size 0 (λ j. term w v e 0 falls_size j (put c.falls 0 emptied j))
          (λ j. tally (after w v e) (c.falls j).elapsed (c.falls j).timers) (omega arith) same,
      fire_all_lem w v (record { wheel = c; result = [] }) (c.falls 0).timers (c.falls 0).elapsed e
          soon,
    )
      where
        total : (ℕ → Fall) → ℕ
        total falls = sum_below falls_size (λ j. term w v e 0 falls_size j (falls j))

        same :
            (j : ℕ)
            → j < falls_size
            → j ≢ 0
            → term w v e 0 falls_size j (put c.falls 0 emptied j)
              ≡ tally (after w v e) (c.falls j).elapsed (c.falls j).timers
        same j lt ne =
            ap (term w v e 0 falls_size j) (put_other c.falls 0 j emptied ne)
            ∙ tally_congr (if leb j 0 then w else after w v e) (after w v e)
                (if j == falls_size then 0 else (c.falls j).elapsed) (c.falls j).elapsed
                (c.falls j).timers (ground arith) (ground arith)

        soon : All (λ t. t.count ≤ (c.falls 0).elapsed + e) (c.falls 0).timers
        soon =
            All-map (Fits 0) (λ t. t.count ≤ (c.falls 0).elapsed + e) (c.falls 0).timers
              (λ t fits. omega (arith, fits.2 refl)) (wheel.timers_fit 0)

    end :
        (s : Click)
        → potential w v e last_idx falls_size s ≡ weigh w s.wheel.falls + weigh_all v s.result
    end s =
        ap (λ k. k + weigh_all v s.result)
          (sum_below_congr falls_size (λ j. term w v e last_idx falls_size j (s.wheel.falls j))
            (λ j. tally w (s.wheel.falls j).elapsed (s.wheel.falls j).timers) same)
      where
        same :
            (j : ℕ)
            → j < falls_size
            → term w v e last_idx falls_size j (s.wheel.falls j)
              ≡ tally w (s.wheel.falls j).elapsed (s.wheel.falls j).timers
        same j lt =
            tally_congr (if leb j last_idx then w else after w v e) w
              (if j == falls_size then 0 else (s.wheel.falls j).elapsed) (s.wheel.falls j).elapsed
              (s.wheel.falls j).timers (ground arith) (ground arith)

    click_elapse-weigh :
        weigh (after w v e) c.falls
        ≡ weigh w (click_elapse c e).wheel.falls + weigh_all v (click_elapse c e).result
    click_elapse-weigh =
        sym start
        ∙ sym (
            click_falls_lem w v e last_idx opened (omega arith) (λ i.
              All-map (Fits i) (λ t. m_fall i ≤ t.count) (opened.wheel.falls i).timers
                (λ t fits. fits.1) (opened_fit i)))
        ∙ end (click_falls e opened last_idx)
        ∙ ap (λ s. weigh w s.wheel.falls + weigh_all v s.result) (sym click_elapse_eq)

  -- Time that passes keeps the invariant.
  pub click_elapse-IsWheel : time_click ≤ e → IsWheel (click_elapse c e).wheel
  click_elapse-IsWheel tick =
      subst (λ s. IsWheel s.wheel) (sym click_elapse_eq)
        (record {
          timers_fit = kept.1;
          bottom = kept.0;
          spent_below =
              λ i pos lt. click_falls_spent e last_idx opened i pos (omega arith) (omega arith);
          single = λ h.
              settled (weigh (λ g r. is_handler h g) (click_falls e opened last_idx).wheel.falls)
                (weigh_all (is_handler h) (click_falls e opened last_idx).result) (c.registered h)
                ((click_falls e opened last_idx).wheel.registered h)
                (sym (balance h) ∙ wheel.single h) (reset.others h) (reset.fired h);
        })
    where
      kept :
          ((click_falls e opened last_idx).wheel.falls 0).elapsed ≡ 0
          × TimersFit (click_falls e opened last_idx).wheel.falls
      kept = click_falls_fit e last_idx opened (omega arith) wheel.bottom opened_fit

      balance :
          (h : ℕ)
          → weigh (λ g r. is_handler h g) c.falls
            ≡ weigh (λ g r. is_handler h g) (click_falls e opened last_idx).wheel.falls
              + weigh_all (is_handler h) (click_falls e opened last_idx).result
      balance h =
          weigh_pointwise (λ g r. is_handler h g) (after (λ g r. is_handler h g) (is_handler h) e)
            c.falls (λ g r. ground arith)
          ∙ click_elapse-weigh (λ g r. is_handler h g) (is_handler h) tick
          ∙ ap
              (λ s. weigh (λ g r. is_handler h g) s.wheel.falls + weigh_all (is_handler h) s.result)
              click_elapse_eq

      reset : Reset c.registered (click_falls e opened last_idx)
      reset = click_falls-Reset c.registered e last_idx opened (
          set_fall-Reset c.registered fired 0 emptied (
            fire_all-Reset c.registered (record { wheel = c; result = [] }) (c.falls 0).timers
              (record { others = λ h _. refl; fired = λ h some. absurd (omega (arith, some)) })))

-- how many timers of the handler `h` have the time `r` left
unfoldable pub armed : Countdown → ℕ → ℕ → ℕ
armed c h r = weigh (λ g x. if g == h && x == r then 1 else 0) c.falls

-- how many timers of the handler `h` have at most the time `e` left
pub due_within : Countdown → ℕ → ℕ → ℕ
due_within c e h = weigh (λ g x. if g == h && leb x e then 1 else 0) c.falls

-- how often the handler `h` stands in a list
unfoldable pub occurrences : ℕ → List ℕ → ℕ
occurrences h hs = weigh_all (is_handler h) hs
