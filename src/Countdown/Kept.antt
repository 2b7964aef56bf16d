-- ===== src/Countdown/Kept.antt =====
-- click_elapse of core/countdown.cpp keeps the invariant of the wheel.
use native.Mathlib.Decide.{ℕ_discrete}
use lin_socket_io.Base.{
  ℕ, zero, suc, ◌+◌, ◌-◌, ◌≤◌, ◌<◌, ◌≡◌, refl, sym, ap, ◌∙◌, subst, ◌⊎◌, inl, inr, Bool, true,
  false, List, [], ◌∷◌, arith, ltb, leb, ◌==◌, if◌then◌else◌, Bool-cases, All, All-append,
  all_below, all_below_sound,
}
use lin_socket_io.Countdown.{
  Timeout, Fall, Click, m_fall, find_fall_idx, put, fire, fire_all, visit, sweep, click_fall,
  click_falls, insert_timer, set_fall, reset_elapsed, time_click, falls_size, last_idx,
}
use lin_socket_io.Countdown.Falls.{find_fall_idx_lem}
use lin_socket_io.Countdown.Invariant.{Fits, TimersFit, TimersFit-put, is_handler}
use lin_socket_io.Countdown.Steps.{
  click_fall_early, click_fall_due, sweep_elapsed, click_fall_elapsed,
}
use lin_socket_io.Countdown.Weights.{weigh_all-append, weigh_all}

-- A timer that fits at the end of a fall.
pub TimersFit-insert_timer :
    (falls : ℕ → Fall) (k : ℕ) (t : Timeout)
    → TimersFit falls
    → Fits k t
    → TimersFit (put falls k (insert_timer (falls k) t))
TimersFit-insert_timer falls k t fit one =
    TimersFit-put falls k (insert_timer (falls k) t) fit
      (All-append (Fits k) (falls k).timers (t ∷ []) (fit k) (one, tt))

-- What is put in the bottom fall has less time left than a click.
bottom_soon :
    (falls : ℕ → Fall) (n idx r : ℕ)
    → 0 < idx
    → idx ≤ last_idx
    → (falls 0).elapsed ≡ 0
    → (n ≡ (if ltb last_idx idx then last_idx else idx)) ⊎ (r < m_fall (suc n))
    → n ≡ 0
    → r + (falls n).elapsed < time_click
bottom_soon falls n idx r pos le bottom (inl start) z = absurd (ground (arith, start))
bottom_soon falls n idx r pos le bottom (inr early) z =
    omega (arith, subst (λ k. r < m_fall (suc k)) z early, ap (λ k. (falls k).elapsed) z, bottom)

visit_fit :
    (idx spent : ℕ) (s : Click) (t : Timeout)
    → 0 < idx
    → idx ≤ last_idx
    → (s.wheel.falls 0).elapsed ≡ 0
    → TimersFit s.wheel.falls
    → Fits idx t
    → TimersFit (visit idx spent s t).wheel.falls
unfolding visit fire
visit_fit idx spent s t pos le bottom fit (at, long, _) = elim (Bool-cases (leb t.count spent)) [
  | inl fires ↦ rw fires fit
  | inr stays ↦
      let (found, _, time, next) = find_fall_idx_lem (t.count - spent) idx in
      elim (Bool-cases (newidx == idx)) [
        | inl same ↦
            rw (stays, same)
              (TimersFit-insert_timer s.wheel.falls newidx (record t { count = t.count - spent })
                fit (ground (arith, same), time, λ z. absurd (ground (arith, same))))
        | inr other ↦
            rw (stays, other)
              (TimersFit-insert_timer s.wheel.falls newidx
                (record t {
                  count = t.count - spent + (s.wheel.falls newidx).elapsed;
                  fallidx = newidx;
                })
                fit
                (
                  refl,
                  omega (arith, time),
                  bottom_soon s.wheel.falls newidx idx (t.count - spent) pos le bottom next,
                ))
      ]
]
  where
    newidx : ℕ
    newidx = find_fall_idx (t.count - spent) idx

sweep_fit :
    (idx spent : ℕ) (s : Click) (ts : List Timeout)
    → 0 < idx
    → idx ≤ last_idx
    → (s.wheel.falls 0).elapsed ≡ 0
    → TimersFit s.wheel.falls
    → All (Fits idx) ts
    → TimersFit (sweep idx spent s ts).wheel.falls
unfolding sweep
sweep_fit idx spent s [] pos le bottom fit fits = fit
sweep_fit idx spent s (t ∷ ts) pos le bottom fit (first, fits) =
    sweep_fit idx spent (visit idx spent s t) ts pos le
      (sweep_elapsed idx spent 0 s (t ∷ []) ∙ bottom)
      (visit_fit idx spent s t pos le bottom fit first) fits

click_fall_fit :
    (e idx : ℕ) (s : Click)
    → 0 < idx
    → idx ≤ last_idx
    → (s.wheel.falls 0).elapsed ≡ 0
    → TimersFit s.wheel.falls
    → TimersFit (click_fall e s idx).wheel.falls
unfolding reset_elapsed
click_fall_fit e idx s pos le bottom fit =
    elim (Bool-cases (ltb ((s.wheel.falls idx).elapsed + e) (m_fall idx))) [
      | inl early ↦
          subst (λ t. TimersFit t.wheel.falls) (sym (click_fall_early e idx s early))
            (TimersFit-put s.wheel.falls idx _ fit (fit idx))
      | inr due ↦
          subst (λ t. TimersFit t.wheel.falls) (sym (click_fall_due e idx s due))
            (TimersFit-put swept.wheel.falls idx (record (swept.wheel.falls idx) { elapsed = 0 })
              swept_fit (swept_fit idx))
    ]
  where
    opened : Click
    opened = set_fall s idx (record { elapsed = (s.wheel.falls idx).elapsed + e; timers = [] })

    swept : Click
    swept = sweep idx ((s.wheel.falls idx).elapsed + e) opened (s.wheel.falls idx).timers

    swept_fit : TimersFit swept.wheel.falls
    swept_fit =
        sweep_fit idx ((s.wheel.falls idx).elapsed + e) opened (s.wheel.falls idx).timers pos le
          (ground arith) (TimersFit-put s.wheel.falls idx _ fit tt) (fit idx)

-- What click_elapse has changed besides the falls: exactly the handlers in `result` are not
-- registered any more.
pub record Reset (before : ℕ → Bool) (s : Click) : Type 0 where
  pub others : (h : ℕ) → weigh_all (is_handler h) s.result ≡ 0 → s.wheel.registered h ≡ before h
  pub fired : (h : ℕ) → 0 < weigh_all (is_handler h) s.result → s.wheel.registered h ≡ false

fire-Reset : (before : ℕ → Bool) (s : Click) (g : ℕ) → Reset before s → Reset before (fire s g)
unfolding fire
fire-Reset before s g r = record {
  others = λ h none_fired.
      ground (arith, weigh_all-append (is_handler h) s.result (g ∷ []), r.others h, none_fired);
  fired = λ h some_fired.
      ground (arith, weigh_all-append (is_handler h) s.result (g ∷ []), r.fired h, some_fired);
}

pub fire_all-Reset :
    (before : ℕ → Bool) (s : Click) (ts : List Timeout)
    → Reset before s
    → Reset before (fire_all s ts)
unfolding fire_all
fire_all-Reset before s [] r = r
fire_all-Reset before s (t ∷ ts) r =
    fire_all-Reset before (fire s t.handler) ts (fire-Reset before s t.handler r)

pub set_fall-Reset :
    (before : ℕ → Bool) (s : Click) (i : ℕ) (f : Fall)
    → Reset before s
    → Reset before (set_fall s i f)
set_fall-Reset before s i f r = record { others = r.others; fired = r.fired }

visit-Reset :
    (before : ℕ → Bool) (idx spent : ℕ) (s : Click) (t : Timeout)
    → Reset before s
    → Reset before (visit idx spent s t)
unfolding visit
visit-Reset before idx spent s t r = elim (Bool-cases (leb t.count spent)) [
  | inl fires ↦ rw fires (fire-Reset before s t.handler r)
  | inr stays ↦ elim (Bool-cases (find_fall_idx (t.count - spent) idx == idx)) [
    | inl same ↦ rw (stays, same) (set_fall-Reset before s _ _ r)
    | inr other ↦ rw (stays, other) (set_fall-Reset before s _ _ r)
  ]
]

sweep-Reset :
    (before : ℕ → Bool) (idx spent : ℕ) (s : Click) (ts : List Timeout)
    → Reset before s
    → Reset before (sweep idx spent s ts)
unfolding sweep
sweep-Reset before idx spent s [] r = r
sweep-Reset before idx spent s (t ∷ ts) r =
    sweep-Reset before idx spent (visit idx spent s t) ts (visit-Reset before idx spent s t r)

click_fall-Reset :
    (before : ℕ → Bool) (e idx : ℕ) (s : Click) → Reset before s → Reset before (click_fall e s idx)
unfolding click_fall reset_elapsed
click_fall-Reset before e idx s r =
    elim (Bool-cases (ltb ((s.wheel.falls idx).elapsed + e) (m_fall idx))) [
      | inl early ↦ rw early (set_fall-Reset before s _ _ r)
      | inr due ↦ rw due (
          set_fall-Reset before _ idx _ (
            sweep-Reset before idx ((s.wheel.falls idx).elapsed + e) _ (s.wheel.falls idx).timers
              (set_fall-Reset before s idx _ r)))
    ]

pub click_falls-Reset :
    (before : ℕ → Bool) (e n : ℕ) (s : Click) → Reset before s → Reset before (click_falls e s n)
unfolding click_falls
click_falls-Reset before e zero s r = r
click_falls-Reset before e (suc n) s r =
    click_fall-Reset before e (suc n) (click_falls e s n) (click_falls-Reset before e n s r)

pub click_falls_fit :
    (e n : ℕ) (s : Click)
    → n ≤ last_idx
    → (s.wheel.falls 0).elapsed ≡ 0
    → TimersFit s.wheel.falls
    → ((click_falls e s n).wheel.falls 0).elapsed ≡ 0 × TimersFit (click_falls e s n).wheel.falls
unfolding click_falls
click_falls_fit e zero s le bottom fit = (bottom, fit)
click_falls_fit e (suc n) s le bottom fit =
    let (b, f) = click_falls_fit e n s (omega arith) bottom fit in
    (
      ground (arith, click_fall_elapsed e (suc n) 0 (click_falls e s n), b),
      click_fall_fit e (suc n) (click_falls e s n) (omega arith) le b f,
    )

pub m_fall_pos : (i : ℕ) → 0 < i → i < falls_size → 0 < m_fall i
unfolding all_below
m_fall_pos i pos lt =
    ground
      (arith, all_below_sound falls_size (λ j. if j == 0 then true else ltb 0 (m_fall j)) i refl lt)

pub click_falls_spent :
    (e n : ℕ) (s : Click) (i : ℕ)
    → 0 < i
    → i ≤ n
    → n ≤ last_idx
    → ((click_falls e s n).wheel.falls i).elapsed < m_fall i
unfolding click_falls
click_falls_spent e zero s i pos le most = absurd (omega arith)
click_falls_spent e (suc n) s i pos le most = elim (ℕ_discrete i (suc n)) [
  | yes same ↦
      subst (λ k. ((click_fall e (click_falls e s n) (suc n)).wheel.falls k).elapsed < m_fall k)
        (sym same)
        (ground (
          arith,
          click_fall_elapsed e (suc n) (suc n) (click_falls e s n),
          m_fall_pos (suc n) (omega arith) (omega arith),
        ))
  | no ne ↦ ground (
    arith,
    click_falls_spent e n s i pos (omega arith) (omega arith),
    click_fall_elapsed e (suc n) i (click_falls e s n),
    ne,
  )
]
