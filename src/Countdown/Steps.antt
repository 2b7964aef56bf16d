-- ===== src/Countdown/Steps.antt =====
-- What each step of click_elapse of core/countdown.cpp leaves as it is.
use lin_socket_io.Base.{
  ℕ, zero, suc, ◌+◌, ◌-◌, ◌<◌, ◌≡◌, refl, ap, ◌∙◌, inl, inr, true, false, List, [], ◌∷◌, arith, ltb,
  ◌==◌, if◌then◌else◌, Bool-cases,
}
use lin_socket_io.Countdown.{
  Timeout, Click, m_fall, fire, visit, sweep, click_fall, click_falls, set_fall, reset_elapsed,
}
use lin_socket_io.Countdown.Falls.{find_fall_idx_lem}
use lin_socket_io.Countdown.Weights.{put_other}

pub click_fall_early :
    (e idx : ℕ) (s : Click)
    → ltb ((s.wheel.falls idx).elapsed + e) (m_fall idx) ≡ true
    → click_fall e s idx
      ≡ set_fall s idx (record (s.wheel.falls idx) { elapsed = (s.wheel.falls idx).elapsed + e })
unfolding click_fall
click_fall_early e idx s early = rw early refl

pub click_fall_due :
    (e idx : ℕ) (s : Click)
    → ltb ((s.wheel.falls idx).elapsed + e) (m_fall idx) ≡ false
    → click_fall e s idx
      ≡ reset_elapsed idx (
          sweep idx
            ((s.wheel.falls idx).elapsed + e)
            (set_fall s idx (record { elapsed = (s.wheel.falls idx).elapsed + e; timers = [] }))
            (s.wheel.falls idx).timers)
unfolding click_fall
click_fall_due e idx s due = rw due refl

-- The loops leave the falls alone that they have not come to.
visit_above :
    (idx spent j : ℕ) (s : Click) (t : Timeout)
    → idx < j
    → (visit idx spent s t).wheel.falls j ≡ s.wheel.falls j
unfolding visit fire
visit_above idx spent j s t lt = ground (arith, (find_fall_idx_lem (t.count - spent) idx).0)

reset_above :
    (idx j : ℕ) (s : Click) → idx < j → (reset_elapsed idx s).wheel.falls j ≡ s.wheel.falls j
unfolding reset_elapsed
reset_above idx j s lt = ground arith

sweep_above :
    (idx spent j : ℕ) (s : Click) (ts : List Timeout)
    → idx < j
    → (sweep idx spent s ts).wheel.falls j ≡ s.wheel.falls j
unfolding sweep
sweep_above idx spent j s [] lt = refl
sweep_above idx spent j s (t ∷ ts) lt =
    sweep_above idx spent j (visit idx spent s t) ts lt ∙ visit_above idx spent j s t lt

click_fall_above :
    (e idx j : ℕ) (s : Click) → idx < j → (click_fall e s idx).wheel.falls j ≡ s.wheel.falls j
click_fall_above e idx j s lt =
    elim (Bool-cases (ltb ((s.wheel.falls idx).elapsed + e) (m_fall idx))) [
      | inl early ↦
          ap (λ t. t.wheel.falls j) (click_fall_early e idx s early)
          ∙ put_other s.wheel.falls idx j _ (λ eq. absurd (omega arith))
      | inr due ↦
          ap (λ t. t.wheel.falls j) (click_fall_due e idx s due)
          ∙ reset_above idx j (sweep idx ((s.wheel.falls idx).elapsed + e) _ _) lt
          ∙ sweep_above idx ((s.wheel.falls idx).elapsed + e) j _ _ lt
          ∙ put_other s.wheel.falls idx j _ (λ eq. absurd (omega arith))
    ]

pub click_falls_above :
    (e n j : ℕ) (s : Click) → n < j → (click_falls e s n).wheel.falls j ≡ s.wheel.falls j
unfolding click_falls
click_falls_above e zero j s lt = refl
click_falls_above e (suc n) j s lt =
    click_fall_above e (suc n) j (click_falls e s n) lt ∙ click_falls_above e n j s (omega arith)

-- Moving timers does not touch the elapsed times.
visit_elapsed :
    (idx spent j : ℕ) (s : Click) (t : Timeout)
    → ((visit idx spent s t).wheel.falls j).elapsed ≡ (s.wheel.falls j).elapsed
unfolding visit fire
visit_elapsed idx spent j s t = ground arith

pub sweep_elapsed :
    (idx spent j : ℕ) (s : Click) (ts : List Timeout)
    → ((sweep idx spent s ts).wheel.falls j).elapsed ≡ (s.wheel.falls j).elapsed
unfolding sweep
sweep_elapsed idx spent j s [] = refl
sweep_elapsed idx spent j s (t ∷ ts) =
    sweep_elapsed idx spent j (visit idx spent s t) ts ∙ visit_elapsed idx spent j s t

-- The elapsed times after the body of the loop over the falls.
pub click_fall_elapsed :
    (e idx j : ℕ) (s : Click)
    → ((click_fall e s idx).wheel.falls j).elapsed ≡ (
        if j == idx
        then (if ltb ((s.wheel.falls idx).elapsed + e) (m_fall idx)
            then (s.wheel.falls idx).elapsed + e
            else 0)
        else (s.wheel.falls j).elapsed)
unfolding click_fall reset_elapsed
click_fall_elapsed e idx j s = ground (
  arith,
  sweep_elapsed idx ((s.wheel.falls idx).elapsed + e) j
      (set_fall s idx (record { elapsed = (s.wheel.falls idx).elapsed + e; timers = [] }))
      (s.wheel.falls idx).timers,
)
