-- ===== src/Countdown/Invariant.antt =====
-- What holds of a timer wheel between its calls.
use lin_socket_io.Base.{ℕ, ◌≤◌, ◌<◌, ◌≡◌, sym, subst, ◌==◌, if◌then◌else◌, All}
use lin_socket_io.Countdown.{Timeout, Fall, Countdown, m_fall, falls_size, put, time_click}
use lin_socket_io.Countdown.Weights.{put_other, put_same, weigh}
use native.Mathlib.Decide.{ℕ_discrete}

-- A timer knows its fall, its count is the time of the fall at least, and less than a click at the
-- bottom.
abbrev pub Fits : ℕ → Timeout → Type 0
Fits i t = (t.fallidx ≡ i) × (m_fall i ≤ t.count) × (i ≡ 0 → t.count < time_click)

abbrev pub TimersFit : (ℕ → Fall) → Type 0
TimersFit falls = (i : ℕ) → All (Fits i) (falls i).timers

-- counts the timers of one handler
abbrev pub is_handler : ℕ → ℕ → ℕ
is_handler h g = if g == h then 1 else 0

pub record IsWheel (c : Countdown) : Type 0 where
  pub timers_fit : TimersFit c.falls
  pub bottom : (c.falls 0).elapsed ≡ 0
  -- The elapsed time of a fall is less than its time.
  pub spent_below : (i : ℕ) → 0 < i → i < falls_size → (c.falls i).elapsed < m_fall i
  -- A handler with an iterator has one timer, any other has none.
  pub single : (h : ℕ) → weigh (λ g r. is_handler h g) c.falls ≡ (if c.registered h then 1 else 0)

-- One fall gets other timers that fit.
pub TimersFit-put :
    (falls : ℕ → Fall) (k : ℕ) (f : Fall)
    → TimersFit falls
    → All (Fits k) f.timers
    → TimersFit (put falls k f)
TimersFit-put falls k f fit new i = elim (ℕ_discrete i k) [
  | yes e ↦
      subst (λ j. All (Fits j) (put falls k f j).timers) (sym e)
        (subst (λ g. All (Fits k) g.timers) (sym (put_same falls k f)) new)
  | no ne ↦ subst (λ g. All (Fits i) g.timers) (sym (put_other falls k i f ne)) (fit i)
]
