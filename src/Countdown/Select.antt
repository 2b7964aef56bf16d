-- ===== src/Countdown/Select.antt =====
-- select_timeout of core/countdown.cpp: the alarm of a handler is set, moved or taken away, and all
-- others are left alone.
use lin_socket_io.Base.{
  ℕ, ◌+◌, ◌-◌, ◌<◌, ◌≡◌, sym, ap, ◌∙◌, subst, ◌≢◌, inl, inr, false, [], ◌∷◌, arith, Bool-cases,
}
use native.Mathlib.Decide.{ℕ_discrete}
use lin_socket_io.Countdown.{
  Timeout, Fall, Countdown, put, erase_timer, set_count, erase_at, remove_timeout, move_timeout,
  set_timeout, find_fall_idx, no_idx, insert_timer, pos_fallidx, falls_size,
}
use lin_socket_io.Countdown.Falls.{find_fall_idx_lem}
use lin_socket_io.Countdown.Invariant.{IsWheel}
use lin_socket_io.Countdown.Place.{
  without, tally_absent, tally-erase_timer, tally-set_count, Placed, registered-Placed,
  unregistered_absent,
}
use lin_socket_io.Countdown.Weights.{
  weigh, tally, tally-append, sum_below_congr, put_same, put_other, sum_below_replace,
  sum_below-put,
}

module _ (c : Countdown) (h : ℕ) (wheel : IsWheel c) where
  abbrev weight_of : (ℕ → ℕ → ℕ) → ℕ → Fall → ℕ
  weight_of w j f = tally w f.elapsed f.timers

  erased : (i : ℕ) → Fall
  erased i = record (c.falls i) { timers = erase_timer (c.falls i).timers h }

  -- The falls without the timer of a registered handler.
  erase_at-weigh :
      (i : ℕ) (w : ℕ → ℕ → ℕ)
      → Placed c h i
      → weigh w (erase_at c.falls i h) ≡ weigh (without h w) c.falls
  unfolding erase_at
  erase_at-weigh i w placed =
      sum_below_congr falls_size (λ j. weight_of w j (erase_at c.falls i h j))
        (λ j. weight_of (without h w) j (c.falls j))
        (λ j lt. elim (ℕ_discrete j i) [
          | yes e ↦
              subst
                (λ k.
                  weight_of w k (erase_at c.falls i h k) ≡ weight_of (without h w) k (c.falls k))
                (sym e)
                (ap (weight_of w i) (put_same c.falls i _)
                  ∙ tally-erase_timer h w (c.falls i).elapsed (c.falls i).timers placed.here)
          | no ne ↦
              ap (weight_of w j) (put_other c.falls i j _ ne)
              ∙ tally_absent h w (c.falls j).elapsed (c.falls j).timers (placed.elsewhere j lt ne)
        ])

  -- A new timer at the end of a fall.
  insert_timer-weigh :
      (falls : ℕ → Fall) (k timeout : ℕ) (w : ℕ → ℕ → ℕ)
      → k < falls_size
      → weigh w (
          put falls k (
            insert_timer
              (falls k)
              (record { fallidx = k; handler = h; count = timeout + (falls k).elapsed })))
        ≡ weigh w falls + w h timeout
  insert_timer-weigh falls k timeout w lt = omega (
    arith,
    sum_below-put falls_size k (weight_of w) falls (insert_timer (falls k) t) lt,
    tally-append w (falls k).elapsed (falls k).timers (t ∷ []),
    ap (w h) (back timeout (falls k).elapsed),
  )
    where
      t : Timeout
      t = record { fallidx = k; handler = h; count = timeout + (falls k).elapsed }

      back : (a b : ℕ) → a + b - b ≡ a
      back a b = omega arith

  set_count-weigh :
      (i timeout : ℕ) (w : ℕ → ℕ → ℕ)
      → Placed c h i
      → weigh w (
          put c.falls i (record (c.falls i) {
            timers = set_count (c.falls i).timers h (timeout + (c.falls i).elapsed);
          }))
        ≡ weigh (without h w) c.falls + w h timeout
  set_count-weigh i timeout w placed = omega (
    arith,
    sum_below_replace falls_size i (λ j. weight_of w j (put c.falls i f j))
        (λ j. weight_of (without h w) j (c.falls j)) placed.in_range
        (λ j lt ne.
          ap (weight_of w j) (put_other c.falls i j f ne)
          ∙ tally_absent h w (c.falls j).elapsed (c.falls j).timers (placed.elsewhere j lt ne)),
    ap (weight_of w i) (put_same c.falls i f),
    tally-set_count h w (c.falls i).elapsed (timeout + (c.falls i).elapsed) (c.falls i).timers
        placed.here,
    ap (w h) (back timeout (c.falls i).elapsed),
  )
    where
      f : Fall
      f = record (c.falls i) {
        timers = set_count (c.falls i).timers h (timeout + (c.falls i).elapsed);
      }

      back : (a b : ℕ) → a + b - b ≡ a
      back a b = omega arith

  -- The falls that have no timer of an unregistered handler.
  absent-weigh :
      (w : ℕ → ℕ → ℕ) → c.registered h ≡ false → weigh w c.falls ≡ weigh (without h w) c.falls
  absent-weigh w is =
      sum_below_congr falls_size (λ j. weight_of w j (c.falls j))
        (λ j. weight_of (without h w) j (c.falls j))
        (λ j lt.
          tally_absent h w (c.falls j).elapsed (c.falls j).timers
            (unregistered_absent c h wheel is j lt))

  pub remove_timeout-weigh :
      (w : ℕ → ℕ → ℕ) → weigh w (remove_timeout c h).falls ≡ weigh (without h w) c.falls
  unfolding remove_timeout
  remove_timeout-weigh w = elim (Bool-cases (c.registered h)) [
    | inl is ↦
        let (i, placed) = registered-Placed c h wheel is in
        rw (is, placed.position) (erase_at-weigh i w placed)
    | inr is ↦ rw is (absent-weigh w is)
  ]

  pub move_timeout_same :
      (k count : ℕ)
      → pos_fallidx c h ≡ k
      → move_timeout c h k count ≡ record c {
        falls =
            put c.falls k (record (c.falls k) { timers = set_count (c.falls k).timers h count });
      }
  unfolding move_timeout
  move_timeout_same k count at = rw at (ground arith)

  pub move_timeout_other :
      (i k count : ℕ)
      → pos_fallidx c h ≡ i
      → k ≢ i
      → move_timeout c h k count ≡ record c {
        falls = put (erase_at c.falls i h) k (
            insert_timer
              (erase_at c.falls i h k)
              (record { fallidx = k; handler = h; count = count }));
      }
  unfolding move_timeout
  move_timeout_other i k count at ne = rw at (ground arith)

  -- The other falls keep their elapsed times.
  pub erase_at_elapsed : (i k : ℕ) → (erase_at c.falls i h k).elapsed ≡ (c.falls k).elapsed
  unfolding erase_at
  erase_at_elapsed i k = ground arith

  move_timeout-weigh :
      (i k timeout : ℕ) (w : ℕ → ℕ → ℕ)
      → Placed c h i
      → k < falls_size
      → weigh w (move_timeout c h k (timeout + (c.falls k).elapsed)).falls
        ≡ weigh (without h w) c.falls + w h timeout
  move_timeout-weigh i k timeout w placed lt = elim (ℕ_discrete k i) [
    | yes same ↦
        ap (λ d. weigh w d.falls)
          (move_timeout_same k (timeout + (c.falls k).elapsed) (placed.position ∙ sym same))
        ∙ set_count-weigh k timeout w (subst (Placed c h) (sym same) placed)
    | no ne ↦
        ap (λ d. weigh w d.falls)
          (move_timeout_other i k (timeout + (c.falls k).elapsed) placed.position ne)
        ∙ ap
            (λ x. weigh w (
              put (erase_at c.falls i h) k (
                insert_timer (erase_at c.falls i h k)
                  (record { fallidx = k; handler = h; count = timeout + x }))))
            (sym (erase_at_elapsed i k))
        ∙ insert_timer-weigh (erase_at c.falls i h) k timeout w lt
        ∙ ap (λ x. x + w h timeout) (erase_at-weigh i w placed)
  ]

  pub set_timeout-weigh :
      (timeout : ℕ) (w : ℕ → ℕ → ℕ)
      → weigh w (set_timeout c h timeout).falls ≡ weigh (without h w) c.falls + w h timeout
  unfolding set_timeout
  set_timeout-weigh timeout w = elim (Bool-cases (c.registered h)) [
    | inl is ↦
        let (i, placed) = registered-Placed c h wheel is in
        rw is (move_timeout-weigh i k timeout w placed lt)
    | inr is ↦
        rw is (
          insert_timer-weigh c.falls k timeout w lt ∙ ap (λ x. x + w h timeout) (absent-weigh w is))
  ]
    where
      k : ℕ
      k = find_fall_idx timeout no_idx

      lt : k < falls_size
      lt = omega (arith, (find_fall_idx_lem timeout no_idx).1)
