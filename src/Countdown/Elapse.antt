-- ===== src/Countdown/Elapse.antt =====
-- click_elapse of core/countdown.cpp: what becomes of each timer when time passes.
use lin_socket_io.Base.{
  zero, subst, All-map, ◌≢◌, ◌⊎◌, ltb, suc, ◌∙◌, inl, inr, sym, Bool-cases, ap₂, ◌==◌, ap, ◌<◌, ℕ,
  ◌+◌, ◌-◌, ◌≤◌, ◌≡◌, refl, List, [], ◌∷◌, arith, leb, if◌then◌else◌, All,
}
use lin_socket_io.Countdown.{
  click_falls, put, reset_elapsed, m_fall, click_fall, find_fall_idx, sweep, insert_timer, set_fall,
  falls_size, visit, Fall, Timeout, Click, fire, fire_all,
}
use lin_socket_io.Countdown.Falls.{find_fall_idx_lem}
use lin_socket_io.Countdown.Steps.{click_falls_above, click_fall_due, click_fall_early}
use lin_socket_io.Countdown.Weights.{
  tally_congr, put_other, sum_below_replace, put_same, sum_below-put, tally-append, sum_below,
  tally, weigh_all, weigh_all-append,
}

pub fire_all-falls : (s : Click) (ts : List Timeout) → (fire_all s ts).wheel.falls ≡ s.wheel.falls
unfolding fire_all fire
fire_all-falls s [] = refl
fire_all-falls s (t ∷ ts) = fire_all-falls (fire s t.handler) ts

module _ (w : ℕ → ℕ → ℕ) (v : ℕ → ℕ) where
  -- what a timer weighs before `e` passes: it fires, or it is left with less time
  abbrev pub after : ℕ → ℕ → ℕ → ℕ
  after e h r = if leb r e then v h else w h (r - e)

  pub fire_all_lem :
      (s : Click) (ts : List Timeout) (spent e : ℕ)
      → All (λ t. t.count ≤ spent + e) ts
      → weigh_all v (fire_all s ts).result ≡ weigh_all v s.result + tally (after e) spent ts
  unfolding fire_all fire
  fire_all_lem s [] spent e soon = omega arith
  fire_all_lem s (t ∷ ts) spent e (first, soon) = ground (
    arith,
    fire_all_lem (fire s t.handler) ts spent e soon,
    weigh_all-append v s.result (t.handler ∷ []),
  )

  -- Counting from zero instead.
  tally-after :
      (spent e : ℕ) (ts : List Timeout) → tally (after e) spent ts ≡ tally (after (spent + e)) 0 ts
  tally-after spent e [] = refl
  tally-after spent e (t ∷ ts) = ap₂ (λ a b. a + b) (one t.handler t.count) (tally-after spent e ts)
    where
      rest : (c : ℕ) → c - spent - e ≡ c - 0 - (spent + e)
      rest c = omega arith

      one : (h c : ℕ) → after e h (c - spent) ≡ after (spent + e) h (c - 0)
      one h c = ground (arith, ap (w h) (rest c))

  -- Timers that have more time left than what passes are left with the difference.
  tally_advance :
      (spent e : ℕ) (ts : List Timeout)
      → All (λ t. spent + e < t.count) ts
      → tally (after e) spent ts ≡ tally w (spent + e) ts
  tally_advance spent e [] long = refl
  tally_advance spent e (t ∷ ts) (first, long) =
      ap₂ (λ a b. a + b) (one t.handler t.count first) (tally_advance spent e ts long)
    where
      rest : (c : ℕ) → c - spent - e ≡ c - (spent + e)
      rest c = omega arith

      one : (h c : ℕ) → spent + e < c → after e h (c - spent) ≡ w h (c - (spent + e))
      one h c lt = ground (arith, ap (w h) (rest c))

  -- what the timers of a fall weigh when those up to `n` are done, and the time of `z` is used up
  abbrev pub term : ℕ → ℕ → ℕ → ℕ → Fall → ℕ
  term e n z j f = tally (if leb j n then w else after e) (if j == z then 0 else f.elapsed) f.timers

  abbrev pub potential : ℕ → ℕ → ℕ → Click → ℕ
  potential e n z s =
      sum_below falls_size (λ j. term e n z j (s.wheel.falls j)) + weigh_all v s.result

  -- A timer that is put in a fall that is done.
  potential-insert_timer :
      (e n z k x : ℕ) (s : Click) (t : Timeout)
      → k < falls_size
      → k ≤ n
      → x ≡ (if k == z then 0 else (s.wheel.falls k).elapsed)
      → potential e n z (set_fall s k (insert_timer (s.wheel.falls k) t))
        ≡ potential e n z s + w t.handler (t.count - x)
  potential-insert_timer e n z k x s t lt le at = omega (
    arith,
    sum_below-put falls_size k (term e n z) s.wheel.falls (insert_timer (s.wheel.falls k) t) lt,
    more,
  )
    where
      done : (if leb k n then w else after e) ≡ w
      done = ground arith

      more :
          term e n z k (insert_timer (s.wheel.falls k) t)
          ≡ term e n z k (s.wheel.falls k) + w t.handler (t.count - x)
      more = rw (done, sym at) (omega (arith, tally-append w x (s.wheel.falls k).timers (t ∷ [])))

  -- The body of the loop over a list: the timer fires, or stands in its new fall with what is left.
  visit_lem :
      (e idx spent : ℕ) (s : Click) (t : Timeout)
      → idx < falls_size
      → potential e idx idx (visit idx spent s t)
        ≡ potential e idx idx s + after spent t.handler t.count
  unfolding visit fire
  visit_lem e idx spent s t lt = elim (Bool-cases (leb t.count spent)) [
    | inl fires ↦ rw fires (omega (arith, weigh_all-append v s.result (t.handler ∷ [])))
    | inr stays ↦ elim (Bool-cases (find_fall_idx (t.count - spent) idx == idx)) [
      | inl same ↦
          rw (stays, same)
            (potential-insert_timer e idx idx newidx 0 s (record t { count = t.count - spent })
                (omega (arith, found)) found (ground arith)
              ∙ ap (λ c. potential e idx idx s + w t.handler c) (omega arith))
      | inr other ↦
          rw (stays, other)
            (potential-insert_timer e idx idx newidx (s.wheel.falls newidx).elapsed s
                (moved t (s.wheel.falls newidx).elapsed) (omega (arith, found)) found (ground arith)
              ∙ ap (λ c. potential e idx idx s + w t.handler c) (omega arith))
    ]
  ]
    where
      newidx : ℕ
      newidx = find_fall_idx (t.count - spent) idx

      found : newidx ≤ idx
      found = (find_fall_idx_lem (t.count - spent) idx).0

      moved : Timeout → ℕ → Timeout
      moved t x = record t { count = t.count - spent + x; fallidx = newidx }

  sweep_lem :
      (e idx spent : ℕ) (s : Click) (ts : List Timeout)
      → idx < falls_size
      → potential e idx idx (sweep idx spent s ts)
        ≡ potential e idx idx s + tally (after spent) 0 ts
  unfolding sweep
  sweep_lem e idx spent s [] lt = omega arith
  sweep_lem e idx spent s (t ∷ ts) lt =
      sweep_lem e idx spent (visit idx spent s t) ts lt
      ∙ omega (arith, visit_lem e idx spent s t lt, ap (after spent t.handler) (minus_zero t.count))
    where
      minus_zero : (c : ℕ) → c - 0 ≡ c
      minus_zero c = omega arith

  -- The fall that the loop is at is the only one that counts otherwise.
  term_other :
      (e n z j : ℕ) (f : Fall)
      → j < falls_size
      → j ≢ suc n
      → (z ≡ suc n) ⊎ (z ≡ falls_size)
      → term e (suc n) z j f ≡ term e n falls_size j f
  term_other e n z j f lt ne at =
      tally_congr (if leb j (suc n) then w else after e) (if leb j n then w else after e)
        (if j == z then 0 else f.elapsed) (if j == falls_size then 0 else f.elapsed) f.timers
        (ground arith) (ground arith)

  term_before :
      (e n : ℕ) (f : Fall)
      → suc n < falls_size
      → term e n falls_size (suc n) f ≡ tally (after e) f.elapsed f.timers
  term_before e n f lt =
      tally_congr (if leb (suc n) n then w else after e) (after e)
        (if suc n == falls_size then 0 else f.elapsed) f.elapsed f.timers (ground arith)
        (ground arith)

  term_after :
      (e n : ℕ) (f : Fall)
      → suc n < falls_size
      → term e (suc n) falls_size (suc n) f ≡ tally w f.elapsed f.timers
  term_after e n f lt =
      tally_congr (if leb (suc n) (suc n) then w else after e) w
        (if suc n == falls_size then 0 else f.elapsed) f.elapsed f.timers (ground arith)
        (ground arith)

  -- The time of a fall that counts as used up is 0.
  term_used :
      (e n : ℕ) (f : Fall)
      → suc n < falls_size
      → term e (suc n) falls_size (suc n) (record f { elapsed = 0 })
        ≡ term e (suc n) (suc n) (suc n) f
  term_used e n f lt =
      tally_congr (if leb (suc n) (suc n) then w else after e)
        (if leb (suc n) (suc n) then w else after e) (if suc n == falls_size then 0 else 0)
        (if suc n == suc n then 0 else f.elapsed) f.timers refl (ground arith)

  term_unused :
      (e n j : ℕ) (f : Fall)
      → j < falls_size
      → j ≢ suc n
      → term e (suc n) falls_size j f ≡ term e (suc n) (suc n) j f
  term_unused e n j f lt ne =
      tally_congr (if leb j (suc n) then w else after e) (if leb j (suc n) then w else after e)
        (if j == falls_size then 0 else f.elapsed) (if j == suc n then 0 else f.elapsed) f.timers
        refl (ground arith)

  -- One fall gets another content. `z` tells whether its time is taken as used up.
  potential_replace :
      (e n z : ℕ) (s : Click) (f : Fall)
      → suc n < falls_size
      → (z ≡ suc n) ⊎ (z ≡ falls_size)
      → potential e (suc n) z (set_fall s (suc n) f)
          + tally (after e) (s.wheel.falls (suc n)).elapsed (s.wheel.falls (suc n)).timers
        ≡ potential e n falls_size s + term e (suc n) z (suc n) f
  potential_replace e n z s f lt at = omega (
    arith,
    term_before e n (s.wheel.falls (suc n)) lt,
    ap (term e (suc n) z (suc n)) (put_same s.wheel.falls (suc n) f),
    sum_below_replace falls_size (suc n) (λ j. term e (suc n) z j (put s.wheel.falls (suc n) f j))
        (λ j. term e n falls_size j (s.wheel.falls j)) lt
        (λ j k ne.
          ap (term e (suc n) z j) (put_other s.wheel.falls (suc n) j f ne)
          ∙ term_other e n z j (s.wheel.falls j) k ne at),
  )

  -- The elapsed time of a fall counts as used up before it is set to 0.
  potential-reset_elapsed :
      (e n : ℕ) (s : Click)
      → suc n < falls_size
      → potential e (suc n) falls_size (reset_elapsed (suc n) s) ≡ potential e (suc n) (suc n) s
  unfolding reset_elapsed
  potential-reset_elapsed e n s lt =
      ap (λ k. k + weigh_all v s.result)
        (omega (
          arith,
          ap (term e (suc n) falls_size (suc n)) (put_same s.wheel.falls (suc n) emptied)
              ∙ term_used e n (s.wheel.falls (suc n)) lt,
          sum_below_replace falls_size (suc n)
              (λ j. term e (suc n) falls_size j (put s.wheel.falls (suc n) emptied j))
              (λ j. term e (suc n) (suc n) j (s.wheel.falls j)) lt
              (λ j k ne.
                ap (term e (suc n) falls_size j) (put_other s.wheel.falls (suc n) j emptied ne)
                ∙ term_unused e n j (s.wheel.falls j) k ne),
        ))
    where
      emptied : Fall
      emptied = record (s.wheel.falls (suc n)) { elapsed = 0 }

  -- The body of the loop over the falls.
  click_fall_lem :
      (e n : ℕ) (s : Click)
      → suc n < falls_size
      → All (λ t. m_fall (suc n) ≤ t.count) (s.wheel.falls (suc n)).timers
      → potential e (suc n) falls_size (click_fall e s (suc n)) ≡ potential e n falls_size s
  click_fall_lem e n s lt fits =
      elim (Bool-cases (ltb ((s.wheel.falls (suc n)).elapsed + e) (m_fall (suc n)))) [
        | inl early ↦
            ap (potential e (suc n) falls_size) (click_fall_early e (suc n) s early)
            ∙ omega (
              arith,
              potential_replace e n falls_size s later lt (inr refl),
              term_after e n later lt,
              tally_advance before e timers (
                  All-map (λ t. m_fall (suc n) ≤ t.count) (λ t. before + e < t.count) timers
                    (λ t le. ground (arith, early)) fits),
            )
        | inr due ↦
            ap (potential e (suc n) falls_size) (click_fall_due e (suc n) s due)
            ∙ potential-reset_elapsed e n (sweep (suc n) (before + e) opened timers) lt
            ∙ sweep_lem e (suc n) (before + e) opened timers lt
            ∙ omega (
              arith,
              potential_replace e n (suc n) s (record { elapsed = before + e; timers = [] }) lt
                  (inl refl),
              tally-after before e timers,
            )
      ]
    where
      before : ℕ
      before = (s.wheel.falls (suc n)).elapsed

      timers : List Timeout
      timers = (s.wheel.falls (suc n)).timers

      later : Fall
      later = record (s.wheel.falls (suc n)) { elapsed = before + e }

      opened : Click
      opened = set_fall s (suc n) (record { elapsed = before + e; timers = [] })

  -- The loop over the falls 1 to n, if the timers of each fall have its time at least.
  pub click_falls_lem :
      (e n : ℕ) (s : Click)
      → n < falls_size
      → ((i : ℕ) → All (λ t. m_fall i ≤ t.count) (s.wheel.falls i).timers)
      → potential e n falls_size (click_falls e s n) ≡ potential e 0 falls_size s
  unfolding click_falls
  click_falls_lem e zero s lt fits = refl
  click_falls_lem e (suc n) s lt fits =
      click_fall_lem e n (click_falls e s n) lt (
        subst (λ f. All (λ t. m_fall (suc n) ≤ t.count) f.timers)
          (sym (click_falls_above e n (suc n) s (omega arith))) (fits (suc n)))
      ∙ click_falls_lem e n s (omega arith) fits
