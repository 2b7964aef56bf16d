-- ===== src/Countdown/Falls.antt =====
-- find_fall_idx of core/countdown.h: the fall that a time belongs to.
use lin_socket_io.Base.{
  ℕ, zero, suc, ◌≤◌, ◌<◌, ◌≡◌, refl, sym, subst, ◌⊎◌, inl, inr, false, arith, ltb, leb,
  if◌then◌else◌, leb→le, Bool-cases,
}
use lin_socket_io.Countdown.{m_fall, scan_falls, find_fall_idx, last_idx}

scan_falls_lem :
    (timeout i : ℕ)
    → (scan_falls timeout i ≤ i)
      × (m_fall (scan_falls timeout i) ≤ timeout)
      × ((scan_falls timeout i ≡ i) ⊎ (timeout < m_fall (suc (scan_falls timeout i))))
unfolding scan_falls
scan_falls_lem timeout zero = (omega arith, omega arith, inl refl)
scan_falls_lem timeout (suc i) = elim (Bool-cases (leb (m_fall (suc i)) timeout)) [
  | inl fits ↦ rw fits (omega arith, leb→le (m_fall (suc i)) timeout fits, inl refl)
  | inr over ↦
      let (le, fits, next) = scan_falls_lem timeout i in
      rw over (
        omega arith,
        fits,
        inr (elim next [
          | inl e ↦ subst (λ k. timeout < m_fall (suc k)) (sym e) (above (m_fall (suc i)) over)
          | inr lt ↦ lt
        ]),
      )
]
  where
    above : (a : ℕ) → leb a timeout ≡ false → timeout < a
    above a e = ground arith

-- The fall that find_fall_idx finds is at most `rbegin` and the last one. Its time has passed within
-- `timeout`, and the time of the next fall has not, if the search did not start at the fall found.
pub find_fall_idx_lem :
    (timeout rbegin : ℕ)
    → (find_fall_idx timeout rbegin ≤ rbegin)
      × (find_fall_idx timeout rbegin ≤ last_idx)
      × (m_fall (find_fall_idx timeout rbegin) ≤ timeout)
      × ((find_fall_idx timeout rbegin ≡ (if ltb last_idx rbegin then last_idx else rbegin))
          ⊎ (timeout < m_fall (suc (find_fall_idx timeout rbegin))))
unfolding find_fall_idx
find_fall_idx_lem timeout rbegin =
    let start = if ltb last_idx rbegin then last_idx else rbegin in
    let (le, fits, next) = scan_falls_lem timeout start in
    (ground (arith, le), ground (arith, le), fits, next)
