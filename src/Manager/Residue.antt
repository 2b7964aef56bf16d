-- ===== src/Manager/Residue.antt =====
-- The residue of an id modulo the step: what tells the managers of the IO threads apart.
use lin_socket_io.Base.{
  ℕ, zero, suc, ◌+◌, ◌*◌, ◌%◌, ◌<◌, ◌≡◌, sym, ap, ◌∙◌, inl, inr, some, arith, Option-cases,
  some-eq-some, length, Table, find,
}
use native.Mathlib.Nat.{add-mod_right}
use lin_socket_io.Manager.{Connection, Manager, u32_mod, next_seed, free_id, get_connection_id}

module _ (step : ℕ) (pos : 0 < step) where
  next_seed-mod :
      (seed : ℕ)
      → seed + step < u32_mod
      → (next_seed step seed ≡ seed + step) × (next_seed step seed % step ≡ seed % step)
  next_seed-mod seed h =
      let e : next_seed step seed ≡ seed + step = unfold next_seed in ground arith in
      (e, ap (λ t. t % step) e ∙ add-mod_right seed step)

  -- how far the rounds can take the seed
  abbrev span : ℕ → ℕ
  span zero = 0
  span (suc fuel) = step + span fuel

  free_id-mod :
      (fuel seed id : ℕ) (t : Table Connection)
      → seed + span fuel < u32_mod
      → free_id step fuel seed t ≡ some id
      → id % step ≡ seed % step
  unfolding free_id
  free_id-mod zero seed id t h e = cc
  free_id-mod (suc fuel) seed id t h e =
      let n = next_seed-mod seed (omega arith) in
      elim (Option-cases (find (next_seed step seed) t)) [
        | inl new ↦ ap (λ k. k % step) (sym (some-eq-some (rw (new, free_id) at e))) ∙ n.1
        | inr (c, old) ↦
            free_id-mod fuel (next_seed step seed) id t (omega (arith, n.0))
              (rw (old, free_id) at e)
            ∙ n.1
      ]

  span-mul : (n : ℕ) → span n ≡ step * n
  span-mul zero = omega arith
  span-mul (suc n) = omega (arith, span-mul n)

  -- As long as the seed does not wrap, an id is the seed modulo the step, and becomes the seed.
  pub get_connection_id-mod :
      (m m' : Manager) (id : ℕ)
      → m.seed + step * (length m.connections + 2) < u32_mod
      → get_connection_id step m ≡ some (id, m')
      → (id % step ≡ m.seed % step) × (m'.seed ≡ id)
  unfolding get_connection_id
  get_connection_id-mod m m' id h e =
      elim (Option-cases (free_id step (length m.connections + 2) m.seed m.connections)) [
        | inl out ↦ cc (rw (out, get_connection_id) at e)
        | inr (found, at) ↦
            let same = some-eq-some (rw (at, get_connection_id) at e) in
            (
              ap (λ p. p.0 % step) (sym same)
                  ∙ free_id-mod (length m.connections + 2) m.seed found m.connections
                      (omega (arith, span-mul (length m.connections + 2))) at,
              ap (λ p. p.1.seed) (sym same) ∙ ap (λ p. p.0) same,
            )
      ]
