-- ===== src/Manager/Ids.antt =====
-- getConnectionId ends, with an id that is free.
use lin_socket_io.Base.{
  ◌*◌, ℕ, zero, suc, ◌+◌, ◌%◌, ◌≤◌, ◌<◌, ◌≡◌, refl, sym, ◌∙◌, inl, inr, none, some, arith, ◌==◌,
  Bool-cases, Option-cases, length, Table, find, remove, find-remove, length-remove_found,
}
use lin_socket_io.Manager.{
  get_connection, Connection, Manager, u32_mod, next_seed, free_id, get_connection_id,
}

module _ (step : ℕ) where
  -- The seed is never 0 after a round.
  next_seed_bounds :
      (seed : ℕ)
      → 0 < step
      → step < u32_mod
      → (0 < next_seed step seed) × (next_seed step seed < u32_mod)
  unfolding next_seed
  next_seed_bounds seed h k = ground arith

  -- An id that the loop returns is not 0 and not in use.
  free_id_free :
      (fuel seed id : ℕ) (t : Table Connection)
      → 0 < step
      → step < u32_mod
      → free_id step fuel seed t ≡ some id
      → (0 < id) × (id < u32_mod) × (find id t ≡ none)
  unfolding free_id
  free_id_free zero seed id t h k e = cc
  free_id_free (suc fuel) seed id t h k e =
      ground (arith, next_seed_bounds seed h k, free_id_free fuel (next_seed step seed) id t h k)

  -- how far the rounds can take the seed
  abbrev reach : ℕ → ℕ
  reach zero = 0
  reach (suc fuel) = step + step + reach fuel

  reach-mul : (n : ℕ) → reach n ≡ n * (2 * step)
  reach-mul zero = omega arith
  reach-mul (suc n) = omega (arith, reach-mul n)

  -- A round adds the step, or twice the step where once would give 0.
  next_seed_past :
      (seed x past : ℕ)
      → 0 < step
      → seed ≡ (x + past) % u32_mod
      → (past' : ℕ) × (next_seed step seed ≡ (x + past') % u32_mod)
        × (past < past')
        × (past' ≤ past + step + step)
  unfolding next_seed
  next_seed_past seed x past h e = elim (Bool-cases ((seed + step) % u32_mod == 0)) [
    | inl again ↦ (past + step + step, ground arith, omega arith, omega arith)
    | inr once ↦ (past + step, ground arith, omega arith, omega arith)
  ]

  -- An id that the seed has passed by `past` is not met again before the seed has gone round.
  free_id-remove :
      (fuel seed x past : ℕ) (t : Table Connection)
      → 0 < step
      → seed ≡ (x + past) % u32_mod
      → x < u32_mod
      → past + reach fuel < u32_mod
      → free_id step fuel seed (remove x t) ≡ free_id step fuel seed t
  unfolding free_id
  free_id-remove zero seed x past t h e k l = refl
  free_id-remove (suc fuel) seed x past t h e k l =
      let (past', e', more, most) = next_seed_past seed x past h e in
      ground (
        arith,
        find-remove x (next_seed step seed) t,
        free_id-remove fuel (next_seed step seed) x past' t h e' k (omega arith),
      )

  -- More rounds than connections, and the seed has not gone round: the loop ends.
  free_id-some :
      (fuel seed : ℕ) (t : Table Connection)
      → 0 < step
      → step < u32_mod
      → length t < fuel
      → reach fuel < u32_mod
      → (id : ℕ) × (free_id step fuel seed t ≡ some id)
  unfolding free_id
  free_id-some zero seed t h k room l = absurd (omega arith)
  free_id-some (suc fuel) seed t h k room l = elim (Option-cases (find (next_seed step seed) t)) [
    | inl new ↦ (next_seed step seed, rw (new, free_id))
    | inr (c, old) ↦
        let x = next_seed step seed in
        let b = next_seed_bounds seed h k in
        let (id, found) =
          free_id-some fuel x (remove x t) h k (omega (arith, length-remove_found x c t old))
            (omega arith) in
        (
          id,
          rw (old, free_id)
              (sym (free_id-remove fuel x x 0 t h (omega arith) b.1 (omega arith)) ∙ found),
        )
  ]

  -- getConnectionId returns, as long as twice the step for each connection and two more does not take
  -- the 32-bit seed all the way round. The id is not 0 and not in use, and nothing else changes.
  pub get_connection_id_free :
      (m : Manager)
      → 0 < step
      → step < u32_mod
      → (length m.connections + 2) * (2 * step) < u32_mod
      → (id : ℕ) × (get_connection_id step m ≡ some (id, record m { seed = id }))
        × (0 < id)
        × (id < u32_mod)
        × (get_connection m id ≡ none)
  unfolding get_connection_id get_connection
  get_connection_id_free m h k l =
      let (id, e) =
        free_id-some (length m.connections + 2) m.seed m.connections h k (omega arith)
          (omega (arith, reach-mul (length m.connections + 2))) in
      let b = free_id_free (length m.connections + 2) m.seed id m.connections h k e in
      (id, rw (e, get_connection_id), b.0, b.1, b.2)
