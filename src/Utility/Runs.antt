-- ===== src/Utility/Runs.antt =====
-- Runs of utils/utility.h at concrete maps.
use lin_socket_io.Base.{ℕ, ◌≡◌, refl, [], ◌∷◌, All, arith}
use lin_socket_io.Utility.{Entries, diff_loop, diff_new_old_map}
use lin_socket_io.Utility.Reported.{IsAmong, IsAbsent, diff_new_old_map_lem}

abbrev newer : Entries ℕ
newer = (2, 20) ∷ (3, 30) ∷ (7, 70) ∷ []

abbrev older : Entries ℕ
older = (1, 10) ∷ (3, 33) ∷ []

diff_new_old_map_lem_example :
    All (λ x. IsAmong newer x × IsAbsent older x) (diff_new_old_map newer older).added
    × All (λ x. IsAmong older x × IsAbsent newer x) (diff_new_old_map newer older).removed
diff_new_old_map_lem_example =
    diff_new_old_map_lem newer older
      ((omega arith, (omega arith, tt)), ((omega arith, tt), (tt, tt)))
      ((omega arith, tt), (tt, tt))

-- Three rounds are enough for 1, 2 and 3, but not for 7 after them.
newer_misses : (diff_new_old_map newer older).added ≡ (2, 20) ∷ []
unfolding diff_new_old_map diff_loop
newer_misses = refl
