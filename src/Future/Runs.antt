-- ===== src/Future/Runs.antt =====
-- Runs of the futures of a connection, on which two calls wait.
use lin_socket_io.Base.{◌≡◌, refl, [], ◌∷◌, find}
use lin_socket_io.Future.{new_future, Calls, clear, future_at, connection_closed}
use lin_socket_io.Future.Outcomes.{HasFailed, clear_fails_all}

abbrev calls : Calls
calls = record { futures = (1, 10) ∷ (2, 20) ∷ []; heap = (10, new_future) ∷ (20, new_future) ∷ [] }

clear_fails_all_example :
    HasFailed (future_at (clear calls) 20) connection_closed × ((clear calls).futures ≡ [])
unfolding find
clear_fails_all_example = clear_fails_all calls 2 20 refl
