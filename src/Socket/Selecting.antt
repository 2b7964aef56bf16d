-- ===== src/Socket/Selecting.antt =====
-- What Socket::select of core/handler.cpp leaves selected.
use lin_socket_io.Base.{
  if_either, ◌≡◌, refl, sym, ap₂, inl, inr, Bool, true, false, ◌&&◌, ◌||◌, not, Bool-cases, ok,
}
use lin_socket_io.Socket.{remove_socket, Socket, Events, select, join, minus, both, is_none}

-- A socket that is valid and has no side shut down.
pub record IsUsable (s : Socket) : Type 0 where
  pub is_valid : s.valid ≡ true
  pub sends : s.shutdown_send ≡ false
  pub receives : s.shutdown_recv ≡ false

bit :
    (old gone new : Bool)
    → (old && not ((gone && not new) && old)) || (new && not old) ≡ (old && not gone) || new
bit true true true = refl
bit true true false = refl
bit true false true = refl
bit true false false = refl
bit false true true = refl
bit false true false = refl
bit false false true = refl
bit false false false = refl

same_bit :
    (old gone new : Bool)
    → ((gone && not new) && old) ≡ false
    → (new && not old) ≡ false
    → old ≡ (old && not gone) || new
same_bit true true true a b = refl
same_bit true true false a b = a
same_bit true false true a b = refl
same_bit true false false a b = refl
same_bit false true true a b = sym b
same_bit false true false a b = refl
same_bit false false true a b = sym b
same_bit false false false a b = refl

none_lem :
    (a b c d : Bool)
    → not ((a || b) || (c || d)) ≡ true
    → (a ≡ false) × (b ≡ false) × (c ≡ false) × (d ≡ false)
none_lem false false false false h = (refl, refl, refl, refl)
none_lem true b c d h = cc
none_lem false true c d h = cc
none_lem false false true d h = cc
none_lem false false false true h = cc

-- On a usable socket select(remove, add) returns. Selected are then the events that were and are not
-- removed, and those that are added.
pub select-IsUsable :
    (s : Socket) (old add : Events)
    → IsUsable s
    → (t : Socket) × (select s old add ≡ ok t)
      × (t.selevent ≡ join (minus s.selevent old) add)
      × (t.connected ≡ s.connected)
      × IsUsable t
unfolding select
select-IsUsable s old add u = elim (Bool-cases (is_none changed)) [
  | inl none_changes ↦
      let (a, b, c, d) = none_lem gone.reads new.reads gone.writes new.writes none_changes in
      (
        s,
        rw (u.is_valid, u.sends, u.receives, none_changes) refl,
        ap₂ (λ r w. record { reads = r; writes = w })
            (same_bit s.selevent.reads old.reads add.reads a b)
            (same_bit s.selevent.writes old.writes add.writes c d),
        refl,
        u,
      )
  | inr some_changes ↦ (
    record s { selevent = now; selected = true },
    rw (u.is_valid, u.sends, u.receives, some_changes) refl,
    ap₂ (λ r w. record { reads = r; writes = w }) (bit s.selevent.reads old.reads add.reads)
        (bit s.selevent.writes old.writes add.writes),
    refl,
    record { is_valid = u.is_valid; sends = u.sends; receives = u.receives },
  )
]
  where
    gone : Events
    gone = both (minus old add) s.selevent

    new : Events
    new = minus add s.selevent

    changed : Events
    changed = join gone new

    now : Events
    now = join (minus s.selevent gone) new

pub remove_socket-IsUsable : (s : Socket) → IsUsable s → IsUsable (remove_socket s)
unfolding remove_socket
remove_socket-IsUsable s u = elim (Bool-cases s.selected) [
  | inl is ↦ rw is (record { is_valid = u.is_valid; sends = u.sends; receives = u.receives })
  | inr is ↦ rw is (record { is_valid = u.is_valid; sends = u.sends; receives = u.receives })
]

pub remove_socket-connected : (s : Socket) → (remove_socket s).connected ≡ s.connected
unfolding remove_socket
remove_socket-connected s =
    if_either (λ (t : Socket). t.connected ≡ s.connected) s.selected _ _ (λ _. refl) (λ _. refl)
