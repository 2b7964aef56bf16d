-- ===== src/Udp/Blocked.antt =====
-- An empty datagram in UdpConnection of core/udp_connection.cpp: ::send returns 0 for it, which send and
-- flush take for a call that would block.
use lin_socket_io.Base.{
  Bytes, ℕ, zero, suc, ◌≡◌, refl, sym, ap, ◌∙◌, subst, ◌⊎◌, inl, inr, Bool, true, false, ◌&&◌, List,
  [], ◌∷◌, ◌++◌, arith, if◌then◌else◌, Result, ok, err,
}
use lin_socket_io.Socket
use lin_socket_io.Socket.{Socket, Events, Sent, count, send_failed, sel_none, sel_write}
use lin_socket_io.Udp.{
  UdpConnection, Sends, Outcome, empty, set_socket, select, push_back, account, send_now, queue_up,
  send, flush_sent, flush_queue, flush,
}
use lin_socket_io.Udp.Queued.{IsWhole}
use lin_socket_io.Udp.Sending.{nothing}

select-output : (c : UdpConnection) (old add : Events) → (select c old add).0.output ≡ c.output
unfolding select set_socket
select-output c old add = result (Socket.select c.socket old add)
  where
    result : (r : Result Socket) → (set_socket c r).0.output ≡ c.output
    result (ok s) = refl
    result (err e) = refl

account-output : (now size : ℕ) (out : Outcome Unit) → (account now size out).output ≡ out.0.output
unfolding account
account-output now size (c, ok _) = refl
account-output now size (c, err e) = refl

send-empty :
    (net : Sends) (now : ℕ) (c : UdpConnection)
    → c.socket.connected ≡ true
    → empty c.output ≡ true
    → net ([] ∷ []) ≡ count 0
    → (send net now c []).output ≡ [] ∷ []
unfolding send Socket.send send_now
send-empty net now c conn none_left zero_sent =
    by_cases c.socket.connected (empty c.output) (net ([] ∷ [])) conn none_left zero_sent
  where
    by_cases :
        (joined none : Bool) (s : Sent)
        → joined ≡ true
        → none ≡ true
        → s ≡ count 0
        → (account now 0 (
            if joined && none
            then send_now c [] (Socket.send s)
            else (queue_up c [], ok tt))).output
          ≡ [] ∷ []
    by_cases false none s e e' h = cc
    by_cases true false s e e' h = cc
    by_cases true true (count zero) e e' h =
        account-output now 0 _
        ∙ select-output (push_back c []) sel_none sel_write
        ∙ ap (λ ds. ds ++ [] ∷ []) (nothing c.output none_left)
    by_cases true true (count (suc n)) e e' h = cc
    by_cases true true (send_failed b) e e' h = cc

flush-blocked :
    (net : Sends) (c : UdpConnection) (rest : List Bytes)
    → IsWhole net
    → c.output ≡ [] ∷ rest
    → (flush net c).0 ≡ c
unfolding flush flush_queue flush_sent Socket.send
flush-blocked net c rest honest e =
    subst (λ ds. (flush_queue net c ds).0 ≡ c) (sym e) (first (net ([] ∷ rest)) (honest [] rest))
  where
    first :
        (s : Sent)
        → ((n : ℕ) → s ≡ count n → (n ≡ 0) ⊎ (n ≡ 0))
        → (flush_sent c [] rest (λ d. flush_queue net d rest) (Socket.send s)).0 ≡ c
    first (count zero) h = refl
    first (count (suc n)) h = elim (h (suc n) refl) [
      | inl z ↦ absurd (omega (arith, z))
      | inr z ↦ absurd (omega (arith, z))
    ]
    first (send_failed true) h = refl
    first (send_failed false) h = refl

-- send(0, 0) on a connected UDP connection with nothing queued, for which ::send returns 0 as it does
-- for an empty datagram that was sent: the empty datagram is queued. From then on no flush changes
-- the connection, however many datagrams are queued behind it, since ::send takes nothing of an
-- empty one.
pub send-empty_blocks :
    (net net' : Sends) (now : ℕ) (c d : UdpConnection) (rest : List Bytes)
    → c.socket.connected ≡ true
    → empty c.output ≡ true
    → net ([] ∷ []) ≡ count 0
    → IsWhole net'
    → d.output ≡ (send net now c []).output ++ rest
    → (flush net' d).0 ≡ d
send-empty_blocks net net' now c d rest conn none_left zero_sent honest e =
    flush-blocked net' d rest honest
      (e ∙ ap (λ ds. ds ++ rest) (send-empty net now c conn none_left zero_sent))
