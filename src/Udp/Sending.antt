-- ===== src/Udp/Sending.antt =====
-- What send of UdpConnection of core/udp_connection.cpp does with a datagram.
use lin_socket_io.Base.{
  ℕ, zero, suc, ◌≡◌, refl, sym, ap, ◌∙◌, ◌⊎◌, Bool, true, false, ◌&&◌, not, List, [], ◌∷◌, ◌++◌,
  append_assoc, append-nil, if◌then◌else◌, Bytes, length, take, ok, err,
}
use lin_socket_io.Socket
use lin_socket_io.Socket.{Sent, count, send_failed, sel_none, sel_write, sel_rw, join, minus}
use lin_socket_io.Socket.Selecting.{IsUsable}
use lin_socket_io.Udp.{
  UdpConnection, Sends, Outcome, empty, select, push_back, sent, account, send_now, queue_up, send,
}
use lin_socket_io.Udp.Queued.{IsWhole, Steady, Steady-refl, select_lem, whole}

-- the datagrams that a call of ::send, or its failure, leaves to the connection
abbrev pub kept_of : Sent → Bytes → List Bytes
kept_of (count n) dat = dat ∷ []
kept_of (send_failed true) dat = dat ∷ []
kept_of (send_failed false) dat = []

-- a datagram that is queued without a call of ::send
abbrev pub queued_of : Bytes → List Bytes
queued_of [] = []
queued_of (x ∷ xs) = (x ∷ xs) ∷ []

-- what a call of send adds to the datagrams of a connected socket
abbrev pub kept : Sends → UdpConnection → Bytes → List Bytes
kept net c dat = if empty c.output then kept_of (net (dat ∷ [])) dat else queued_of dat

empty-push : (ds : List Bytes) (d : Bytes) → empty (ds ++ d ∷ []) ≡ false
empty-push [] d = refl
empty-push (x ∷ ds) d = refl

pub nothing : (ds : List Bytes) → empty ds ≡ true → ds ≡ []
nothing [] e = refl
nothing (d ∷ ds) e = cc

account_lem :
    (now size : ℕ) (c : UdpConnection) (xs : List Bytes) (out : Outcome Unit)
    → Steady c xs out.0
    → Steady c xs (account now size out)
unfolding account
account_lem now size c xs (d, ok _) st = record {
  grown = st.grown;
  usable = st.usable;
  connected = st.connected;
  status = st.status;
  timer = st.timer;
  timeout = st.timeout;
  still_wanted = st.still_wanted;
}
account_lem now size c xs (d, err e) st = st

push_grown :
    (wire output : List Bytes) (dat : Bytes)
    → wire ++ (output ++ dat ∷ []) ≡ (wire ++ output) ++ dat ∷ []
push_grown wire output dat = sym (append_assoc wire output (dat ∷ []))

module _ (c : UdpConnection) (dat : Bytes) (u : IsUsable c.socket) where
  -- Nothing was taken: the datagram is queued, and writing is selected.
  put_off :
      empty c.output ≡ true → Steady c (dat ∷ []) (select (push_back c dat) sel_none sel_write).0
  put_off e =
      let (s, done, sel, conn, usable) = select_lem (push_back c dat) sel_none sel_write u in
      rw done (record {
        grown = push_grown c.wire c.output dat;
        usable = usable;
        connected = conn;
        status = refl;
        timer = refl;
        timeout = refl;
        still_wanted = λ w.
            sel
            ∙ ap (λ ev. join (minus ev sel_none) sel_write)
                (w ∙ ap (λ b. record { reads = true; writes = not b }) e)
            ∙ ap (λ b. record { reads = true; writes = not b }) (sym (empty-push c.output dat));
      })

  -- Something was taken, and that is all of it.
  taken_now :
      (n : ℕ)
      → empty c.output ≡ true
      → (suc n ≡ 0) ⊎ (suc n ≡ length dat)
      → Steady c (dat ∷ []) (sent c dat (suc n))
  taken_now n e taken =
      let none_left = nothing c.output e in
      record {
        grown =
            ap (◌++◌ (c.wire ++ take (suc n) dat ∷ [])) none_left
            ∙ append-nil (c.wire ++ take (suc n) dat ∷ [])
            ∙ ap (λ d. c.wire ++ d ∷ []) (whole dat n taken)
            ∙ ap (λ w. w ++ dat ∷ []) (sym (ap (◌++◌ c.wire) none_left ∙ append-nil c.wire));
        usable = u;
        connected = refl;
        status = refl;
        timer = refl;
        timeout = refl;
        still_wanted = λ w. w;
      }

  send_now_lem :
      (s : Sent)
      → empty c.output ≡ true
      → ((n : ℕ) → s ≡ count n → (n ≡ 0) ⊎ (n ≡ length dat))
      → Steady c (kept_of s dat) (send_now c dat (Socket.send s)).0
  unfolding send_now Socket.send
  send_now_lem (count zero) e taken = put_off e
  send_now_lem (count (suc n)) e taken = taken_now n e (taken (suc n) refl)
  send_now_lem (send_failed true) e taken = put_off e
  send_now_lem (send_failed false) e taken = Steady-refl c u

queue_up_lem :
    (c : UdpConnection) (dat : Bytes)
    → IsUsable c.socket
    → empty c.output ≡ false
    → Steady c (queued_of dat) (queue_up c dat)
unfolding queue_up
queue_up_lem c [] u e = Steady-refl c u
queue_up_lem c (x ∷ xs) u e = record {
  grown = push_grown c.wire c.output (x ∷ xs);
  usable = u;
  connected = refl;
  status = refl;
  timer = refl;
  timeout = refl;
  still_wanted = λ w.
      w
      ∙ ap (λ b. record { reads = true; writes = not b }) (e ∙ sym (empty-push c.output (x ∷ xs)));
}

-- send on a connected socket always returns. The datagram joins the others, whole and behind them:
-- except that a datagram whose ::send fails is gone, and that an empty one is not queued behind
-- others. Needed is that ::send takes a datagram whole or not at all.
pub send_lem :
    (net : Sends) (now : ℕ) (c : UdpConnection) (dat : Bytes)
    → IsWhole net
    → IsUsable c.socket
    → c.socket.connected ≡ true
    → Steady c (kept net c dat) (send net now c dat)
unfolding send
send_lem net now c dat honest u conn = by_cases (empty c.output) c.socket.connected refl refl
  where
    by_cases :
        (none_left joined : Bool)
        → empty c.output ≡ none_left
        → c.socket.connected ≡ joined
        → Steady c (if none_left then kept_of (net (dat ∷ [])) dat else queued_of dat) (
            account now (length dat) (
              if joined && none_left
              then send_now c dat (Socket.send (net (dat ∷ [])))
              else (queue_up c dat, ok tt)))
    by_cases b false e e' = cc
    by_cases true true e e' =
        account_lem now (length dat) c _ _ (send_now_lem c dat u (net (dat ∷ [])) e (honest dat []))
    by_cases false true e e' = account_lem now (length dat) c _ _ (queue_up_lem c dat u e)
