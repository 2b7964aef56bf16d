-- ===== src/Tcp/Flow.antt =====
-- The events of TcpConnection of core/tcp_connection.cpp lose, double and reorder no byte of the stream.
use lin_socket_io.Base.{
  ℕ, zero, suc, ◌≤◌, ◌≡◌, refl, sym, ap, ◌∙◌, subst, inl, inr, true, false, [], ◌++◌, append-nil,
  append_assoc, arith, ◌==◌, if◌then◌else◌, Bool-cases, Bytes, take, drop, take-append-drop, ok,
  err,
}
use lin_socket_io.Buffer.{npos}
use lin_socket_io.Buffer.Contents.{length-contents, contents-erase}
use lin_socket_io.Buffer.Invariant.{erase_limit, IsValid, contents, erase-IsValid}
use lin_socket_io.Socket.{sel_none, sel_write, Events, Sent, count, send_failed, Received, Socket}
use lin_socket_io.Tcp.{
  deselect_write, finish_flush, TcpConnection, Outcome, and_then, flush, flush_rest, select,
}
use lin_socket_io.Tcp.Stream.{
  stream, IsHonest, Streamed, Streamed-refl, Streamed-trans, set_socket_lem,
}
use lin_socket_io.Buffer
use lin_socket_io.Socket

-- A step that leaves the stream as it is.
abbrev pub Same : TcpConnection → TcpConnection → Type 0
Same c d = Streamed c [] d

pub Same-trans : (c d e : TcpConnection) → Same c d → Same d e → Same c e
Same-trans c d e first second = Streamed-trans c d e [] [] first second

-- A step that touches neither what was sent nor the output buffer.
pub same_output :
    (c d : TcpConnection) → IsValid c.output → d.output ≡ c.output → d.wire ≡ c.wire → Same c d
unfolding stream
same_output c d v output wire = record {
  still_valid = subst IsValid (sym output) v;
  grown = rw (output, wire) (sym (append-nil (c.wire ++ contents c.output)));
  same_limit = ap (λ b. b.limit) output;
}

-- What is sent leaves the output buffer at its front.
pub taken :
    (c : TcpConnection) (n : ℕ)
    → IsValid c.output
    → n ≤ Buffer.size c.output
    → Same c (record c {
      wire = c.wire ++ take n (contents c.output);
      output = if n == 0 then c.output else (Buffer.erase c.output n).0;
    })
unfolding stream
taken c zero v le = record {
  still_valid = v;
  grown =
      ap (λ w. w ++ contents c.output) (append-nil c.wire)
      ∙ sym (append-nil (c.wire ++ contents c.output));
  same_limit = refl;
}
taken c (suc m) v le = rw (not_zero m) (record {
  still_valid = erase-IsValid c.output (suc m) v;
  grown =
      ap (λ xs. (c.wire ++ take (suc m) (contents c.output)) ++ xs)
        (contents-erase c.output (suc m) v (omega (arith, v.inside, v.small_cap))).0
      ∙ append_assoc c.wire (take (suc m) (contents c.output)) (drop (suc m) (contents c.output))
      ∙ ap (λ xs. c.wire ++ xs) (take-append-drop (suc m) (contents c.output))
      ∙ sym (append-nil (c.wire ++ contents c.output));
  same_limit = erase_limit c.output (suc m);
})
  where
    not_zero : (k : ℕ) → (suc k == 0) ≡ false
    not_zero k = ground arith

finish_flush-Same :
    (c : TcpConnection) (n : ℕ) (out : Outcome Unit)
    → Same c out.0
    → Same c (and_then out (finish_flush n)).0
unfolding finish_flush stream
finish_flush-Same c n (e, ok _) st = record {
  still_valid = st.still_valid;
  grown = st.grown;
  same_limit = st.same_limit;
}
finish_flush-Same c n (e, err x) st = st

pub select-Same : (c d : TcpConnection) (old add : Events) → Same c d → Same c (select d old add).0
unfolding select
select-Same c d old add st = elim (set_socket_lem c d [] (Socket.select d.socket old add) st) [
  | inl (e, s) ↦ s
  | inr (x, e, inl s) ↦ s
  | inr (x, e, inr s) ↦ s
]

deselect_write-Same : (c d : TcpConnection) → Same c d → Same c (deselect_write d).0
unfolding deselect_write
deselect_write-Same c d st = elim (Bool-cases (Buffer.size d.output == 0)) [
  | inl none_left ↦ rw none_left (select-Same c d sel_write sel_none st)
  | inr some_left ↦ rw some_left st
]

flush_rest_lem :
    (c : TcpConnection) (sent : Sent)
    → IsValid c.output
    → ((n : ℕ) → sent ≡ count n → n ≤ Buffer.size c.output)
    → Same c (flush_rest c (Socket.send sent)).0
unfolding flush_rest Socket.send
flush_rest_lem c (send_failed false) v honest = Streamed-refl c v
flush_rest_lem c (send_failed true) v honest =
    finish_flush-Same c 0 _ (deselect_write-Same c _ (taken c 0 v (omega arith)))
flush_rest_lem c (count n) v honest =
    finish_flush-Same c n _ (deselect_write-Same c _ (taken c n v (honest n refl)))

pub flush_lem :
    (net : Bytes → Sent) (c : TcpConnection)
    → IsHonest net
    → IsValid c.output
    → Same c (flush net c).0
unfolding flush
flush_lem net c honest v = elim (Bool-cases (Buffer.size c.output == 0)) [
  | inl none_left ↦ rw none_left (Streamed-refl c v)
  | inr some_left ↦ rw some_left (
      flush_rest_lem c (net (contents c.output)) v
        (λ n e. omega (arith, honest (contents c.output) n e, length-contents c.output)))
]
