-- ===== src/Tcp/Reading.antt =====
-- onRead of core/tcp_connection.cpp.
use lin_socket_io.Base.{
  unknown_type, bad_version, out_of_fuel, pack_error, unpack_error, append_assoc, none, ap, ◌∙◌,
  arith, ◌^◌, ◌%◌, drop, some, ◌++◌, ◌≤◌, ◌+◌, ◌<◌, length, ℕ, ◌-◌, ◌*◌, max, ◌≡◌, refl, [], ◌∷◌,
  Bytes, not_enough_data, buffer_overflow, position_out_of_range, offset_out_of_range, io_error,
  Result, ok, err,
}
use lin_socket_io.Buffer.{ByteBuffer}
use lin_socket_io.Buffer.Contents.{contents-erase, contents-advance}
use lin_socket_io.Buffer.Fifo.{reserve_ok}
use lin_socket_io.Buffer.Invariant.{advance-IsValid, contents, IsValid}
use lin_socket_io.Buffer.Reserve.{reserve_throws, reserve-Reserved, Reserved}
use lin_socket_io.Socket.{bytes, Received, recv}
use lin_socket_io.Tcp.{
  disconnected, on_initiative_close, on_close, tell, handle_on_initiative_close, on_data, store,
  TcpConnection, Outcome, Handler, handle_on_close,
}
use lin_socket_io.Tcp.Flow.{Same-trans}
use lin_socket_io.Tcp.Handling.{
  consumed, consume, after_read, read_input, reserved, received, take_in, on_read,
}
use lin_socket_io.Tcp.Keeping.{
  Keeps-trans, Keeps, frame-Keeps, handle_on_close-Keeps, consume-Keeps,
}
use lin_socket_io.Tcp.Served.{IsServed}
use lin_socket_io.Buffer

module _ (fresh : ℕ → ℕ) where
  -- Reading changes the input and its counter alone.
  read_input-Keeps :
      (net : ℕ → Received) (c : TcpConnection) → IsServed c → Keeps c (read_input fresh net c).0
  unfolding read_input reserved received take_in
  read_input-Keeps net c served =
      reserved_lem (max (Buffer.space c.input) (4 * 1024))
        (Buffer.reserve fresh c.input (max (Buffer.space c.input) (4 * 1024)))
    where
      same_frame :
          (d : TcpConnection)
          → d.output ≡ c.output
          → d.wire ≡ c.wire
          → d.socket ≡ c.socket
          → d.status ≡ c.status
          → d.timer ≡ c.timer
          → d.timeout ≡ c.timeout
          → Keeps c d
      same_frame d = frame-Keeps c d served

      received_lem : (b : ByteBuffer) (r : Result Bytes) → Keeps c (received fresh c b r).0
      received_lem b (err e) = same_frame _ refl refl refl refl refl refl
      received_lem b (ok []) = same_frame _ refl refl refl refl refl refl
      received_lem b (ok (x ∷ xs)) = same_frame _ refl refl refl refl refl refl

      reserved_lem : (sz : ℕ) (r : Result ByteBuffer) → Keeps c (reserved fresh net sz c r).0
      reserved_lem sz (err e) = same_frame c refl refl refl refl refl refl
      reserved_lem sz (ok b) = received_lem b (recv (net (sz - 1)))

  pub on_read-Keeps :
      (handler : Handler) (net : ℕ → Received) (now : ℕ) (c : TcpConnection)
      → IsServed c
      → Keeps c (on_read fresh handler net now c)
  unfolding on_read after_read
  on_read-Keeps handler net now c served =
      let d = record c { last_recv = now } in
      let frame = frame-Keeps c d served refl refl refl refl refl refl in
      ended (read_input fresh net d) (Keeps-trans c d _ frame (read_input-Keeps net d frame.served))
    where
      ended : (out : Outcome Unit) → Keeps c out.0 → Keeps c (after_read handler out)
      ended (d, ok _) keeps =
          let more = consume-Keeps handler d keeps.served in
          record { served = more.served; same = Same-trans c d _ keeps.same more.same }
      ended (d, err buffer_overflow) keeps =
          let closed = (handle_on_close-Keeps c d keeps.same keeps.served.usable).0 in
          let more = consume-Keeps handler (handle_on_close d) closed.served in
          record { served = more.served; same = Same-trans c _ _ closed.same more.same }
      ended (d, err not_enough_data) keeps =
          (handle_on_close-Keeps c d keeps.same keeps.served.usable).0
      ended (d, err position_out_of_range) keeps =
          (handle_on_close-Keeps c d keeps.same keeps.served.usable).0
      ended (d, err offset_out_of_range) keeps =
          (handle_on_close-Keeps c d keeps.same keeps.served.usable).0
      ended (d, err unknown_type) keeps =
          (handle_on_close-Keeps c d keeps.same keeps.served.usable).0
      ended (d, err bad_version) keeps =
          (handle_on_close-Keeps c d keeps.same keeps.served.usable).0
      ended (d, err out_of_fuel) keeps =
          (handle_on_close-Keeps c d keeps.same keeps.served.usable).0
      ended (d, err io_error) keeps = (handle_on_close-Keeps c d keeps.same keeps.served.usable).0
      ended (d, err pack_error) keeps = (handle_on_close-Keeps c d keeps.same keeps.served.usable).0
      ended (d, err unpack_error) keeps =
          (handle_on_close-Keeps c d keeps.same keeps.served.usable).0

-- The handler is given the contents of the input, and what it consumes is erased.
consume-some :
    (handler : Handler) (c : TcpConnection) (ys : Bytes) (n : ℕ)
    → contents c.input ≡ ys
    → handler.consumes ys ≡ some n
    → consume handler c ≡ record (tell c (on_data ys)) { input = (Buffer.erase c.input n).0 }
unfolding consume consumed
consume-some handler c ys n same takes =
    ap (λ z. consumed (tell c (on_data z)) (handler.consumes z)) same
    ∙ ap (consumed (tell c (on_data ys))) takes

-- onRead whose ::recv returns bytes that fit the room, one byte less than was reserved, and whose
-- input may grow by that room: the handler gets what was in the input and then these bytes, and what
-- it does not consume stays there; they are counted, and nothing else is called.
pub on_read_lem :
    (fresh : ℕ → ℕ) (handler : Handler) (net : ℕ → Received) (now n x : ℕ) (xs : Bytes)
    (c : TcpConnection)
    → IsValid c.input
    → Buffer.size c.input + max (Buffer.space c.input) 4096 ≤ c.input.limit
    → net (max (Buffer.space c.input) 4096 - 1) ≡ bytes (x ∷ xs)
    → length (x ∷ xs) < max (Buffer.space c.input) 4096
    → handler.consumes (contents c.input ++ x ∷ xs) ≡ some n
    → n < Buffer.npos
    → (contents (on_read fresh handler net now c).input ≡ drop n (contents c.input ++ x ∷ xs))
      × ((on_read fresh handler net now c).told
          ≡ c.told ++ on_data (contents c.input ++ x ∷ xs) ∷ [])
      × ((on_read fresh handler net now c).recv_bytes ≡ (c.recv_bytes + length (x ∷ xs)) % 2 ^ 64)
unfolding on_read after_read read_input reserved received take_in consume consumed recv
on_read_lem fresh handler net now n x xs c v fits got room takes small =
    let (b, e) = reserve_ok fresh c.input sz v fits in
    let r = reserve-Reserved fresh c.input b sz v (omega (arith, v.inside, v.small_cap)) e in
    rw (e, got) (rest b (joined b r) (valid b r))
  where
    sz : ℕ
    sz = max (Buffer.space c.input) 4096

    stored : ByteBuffer → ByteBuffer
    stored b = record b { mem = store b.mem b.tail ((x ∷ xs) ++ 0 ∷ []) }

    filled : ByteBuffer → ByteBuffer
    filled b = (Buffer.advance fresh (stored b) (length (x ∷ xs))).0

    valid : (b : ByteBuffer) → Reserved c.input sz b → IsValid (filled b)
    valid b r = advance-IsValid fresh (stored b) (length (x ∷ xs)) (record {
      ordered = r.valid.ordered;
      inside = r.valid.inside;
      some_cap = r.valid.some_cap;
      small_cap = r.valid.small_cap;
      small_limit = r.valid.small_limit;
      marked = r.valid.marked;
      blocks = r.valid.blocks;
      stack = r.valid.stack;
    })

    joined :
        (b : ByteBuffer) → Reserved c.input sz b → contents (filled b) ≡ contents c.input ++ x ∷ xs
    joined b r =
        contents-advance fresh b (x ∷ xs) (0 ∷ []) r.valid (omega (arith, r.room))
        ∙ ap (λ ys. ys ++ x ∷ xs) r.kept

    after : ByteBuffer → TcpConnection
    after b = record c {
      last_recv = now;
      input = filled b;
      recv_bytes = (c.recv_bytes + length (x ∷ xs)) % 2 ^ 64;
    }

    rest :
        (b : ByteBuffer)
        → contents (filled b) ≡ contents c.input ++ x ∷ xs
        → IsValid (filled b)
        → (contents (consume handler (after b)).input ≡ drop n (contents c.input ++ x ∷ xs))
          × ((consume handler (after b)).told ≡ c.told ++ on_data (contents c.input ++ x ∷ xs) ∷ [])
          × ((consume handler (after b)).recv_bytes ≡ (c.recv_bytes + length (x ∷ xs)) % 2 ^ 64)
    rest b j v' =
        let eq = consume-some handler (after b) (contents c.input ++ x ∷ xs) n j takes in
        (
          ap (λ d. contents d.input) eq ∙ (contents-erase (filled b) n v' small).0 ∙ ap (drop n) j,
          ap (λ d. d.told) eq,
          ap (λ d. d.recv_bytes) eq,
        )

-- onRead on an input that has no room for the read, neither in its block nor within its limit: the
-- close is reported to the manager, and then the handler is still given what the input holds. If its
-- answer is an error, a second close is reported.
pub on_read_overflow :
    (fresh : ℕ → ℕ) (handler : Handler) (net : ℕ → Received) (now : ℕ) (c : TcpConnection)
    → IsValid c.input
    → c.input.cap < Buffer.size c.input + max (Buffer.space c.input) 4096
    → c.input.limit < Buffer.size c.input + max (Buffer.space c.input) 4096
    → handler.consumes (contents c.input) ≡ none
    → ((on_read fresh handler net now c).told
        ≡ c.told ++ on_close ∷ on_data (contents c.input) ∷ on_initiative_close ∷ [])
      × ((on_read fresh handler net now c).status ≡ disconnected)
      × (contents (on_read fresh handler net now c).input ≡ contents c.input)
unfolding on_read after_read read_input reserved consume consumed handle_on_close
    handle_on_initiative_close
on_read_overflow fresh handler net now c v cap limit answer =
    let sz = max (Buffer.space c.input) 4096 in
    let small : Buffer.size c.input + sz < Buffer.size_mod = omega (arith, v.inside, v.small_cap) in
    let e = (reserve_throws fresh c.input sz v small).1 (cap, limit) in
    rw (e, answer)
      (
        ap (λ l. l ++ on_initiative_close ∷ [])
              (append_assoc c.told (on_close ∷ []) (on_data (contents c.input) ∷ []))
            ∙ append_assoc c.told (on_close ∷ on_data (contents c.input) ∷ [])
                (on_initiative_close ∷ []),
        refl,
        refl,
      )
