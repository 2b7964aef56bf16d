-- ===== src/Tcp/Keeping.antt =====
-- The handlers of core/tcp_connection.cpp keep what holds between events, and the stream.
use lin_socket_io.Base.{
  Option, if_either, ◌-◌, ◌*◌, ◌+◌, some, arith, ◌<◌, Bytes, ℕ, ◌≡◌, refl, ap, ap₂, ◌∙◌, ◌⊎◌, inl,
  inr, Bool, true, false, ◌&&◌, ◌||◌, not, none, ◌==◌, if◌then◌else◌, Bool-cases, Error, Result, ok,
  err, ok-injective,
}
use lin_socket_io.Buffer.{ByteBuffer}
use lin_socket_io.Buffer.Invariant.{IsValid}
use lin_socket_io.Manager.{established, on_close, disconnected}
use lin_socket_io.Socket.{Sent, sel_read, sel_rw, sel_all, join, minus}
use lin_socket_io.Socket.Selecting.{remove_socket-IsUsable, IsUsable}
use lin_socket_io.Tcp.{
  flush, on_write, contents, Callback, TcpConnection, Outcome, Handler, and_then, select,
  handle_on_close, handle_on_initiative_close, tell, unregister, on_close, on_initiative_close,
  on_connected, on_data,
}
use lin_socket_io.Tcp.Flow.{flush_lem, Same, same_output, Same-trans}
use lin_socket_io.Tcp.Handling.{
  consumed, set_keepalive_timeout, on_write_event, on_timeout, consume, on_connected_event,
  or_close, handle_on_connected, handle_on_write,
}
use lin_socket_io.Tcp.Kept.{or_true, same-IsServed}
use lin_socket_io.Tcp.Served.{Steady-IsServed, flush-Flushed, IsServed, Flushed, wanted, select_lem}
use lin_socket_io.Tcp.Stream.{IsHonest, stream}
use lin_socket_io.Buffer

-- A step that keeps what holds, and the stream.
pub record Keeps (c d : TcpConnection) : Type 0 where
  pub served : IsServed d
  pub same : Same c d

pub Keeps-trans : (c d e : TcpConnection) → Keeps c d → Keeps d e → Keeps c e
Keeps-trans c d e first second = record {
  served = second.served;
  same = Same-trans c d e first.same second.same;
}

pub handle_on_close-Keeps :
    (c d : TcpConnection)
    → Same c d
    → IsUsable d.socket
    → Keeps c (handle_on_close d) × Keeps c (handle_on_initiative_close d)
unfolding handle_on_close handle_on_initiative_close stream
handle_on_close-Keeps c d same u = (closed on_close, closed on_initiative_close)
  where
    closed :
        (callback : Callback)
        → Keeps c (tell (unregister (record d { status = disconnected })) callback)
    closed callback = record {
      served = record {
        valid = same.still_valid;
        usable = remove_socket-IsUsable d.socket u;
        polls = λ e. cc;
        alarmed = inl refl;
      };
      same = record {
        still_valid = same.still_valid;
        grown = same.grown;
        same_limit = same.same_limit;
      };
    }

-- A step that changes neither output nor socket, status or timers.
pub frame-Keeps :
    (c d : TcpConnection)
    → IsServed c
    → d.output ≡ c.output
    → d.wire ≡ c.wire
    → d.socket ≡ c.socket
    → d.status ≡ c.status
    → d.timer ≡ c.timer
    → d.timeout ≡ c.timeout
    → Keeps c d
frame-Keeps c d served output wire socket status timer timeout = record {
  served = same-IsServed c d served output socket status timer timeout;
  same = same_output c d served.valid output wire;
}

-- A callback, which may throw, and then closes.
tell-Keeps :
    (throws : Bool) (callback : Callback) (c d : TcpConnection)
    → Keeps c d
    → Keeps c (if throws then handle_on_close (tell d callback) else tell d callback)
tell-Keeps throws callback c d keeps =
    if_either (Keeps c) throws _ _
      (λ _. (handle_on_close-Keeps c (tell d callback) told.same told.served.usable).0) (λ _. told)
  where
    told : Keeps c (tell d callback)
    told = record {
      served = same-IsServed d _ keeps.served refl refl refl refl refl;
      same = Same-trans c d _ keeps.same (same_output d _ keeps.served.valid refl refl);
    }

-- All events are removed, and those that are wanted are added.
all_selected :
    (d : TcpConnection) (flushed : Bool)
    → flushed ≡ (Buffer.size d.output == 0)
    → join (minus d.socket.selevent sel_all) (if flushed then sel_read else sel_rw) ≡ wanted d
all_selected d true e =
    ap₂ (λ r w. record { reads = r; writes = w }) (or_true _)
      (gone d.socket.selevent.writes ∙ ap not e)
  where
    gone : (b : Bool) → (b && false || false) ≡ false
    gone true = refl
    gone false = refl
all_selected d false e =
    ap₂ (λ r w. record { reads = r; writes = w }) (or_true _) (or_true _ ∙ ap not e)

answered :
    (d : TcpConnection) (flushed : Bool)
    → (ok flushed ≡ ok (Buffer.size d.output == 0))
      ⊎ ((e : Error) × (◌≡◌ {A = Result Bool} (ok flushed) (err e)))
    → flushed ≡ (Buffer.size d.output == 0)
answered d flushed (inl e) = ok-injective e
answered d flushed (inr (x, e)) = cc

consumed-Keeps :
    (c : TcpConnection) (callback : Callback) (answer : Option ℕ)
    → IsServed c
    → Keeps c (consumed (tell c callback) answer)
unfolding consumed
consumed-Keeps c callback none served =
    (handle_on_close-Keeps c (tell c callback) (same_output c _ served.valid refl refl)
      served.usable).1
consumed-Keeps c callback (some n) served = frame-Keeps c _ served refl refl refl refl refl refl

module _ (handler : Handler) where
  -- onConnected after flush.
  connected_rest-Keeps :
      (c : TcpConnection) (out : Outcome Bool)
      → Flushed c out
      → Same c out.0
      → c.socket.connected ≡ true
      → c.timer ≡ none
      → Keeps c (
          or_close
            (and_then out (λ f flushed. select f sel_all (if flushed then sel_read else sel_rw)))
            (λ f _. handle_on_connected handler f))
  unfolding or_close stream handle_on_connected
  connected_rest-Keeps c (d, err e) fl same conn idle =
      (handle_on_close-Keeps c d same fl.steady.usable).0
  connected_rest-Keeps c (d, ok flushed) fl same conn idle =
      let add = if flushed then sel_read else sel_rw in
      let (s, done, sel, conn', usable) = select_lem d sel_all add fl.steady.usable in
      rw done (
        tell-Keeps handler.connected_throws on_connected c (record d { socket = s })
          (record {
            served = record {
              valid = fl.steady.valid;
              usable = usable;
              polls = λ e. (
                conn' ∙ fl.steady.connected ∙ conn,
                sel ∙ all_selected d flushed (answered d flushed fl.answer),
              );
              alarmed = inl (fl.steady.timer ∙ idle);
            };
            same = record {
              still_valid = same.still_valid;
              grown = same.grown;
              same_limit = same.same_limit;
            };
          }))

  pub on_connected_event-Keeps :
      (net : Bytes → Sent) (now : ℕ) (c : TcpConnection)
      → IsHonest net
      → IsValid c.output
      → IsUsable c.socket
      → Keeps c (on_connected_event handler net now c)
  unfolding on_connected_event stream
  on_connected_event-Keeps net now c honest v u =
      if_either (Keeps c) c.socket.connected _ _
        (λ is.
          let e = record c { timer = none; status = established; last_recv = now } in
          let keeps =
            connected_rest-Keeps e (flush net e) (flush-Flushed net e honest v u)
              (flush_lem net e honest v) is refl in
          record {
            served = keeps.served;
            same = record {
              still_valid = keeps.same.still_valid;
              grown = keeps.same.grown;
              same_limit = keeps.same.same_limit;
            };
          })
        (λ isnt.
          (handle_on_close-Keeps c (record c { timer = none }) (same_output c _ v refl refl) u).0)

  pub consume-Keeps : (c : TcpConnection) → IsServed c → Keeps c (consume handler c)
  unfolding consume
  consume-Keeps c served =
      consumed-Keeps c (on_data (contents c.input)) (handler.consumes (contents c.input)) served

pub on_write_event-Keeps :
    (handler : Handler) (net : Bytes → Sent) (c : TcpConnection)
    → IsHonest net
    → IsServed c
    → Keeps c (on_write_event handler net c)
unfolding on_write_event handle_on_write or_close
on_write_event-Keeps handler net c honest served =
    written (flush net c) (flush-Flushed net c honest served.valid served.usable)
      (flush_lem net c honest served.valid)
  where
    written :
        (out : Outcome Bool)
        → Flushed c out
        → Same c out.0
        → Keeps c (or_close out (λ d flushed. if flushed then handle_on_write handler d else d))
    written (d, err e) fl same = (handle_on_close-Keeps c d same fl.steady.usable).0
    written (d, ok false) fl same = record {
      served = Steady-IsServed c d served fl.steady (λ e. fl.still_wanted (served.polls e).1);
      same = same;
    }
    written (d, ok true) fl same =
        let kept = Steady-IsServed c d served fl.steady (λ e. fl.still_wanted (served.polls e).1) in
        tell-Keeps handler.write_throws on_write c d (record { served = kept; same = same })

pub set_keepalive_timeout-Keeps :
    (c : TcpConnection) (msec : ℕ) → IsServed c → Keeps c (set_keepalive_timeout c msec)
unfolding set_keepalive_timeout
set_keepalive_timeout-Keeps c msec served = elim (Bool-cases (msec == 0)) [
  | inl zero_ ↦ rw zero_ (frame-Keeps c c served refl refl refl refl refl refl)
  | inr some_ ↦ rw some_ (record {
    served = record {
      valid = served.valid;
      usable = served.usable;
      polls = served.polls;
      alarmed = inr (inl (ground (arith, some_)));
    };
    same = same_output c _ served.valid refl refl;
  })
]

-- A keepalive alarm that fires on a connected socket.
pub on_timeout-Keeps :
    (now : ℕ) (c : TcpConnection)
    → IsServed c
    → 0 < c.timeout
    → (d : TcpConnection) × (on_timeout now c ≡ some d) × Keeps c d
unfolding on_timeout
on_timeout-Keeps now c served pos =
    elim (Bool-cases (c.timeout + c.last_recv * 1000 - now * 1000 == 0)) [
      | inl late ↦ (
        handle_on_initiative_close c,
        rw (not_zero, late) refl,
        (handle_on_close-Keeps c c (same_output c c served.valid refl refl) served.usable).1,
      )
      | inr early ↦ (
        record c { timer = some (c.timeout + c.last_recv * 1000 - now * 1000) },
        rw (not_zero, early) refl,
        record {
          served = record {
            valid = served.valid;
            usable = served.usable;
            polls = served.polls;
            alarmed = inr (inl pos);
          };
          same = same_output c _ served.valid refl refl;
        },
      )
    ]
  where
    not_zero : (c.timeout == 0) ≡ false
    not_zero = ground arith
