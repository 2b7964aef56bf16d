-- ===== src/Socket.antt =====
-- Socket of core/handler.h and core/handler.cpp, and the flags and the calls of SocketHelper of
-- core/socket_helper.h. What a system call returns is an argument; the selector's own work on an
-- epoll descriptor is left out.
pub mod Selecting
use lin_socket_io.Base.{
  ℕ, Bool, true, false, ◌&&◌, ◌||◌, not, [], ◌∷◌, if◌then◌else◌, Bytes, remove, io_error, Result,
  ok, err,
}

-- A mask of SEL_READ and SEL_WRITE; no other bit is ever in `selevent`.
pub record Events : Type 0 where
  pub reads : Bool
  pub writes : Bool

abbrev pub sel_none : Events
sel_none = record { reads = false; writes = false }

abbrev pub sel_read : Events
sel_read = record { reads = true; writes = false }

abbrev pub sel_write : Events
sel_write = record { reads = false; writes = true }

abbrev pub sel_rw : Events
sel_rw = record { reads = true; writes = true }

-- SEL_ALL, all bits
abbrev pub sel_all : Events
sel_all = record { reads = true; writes = true }

-- `a | b`, `a & b` and `a & ~b`
abbrev pub join : Events → Events → Events
join a b = record { reads = a.reads || b.reads; writes = a.writes || b.writes }

abbrev pub both : Events → Events → Events
both a b = record { reads = a.reads && b.reads; writes = a.writes && b.writes }

abbrev pub minus : Events → Events → Events
minus a b = record { reads = a.reads && not b.reads; writes = a.writes && not b.writes }

abbrev pub is_none : Events → Bool
is_none a = not (a.reads || a.writes)

-- the socket with SockFlags
pub record Socket : Type 0 where
  pub valid : Bool
  pub connected : Bool
  pub shutdown_send : Bool
  pub shutdown_recv : Bool
  pub selected : Bool
  pub selevent : Events

-- SocketHelper()
abbrev pub socket_helper : Socket
socket_helper = record {
  valid = false;
  connected = false;
  shutdown_send = false;
  shutdown_recv = false;
  selected = false;
  selevent = sel_none;
}

-- attach(so)
abbrev pub attach : Socket → Socket
attach s = record s { valid = true; connected = true }

-- detach()
abbrev pub detach : Socket → Socket
detach s = socket_helper

-- Socket::select
unfoldable pub select : Socket → Events → Events → Result Socket
select s remove add =
    let sent = if s.shutdown_send then minus add sel_write else add in
    let wanted = if s.shutdown_recv then minus sent sel_read else sent in
    let gone = both (minus remove wanted) s.selevent in
    let new = minus wanted s.selevent in
    if not s.valid
    then err io_error
    else if is_none (join gone new)
    then ok s
    else ok (record s { selevent = join (minus s.selevent gone) new; selected = true })

-- Socket::remove
unfoldable pub remove_socket : Socket → Socket
remove_socket s = if s.selected then record s { selected = false } else s

-- What ::send returns: the count of the bytes that were taken, or a failure, which isIgnoreError
-- holds for or not.
pub data Sent : Type 0 where
  count : ℕ → Sent
  send_failed : (ignored : Bool) → Sent

-- SocketHelper::send
unfoldable pub send : Sent → Result ℕ
send (count n) = ok n
send (send_failed true) = ok 0
send (send_failed false) = err io_error

-- What ::recv returns: bytes, none of which means that the peer has closed, or a failure.
pub data Received : Type 0 where
  bytes : Bytes → Received
  recv_failed : (ignored : Bool) → Received

-- SocketHelper::recv
unfoldable pub recv : Received → Result Bytes
recv (bytes []) = err io_error
recv (bytes (x ∷ xs)) = ok (x ∷ xs)
recv (recv_failed true) = ok []
recv (recv_failed false) = err io_error

-- complete_nonblocking_connect(), given whether SO_ERROR names an error
abbrev pub complete_nonblocking_connect : Socket → Bool → Socket
complete_nonblocking_connect s failed = if failed then s else record s { connected = true }
