-- ===== src/Future.antt =====
-- Promise and IFuture of core/future.h, the futures of a Connection of core/connection.h, and the
-- timeout of Future in core/future.cpp. A future is named by a number (its object), a reply and an
-- exception code are numbers, and a sequence number is the byte string that std::to_string makes.
pub mod Outcomes
mod Runs
use lin_socket_io.Base.{
  ℕ, ◌+◌, Bool, true, false, not, Option, none, some, [], ◌∷◌, if◌then◌else◌, Table, find, insert,
  remove,
}

-- Promise: `slot` is what the codec's reference holds (`none`: no codec is set), `code` likewise for
-- StatusCode, and `ex` is the code of the stored exception, 0 for none.
pub record Promise : Type 0 where
  pub slot : Option ℕ
  pub code : Option ℕ
  pub ex : ℕ
  pub done : Bool

pub new_promise : Promise
new_promise = record { slot = none; code = none; ex = 0; done = false }

-- `if(this->val) this->val->copy(&relay)`, and `if(this->code) this->code->set(...)`
abbrev pub store_in : Option ℕ → ℕ → Option ℕ
store_in none v = none
store_in (some old) v = some v

pub promise_set_value : Promise → ℕ → Promise
promise_set_value p msg = record p { done = true; slot = store_in p.slot msg }

pub promise_set_exception : Promise → ℕ → Promise
promise_set_exception p ex = record p { done = true; ex = ex; code = store_in p.code ex }

-- IFuture, with the number of calls of the virtual done()
pub record Future : Type 0 where
  pub promise : Promise
  pub dones : ℕ

pub new_future : Future
new_future = record { promise = new_promise; dones = 0 }

-- `if(!_promise.done);` has an empty body, so the block behind it always runs.
pub set_exception : Future → ℕ → Future
set_exception f e = record f { promise = promise_set_exception f.promise e; dones = f.dones + 1 }

pub set_value : Future → ℕ → Future
set_value f msg =
    if not f.promise.done
    then record f { promise = promise_set_value f.promise msg; dones = f.dones + 1 }
    else f

-- RpcException::INTERNAL_ERROR, TIMEOUT and CONNECTION_CLOSED
abbrev pub internal_error : ℕ
internal_error = 6

abbrev pub timeout_code : ℕ
timeout_code = 1006

abbrev pub connection_closed : ℕ
connection_closed = 1007

-- The map of a connection, `_futures`, and the futures that it points at. Keys are sequence numbers;
-- std::to_string tells different numbers apart, so the number stands for its string.
pub record Calls : Type 0 where
  pub futures : Table ℕ
  pub heap : Table Future

abbrev pub future_at : Calls → ℕ → Future
future_at c p = elim (find p c.heap) as (λ o. Future) [ none ↦ new_future | some f ↦ f ]

abbrev pub update_future : Calls → ℕ → (Future → Future) → Calls
update_future c p change = record c { heap = insert p (change (future_at c p)) c.heap }

-- Connection::push: a future that waits under the same number fails with "repeat sequence".
pub push : Calls → ℕ → ℕ → Calls
push c sn future =
    let c' = elim (find sn c.futures) as (λ o. Calls) [
      | none ↦ c
      | some old ↦
          let failed = update_future c old (λ f. set_exception f internal_error) in
          record failed { futures = remove sn c.futures }
    ] in
    record c' { futures = insert sn future c'.futures }

-- Connection::pop; `none` is the result false.
pub pop : Calls → ℕ → Calls × Option ℕ
pop c sn = elim (find sn c.futures) as (λ o. Calls × Option ℕ) [
  | none ↦ (c, none)
  | some f ↦ (record c { futures = remove sn c.futures }, some f)
]

-- Connection::remove
pub remove_call : Calls → ℕ → Calls
remove_call c sn = record c { futures = remove sn c.futures }

-- Connection::clear, from the destructor: in the order of the map, every future fails.
pub clear_from : Table ℕ → Calls → Calls
clear_from [] c = record c { futures = [] }
clear_from ((sn, f) ∷ rest) c =
    clear_from rest (update_future c f (λ g. set_exception g connection_closed))

pub clear : Calls → Calls
clear c = clear_from c.futures c

-- Future::timeout, for a future whose connection is found
pub timeout : Calls → ℕ → ℕ → Calls
timeout c sn f =
    if (future_at c f).promise.done
    then c
    else update_future (remove_call c sn) f (λ g. set_exception g timeout_code)

-- AsyncFuture::timeout has no test.
pub async_timeout : Calls → ℕ → ℕ → Calls
async_timeout c sn f = update_future (remove_call c sn) f (λ g. set_exception g timeout_code)
