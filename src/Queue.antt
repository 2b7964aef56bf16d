-- ===== src/Queue.antt =====
-- MessageQueue and the pipe of Notifier of core/queue.h and core/queue.cpp. Each operation holds the
-- spin lock, so it is one step. A message is what its pointer stands for, any type.
pub mod Wakeup
use lin_socket_io.Base.{
  ℕ, ◌+◌, Bool, true, false, ◌||◌, Option, none, some, List, [], ◌∷◌, ◌++◌, ltb, if◌then◌else◌,
  length,
}

-- The signal bytes in the pipe stand as their number. A write to a full pipe fails with EAGAIN, which
-- notify() takes for success. `closed`: a write failed for another reason.
pub record Pipe : Type 0 where
  pub waiting : ℕ
  pub capacity : ℕ
  pub closed : Bool

-- Notifier::notify
pub notify : Pipe → Pipe × Bool
notify p =
    if p.closed
    then (p, false)
    else if ltb p.waiting p.capacity
    then (record p { waiting = p.waiting + 1 }, true)
    else (p, true)

-- Notifier::read takes up to 1024 bytes at a time until a read is short: all that wait.
pub read_all : Pipe → Pipe
read_all p = record p { waiting = 0 }

module _ {ℓ} {A : Type ℓ} where
  pub is_empty : List A → Bool
  is_empty [] = true
  is_empty (x ∷ xs) = false

pub record Queue {ℓ} (A : Type ℓ) : Type ℓ where
  pub messages : List A
  pub pipe : Pipe
  -- `_notify`: notify at the next push in any case
  pub force : Bool

module _ {ℓ} {A : Type ℓ} where
  pub init : Pipe → Queue A
  init p = record { messages = []; pipe = p; force = true }

  pub push : Queue A → A → Queue A
  unfolding is_empty notify
  push q msg =
      let must = is_empty q.messages || q.force in
      let p = (notify q.pipe).0 in
      if must
      then record q { messages = q.messages ++ msg ∷ []; force = false; pipe = p }
      else record q { messages = q.messages ++ msg ∷ [] }

  pub pop_from : List A → Queue A → Queue A × Option A
  pop_from [] q = (record q { force = true }, none)
  pop_from (x ∷ xs) q = (record q { messages = xs }, some x)

  pub pop : Queue A → Queue A × Option A
  unfolding pop_from
  pop q = pop_from q.messages q

  pub get : Queue A → Queue A × List A
  get q = (record q { messages = []; force = true }, q.messages)

  pub size : Queue A → ℕ
  size q = length q.messages
