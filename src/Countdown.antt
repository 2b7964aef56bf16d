-- ===== src/Countdown.antt =====
-- The timer wheel: Countdown of core/countdown.h and core/countdown.cpp, and Selector::timout_run of
-- core/selector.h. A handler is a number. The vector `m_falls` is a function of the index. An
-- `int` is a number where its sums stay below 2^31; select_timeout checks the one that need not.
pub mod Falls
pub mod Weights
pub mod Steps
pub mod Elapse
pub mod Invariant
pub mod Kept
pub mod Alarms
pub mod Place
pub mod Select
pub mod Selected
pub mod Timeline
mod Runs
use lin_socket_io.Base.{
  ℕ, zero, suc, ◌+◌, ◌-◌, ◌*◌, ◌^◌, Bool, true, false, Option, none, some, List, [], ◌∷◌, ◌++◌, ltb,
  leb, ◌==◌, if◌then◌else◌, get_or,
}

-- TIME_CLICK
abbrev pub time_click : ℕ
time_click = 5

-- m_falls.size()
abbrev pub falls_size : ℕ
falls_size = 13

-- m_falls_last_idx
abbrev pub last_idx : ℕ
last_idx = 12

-- Timeout: a node of a list
pub record Timeout : Type 0 where
  pub fallidx : ℕ
  pub handler : ℕ
  pub count : ℕ

pub record Fall : Type 0 where
  pub elapsed : ℕ
  pub timers : List Timeout

-- `m_fall`, as the constructor of Countdown sets it
abbrev pub fall_values : List ℕ
fall_values =
    0
    ∷ time_click
    ∷ time_click * 2
    ∷ time_click * 4
    ∷ time_click * 8
    ∷ time_click * 16
    ∷ time_click * 32
    ∷ time_click * 64
    ∷ time_click * 128
    ∷ time_click * 256
    ∷ time_click * 512
    ∷ time_click * 1024
    ∷ time_click * 2048
    ∷ []

abbrev pub m_fall : ℕ → ℕ
m_fall i = get_or fall_values i 0

pub record Countdown : Type 0 where
  pub falls : ℕ → Fall
  -- `isRegister(h->m_iter)`: the iterator of a handler is not null. It then points at the node of
  -- the handler.
  pub registered : ℕ → Bool

-- Countdown()
pub countdown : Countdown
countdown = record { falls = λ i. record { elapsed = 0; timers = [] }; registered = λ h. false }

-- `f` with another value at one place
abbrev pub put {ℓ} : {A : Type ℓ} → (ℕ → A) → ℕ → A → ℕ → A
put f i a j = if j == i then a else f j

-- the loop of find_fall_idx
pub scan_falls : ℕ → ℕ → ℕ
scan_falls timeout zero = 0
scan_falls timeout (suc i) =
    let rest = scan_falls timeout i in if leb (m_fall (suc i)) timeout then suc i else rest

pub find_fall_idx : ℕ → ℕ → ℕ
find_fall_idx timeout rbegin = scan_falls timeout (if ltb last_idx rbegin then last_idx else rbegin)

-- npos
abbrev pub no_idx : ℕ
no_idx = 2 ^ 64 - 1

-- Fall::insert, and where Fall::splice puts a node: at the end
abbrev pub insert_timer : Fall → Timeout → Fall
insert_timer f t = record f { timers = f.timers ++ t ∷ [] }

-- Fall::erase of the node of a handler
pub erase_timer : List Timeout → ℕ → List Timeout
erase_timer [] h = []
erase_timer (t ∷ ts) h = if t.handler == h then ts else t ∷ erase_timer ts h

-- `pos->count = timeout`
pub set_count : List Timeout → ℕ → ℕ → List Timeout
set_count [] h timeout = []
set_count (t ∷ ts) h timeout =
    if t.handler == h then record t { count = timeout } ∷ ts else t ∷ set_count ts h timeout

-- The node that the iterator of a handler points at, in one list and in the first n lists.
pub node_in : List Timeout → ℕ → Option Timeout
node_in [] h = none
node_in (t ∷ ts) h = if t.handler == h then some t else node_in ts h

pub node_below : ℕ → (ℕ → Fall) → ℕ → Option Timeout
node_below zero falls h = none
node_below (suc n) falls h = elim (node_in (falls n).timers h) [
  | none ↦ node_below n falls h
  | some t ↦ some t
]

-- `pos->fallidx`
pub pos_fallidx : Countdown → ℕ → ℕ
pos_fallidx c h = elim (node_below falls_size c.falls h) [ none ↦ 0 | some t ↦ t.fallidx ]

-- the falls without the node of a handler
pub erase_at : (ℕ → Fall) → ℕ → ℕ → ℕ → Fall
erase_at falls i h = put falls i (record (falls i) { timers = erase_timer (falls i).timers h })

-- select_timeout(s, timeout) for timeout < 0
pub remove_timeout : Countdown → ℕ → Countdown
remove_timeout c h =
    if c.registered h
    then record {
      falls = erase_at c.falls (pos_fallidx c h) h;
      registered = put c.registered h false;
    }
    else c

-- select_timeout(s, timeout) for a registered handler and timeout ≥ 0, to the fall `newidx` with the
-- count `timeout`
pub move_timeout : Countdown → ℕ → ℕ → ℕ → Countdown
move_timeout c h newidx timeout =
    let i = pos_fallidx c h in
    let moved = erase_at c.falls i h in
    if i == newidx
    then record c {
      falls =
          put c.falls i (record (c.falls i) { timers = set_count (c.falls i).timers h timeout });
    }
    else record c {
      falls =
          put moved newidx (
            insert_timer (moved newidx)
              (record { fallidx = newidx; handler = h; count = timeout }));
    }

-- select_timeout(s, timeout) for timeout ≥ 0, where the sum that is the count is an `int`
pub set_timeout : Countdown → ℕ → ℕ → Countdown
set_timeout c h timeout =
    let newidx = find_fall_idx timeout no_idx in
    let count = timeout + (c.falls newidx).elapsed in
    if c.registered h then move_timeout c h newidx count else record {
      falls =
          put c.falls newidx (
            insert_timer (c.falls newidx)
              (record { fallidx = newidx; handler = h; count = count }));
      registered = put c.registered h true;
    }

-- select_timeout(s, timeout) for timeout ≥ 0. `none`: `timeout += m_elasped` overflows, which is
-- undefined.
pub select_timeout : Countdown → ℕ → ℕ → Option Countdown
select_timeout c h timeout =
    if ltb (timeout + (c.falls (find_fall_idx timeout no_idx)).elapsed) (2 ^ 31)
    then some (set_timeout c h timeout)
    else none

-- next_timeout: the loop from `idx` on, for n lists
pub next_from : (ℕ → Fall) → ℕ → ℕ → ℕ
next_from falls zero idx = 1000 * 1000
next_from falls (suc n) idx =
    let rest = next_from falls n (idx + 1) in
    elim (falls idx).timers [ [] ↦ rest | t ∷ ts ↦ t.count - (falls idx).elapsed ]

pub next_timeout : Countdown → ℕ
next_timeout c = next_from c.falls falls_size 0

-- what click_elapse changes: the wheel, and the handlers in `result`
pub record Click : Type 0 where
  pub wheel : Countdown
  pub result : List ℕ

-- `m_iter = null_iter()`, and the node goes to the end of `result`.
pub fire : Click → ℕ → Click
fire s h = record {
  wheel = record (s.wheel) { registered = put s.wheel.registered h false };
  result = s.result ++ h ∷ [];
}

-- the nodes of the first list
pub fire_all : Click → List Timeout → Click
fire_all s [] = s
fire_all s (t ∷ ts) = fire_all (fire s t.handler) ts

abbrev pub set_fall : Click → ℕ → Fall → Click
set_fall s i f = record s { wheel = record (s.wheel) { falls = put s.wheel.falls i f } }

-- The body of the loop over the list of the fall `idx`, whose elapsed time is `spent`. A node that
-- stays is put at the end of the list that is left of those before it.
pub visit : ℕ → ℕ → Click → Timeout → Click
visit idx spent s t =
    let count = t.count - spent in
    let newidx = find_fall_idx count idx in
    let f = s.wheel.falls newidx in
    if leb t.count spent
    then fire s t.handler
    else if newidx == idx
    then set_fall s newidx (insert_timer f (record t { count = count }))
    else set_fall s newidx
        (insert_timer f (record t { count = count + f.elapsed; fallidx = newidx }))

pub sweep : ℕ → ℕ → Click → List Timeout → Click
sweep idx spent s [] = s
sweep idx spent s (t ∷ ts) = sweep idx spent (visit idx spent s t) ts

-- `m_falls[idx].m_elasped = 0`
pub reset_elapsed : ℕ → Click → Click
reset_elapsed idx s = set_fall s idx (record (s.wheel.falls idx) { elapsed = 0 })

-- the body of the loop over the falls
pub click_fall : ℕ → Click → ℕ → Click
click_fall elapsed s idx =
    let f = s.wheel.falls idx in
    let spent = f.elapsed + elapsed in
    if ltb spent (m_fall idx)
    then set_fall s idx (record f { elapsed = spent })
    else reset_elapsed idx
        (sweep idx spent (set_fall s idx (record { elapsed = spent; timers = [] })) f.timers)

-- the falls from 1 to n
pub click_falls : ℕ → Click → ℕ → Click
click_falls elapsed s zero = s
click_falls elapsed s (suc n) = click_fall elapsed (click_falls elapsed s n) (suc n)

-- click_elapse(result, elapsed) with an empty result
pub click_elapse : Countdown → ℕ → Click
click_elapse c elapsed =
    let f = c.falls 0 in
    let s = fire_all (record { wheel = c; result = [] }) f.timers in
    click_falls elapsed (set_fall s 0 (record f { timers = [] })) last_idx

-- the part of a Selector that timout_run uses
pub record Clock : Type 0 where
  pub wheel : Countdown
  -- `_elapsed`
  pub pending : ℕ

-- timout_run, with the handlers that get SEL_TIMEOUT
pub timout_run : Clock → ℕ → Clock × List ℕ
timout_run k elapsed =
    let total = k.pending + elapsed in
    let s = click_elapse k.wheel total in
    if ltb total time_click
    then (record k { pending = total }, [])
    else (record { wheel = s.wheel; pending = 0 }, s.result)
