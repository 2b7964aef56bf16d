-- ===== src/Buffer.antt =====
-- ByteBuffer of utils/bytebuffer.h. Pointers into the block `_data` are offsets from it, and the
-- block is a function from offsets to bytes, of which the code owns those below `cap`.
pub mod Memory
pub mod Invariant
pub mod Reserve
pub mod Contents
pub mod Trim
pub mod Fifo
mod Runs
use lin_socket_io.Base.{
  ◌>>=◌, ℕ, zero, suc, ◌+◌, ◌-◌, ◌*◌, ◌/◌, ◌%◌, ◌^◌, Bool, true, false, ltb, leb, ◌==◌,
  if◌then◌else◌, Bytes, length, buffer_overflow, Result, ok, err,
}
use lin_socket_io.Buffer.Memory.{copy, store, le_bytes}

pub record ByteBuffer : Type 0 where
  pub mem : ℕ → ℕ
  pub head : ℕ
  pub tail : ℕ
  pub cap : ℕ
  pub limit : ℕ
  pub grow2x : Bool
  pub high_water_mark : ℕ
  -- `_data` is `_stackbuff`
  pub on_stack : Bool

abbrev pub size_mod : ℕ
size_mod = 2 ^ 64

abbrev pub u32_mod : ℕ
u32_mod = 2 ^ 32

-- `(size_t)-1`
abbrev pub npos : ℕ
npos = 2 ^ 64 - 1

-- BLOCK_SIZE
abbrev pub block_size : ℕ
block_size = 4096

abbrev pub xmin : ℕ → ℕ → ℕ
xmin a b = if ltb a b then a else b

abbrev pub xmax : ℕ → ℕ → ℕ
xmax a b = if ltb b a then a else b

abbrev pub size : ByteBuffer → ℕ
size b = b.tail - b.head

abbrev pub space : ByteBuffer → ℕ
space b = b.cap - b.tail

abbrev pub hole : ByteBuffer → ℕ
hole b = b.head

-- `sz + BLOCK_SIZE - 1 >> BLOCK_BITS << BLOCK_BITS`
pub blocked_size : ℕ → ℕ
blocked_size sz = (sz + block_size - 1) % size_mod / block_size * block_size

-- `for (n = _cap; n < sz; n <<= 1);`
pub grow : ℕ → ℕ → ℕ → ℕ
grow zero n sz = n
grow (suc fuel) n sz = let rest = grow fuel (n * 2 % size_mod) sz in if ltb n sz then rest else n

abbrev pub grow_fuel : ℕ
grow_fuel = 32

pub alloc_size : ByteBuffer → ℕ → Result ℕ
unfolding blocked_size
alloc_size b sz =
    if ltb b.limit sz
    then err buffer_overflow
    else if b.grow2x
    then ok (blocked_size (grow grow_fuel b.cap sz))
    else ok (blocked_size sz)

-- the constructor; `stack` is what `_stackbuff` holds
unfoldable pub init : (ℕ → ℕ) → Bool → ByteBuffer
init stack grow2x = record {
  mem = stack;
  head = 0;
  tail = 0;
  cap = 1024;
  limit = 64 * 1024 * 1024;
  grow2x = grow2x;
  high_water_mark = 0;
  on_stack = true;
}

-- limit(size_t n)
pub set_limit : ByteBuffer → ℕ → ByteBuffer
set_limit b n = record b { limit = xmax n (size b) % u32_mod }

unfoldable pub erase : ByteBuffer → ℕ → ByteBuffer × ℕ
erase b sz =
    let n = xmin (size b) sz in
    if sz == npos
    then (record b { head = 0; tail = 0 }, sz)
    else if leb b.tail (b.head + n)
    then (record b { head = 0; tail = 0 }, n)
    else (record b { head = b.head + n }, n)

pub recycle : ByteBuffer → ByteBuffer
recycle b = record b { mem = copy b.mem b.head (size b) b.mem; head = 0; tail = size b }

-- `_high_water_mark = xmax(_high_water_mark, size())`
abbrev pub mark : ByteBuffer → ByteBuffer
mark b = record b { high_water_mark = xmax b.high_water_mark (size b) }

-- `fresh` is what a block holds that `new char[n]` returns.
module _ (fresh : ℕ → ℕ) where
  -- the move to a new block of `n` bytes, as in alloc and in compact
  abbrev pub move_to : ByteBuffer → ℕ → ByteBuffer
  move_to b n = record b {
    mem = copy b.mem b.head (size b) fresh;
    head = 0;
    tail = size b;
    cap = n % u32_mod;
    on_stack = false;
  }

  pub alloc : ByteBuffer → ℕ → Result ByteBuffer
  alloc b n =
      if leb n (b.head + b.cap - b.tail)
      then ok (recycle b)
      else do new_cap ← alloc_size b ((size b + n) % size_mod); ok (move_to b new_cap)

  unfoldable pub reserve : ByteBuffer → ℕ → Result ByteBuffer
  reserve b n = if leb n (space b) then ok b else alloc b n

  pub resize : ByteBuffer → ℕ → Result ByteBuffer
  resize b n = do
    b' ← if ltb (size b) n then reserve b (n - size b) else ok b
    ok (mark (record b' { tail = b'.head + n }))

  -- The returned pointer is the old tail.
  unfoldable pub advance : ByteBuffer → ℕ → ByteBuffer × ℕ
  advance b n = (mark (record b { tail = xmin (b.tail + n) b.cap }), b.tail)

  pub forward : ByteBuffer → ℕ → Result (ByteBuffer × ℕ)
  forward b n = do b' ← reserve b n; ok (record b' { tail = b'.tail + n }, b'.tail)

  pub back : ByteBuffer → ℕ → ByteBuffer × ℕ
  back b n = (if leb n (size b) then record b { tail = b.tail - n } else b, b.tail)

  unfoldable pub write : ByteBuffer → Bytes → Result ByteBuffer
  write b dat = do
    b' ← reserve b (length dat)
    ok (mark (record b' { mem = store b'.mem b'.tail dat; tail = b'.tail + length dat }))

  -- `*((uint_t*)_tail) = v` for an unsigned type of `k` bytes, on a little-endian host
  abbrev pub write_word : ByteBuffer → ℕ → ℕ → Result ByteBuffer
  write_word b k v = do
    b' ← reserve b k
    ok (mark (record b' { mem = store b'.mem b'.tail (le_bytes k v); tail = b'.tail + k }))

  unfoldable pub write_u8 : ByteBuffer → ℕ → Result ByteBuffer
  write_u8 b v = write_word b 1 v

  unfoldable pub write_u16 : ByteBuffer → ℕ → Result ByteBuffer
  write_u16 b v = write_word b 2 v

  unfoldable pub write_u32 : ByteBuffer → ℕ → Result ByteBuffer
  write_u32 b v = write_word b 4 v

  unfoldable pub write_u64 : ByteBuffer → ℕ → Result ByteBuffer
  write_u64 b v = write_word b 8 v

  -- The second part is the number of bytes that were given back.
  pub compact : ByteBuffer → ℕ → ByteBuffer × ℕ
  compact b min_capacity =
      let new_cap = blocked_size (xmax (size b) min_capacity) in
      if leb b.cap min_capacity
      then (b, 0)
      else if leb (b.cap - size b) 1024
      then (b, 0)
      else (record (move_to b new_cap) { high_water_mark = size b }, b.cap - new_cap)

  -- `_cap - _high_water_mark` is a uint32_t difference, and the test reads half of it as an `int`.
  pub gc : ByteBuffer → ByteBuffer × ℕ
  gc b =
      let gcsize = (b.cap + u32_mod - b.high_water_mark) % u32_mod / 2 in
      if ltb gcsize 1024 then (b, 0) else compact b (size b + gcsize)
