-- ===== src/RingBuffer.antt =====
-- utils/ringbuffer.c: a byte ring with free-running 32-bit indices that overwrites its oldest byte.
pub mod Queue
pub mod Refine
pub mod Init
mod Tests
use v85x_openamp.Base.Window.{distance}
use v85x_openamp.Base.{
  ℕ, ◌+◌, ◌-◌, ◌%◌, ◌^◌, Bool, Option, none, some, bit_and, update, ltb, ◌==◌, if◌then◌else◌,
}

-- `ringbuffer_t`. `size` holds the mask: the number of slots less one. The bytes are memory by
-- index.
pub record RingBuffer : Type 0 where
  pub buf : ℕ → ℕ
  pub size : ℕ
  pub read_index : ℕ
  pub write_index : ℕ

abbrev pub u32 : ℕ
u32 = 2 ^ 32

-- subtraction on `uint32_t`
abbrev pub sub32 : ℕ → ℕ → ℕ
sub32 = distance u32

-- `none` is the return of -1, where `*rb` is left alone
pub ringbuffer_init : (ℕ → ℕ) → ℕ → Option RingBuffer
ringbuffer_init buf size =
    if bit_and size (sub32 size 1) == 0
    then some (record { buf = buf; size = sub32 size 1; read_index = 0; write_index = 0 })
    else none

-- The first part is the byte stored through `data`, `none` where nothing is stored. The return
-- value is 0 on both paths.
pub ringbuffer_get : RingBuffer → Option ℕ × RingBuffer
ringbuffer_get rb = if rb.write_index == rb.read_index then (none, rb) else (
  some (rb.buf (bit_and rb.read_index rb.size)),
  record rb { read_index = (rb.read_index + 1) % u32 },
)

-- the read index after the test for a full buffer
advance_read : RingBuffer → ℕ
advance_read rb =
    if ltb rb.size (sub32 rb.write_index rb.read_index)
    then sub32 rb.write_index rb.size
    else rb.read_index

pub ringbuffer_put : RingBuffer → ℕ → RingBuffer
unfolding advance_read
ringbuffer_put rb x = record rb {
  buf = update rb.buf (bit_and rb.write_index rb.size) x;
  read_index = advance_read rb;
  write_index = (rb.write_index + 1) % u32;
}

pub ringbuffer_num : RingBuffer → ℕ
ringbuffer_num rb = sub32 rb.write_index rb.read_index

pub ringbuffer_flush : RingBuffer → RingBuffer
ringbuffer_flush rb = record rb { read_index = rb.write_index }
