-- ===== src/RingBuffer/Init.antt =====
-- `ringbuffer_init`: the sizes that it accepts, and the empty buffer that it makes.
use native.Mathlib.Nat.{one-le-pow}
use v85x_openamp.Base.{ℕ, ◌-◌, ◌^◌, ◌≤◌, ◌<◌, ◌≡◌, refl, none, some, [], arith, bit_and}
use v85x_openamp.Base.Bits.{IsPowerOfTwo, bit_and-pred_power, IsPowerOfTwo-of_and-pred, pow-lt-pow}
use v85x_openamp.RingBuffer.{RingBuffer, u32, sub32, ringbuffer_init}
use v85x_openamp.RingBuffer.Refine.{IsValid, contents}

-- A buffer of `2 ^ k` bytes, `k` below 32, is accepted, and holds nothing.
pub ringbuffer_init_power :
    (buf : ℕ → ℕ) (k : ℕ)
    → k < 32
    → (rb : RingBuffer) × (ringbuffer_init buf (2 ^ k) ≡ some rb)
      × IsValid k rb
      × (contents k rb ≡ [])
unfolding ringbuffer_init
ringbuffer_init_power buf k width =
    let pos : 1 ≤ 2 ^ k = one-le-pow k 2 (omega arith) in
    let fits : 2 ^ k < u32 = pow-lt-pow k 32 width in
    let pred : sub32 (2 ^ k) 1 ≡ 2 ^ k - 1 = omega (arith, pos, fits) in
    (
      record { buf = buf; size = 2 ^ k - 1; read_index = 0; write_index = 0 },
      ground (arith, pred, bit_and-pred_power k),
      record {
        width = width;
        mask = refl;
        read_u32 = omega arith;
        write_u32 = omega arith;
        held = omega arith;
      },
      refl,
    )

-- A positive 32-bit size that is no power of two is refused.
pub ringbuffer_init_refuses :
    (buf : ℕ → ℕ) (size : ℕ)
    → 0 < size
    → size < u32
    → ¬ IsPowerOfTwo size
    → ringbuffer_init buf size ≡ none
unfolding ringbuffer_init
ringbuffer_init_refuses buf size pos fits bad =
    let pred : sub32 size 1 ≡ size - 1 = omega (arith, pos, fits) in
    ground
      (arith, pred, λ (e : bit_and size (size - 1) ≡ 0). bad (IsPowerOfTwo-of_and-pred size pos e))
