-- ===== src/RingBuffer/Refine.antt =====
-- The calls of ringbuffer.c against the queue of the bytes that the buffer holds.
use native.Mathlib.Nat.{one-le-pow}
use native.Mathlib.Decide.{dec_lt}
use v85x_openamp.Base.{
  ℕ, ◌+◌, ◌-◌, ◌%◌, ◌^◌, ◌≤◌, ◌<◌, ◌≡◌, ◌≢◌, refl, sym, ap, ◌∙◌, List, [], ◌∷◌, ◌++◌, arith, length,
  drop, bit_and, update,
}
use v85x_openamp.Base.Bits.{bit_and_mask, mod-pow-mod-pow, pow-lt-pow}
use v85x_openamp.Base.Window.{window, window-push, window-pop, length-window}
use v85x_openamp.RingBuffer.Queue
use v85x_openamp.RingBuffer.Queue.{
  take_last, take_last_room, take_last_full, Op, put, take, num, flush, Reply,
}
use v85x_openamp.RingBuffer.{
  RingBuffer, u32, sub32, ringbuffer_get, ringbuffer_put, ringbuffer_num, ringbuffer_flush,
}

-- A buffer of `2 ^ k` slots, `k ≤ 32`: its mask, and indices that stand at most that far apart.
pub record IsValid (k : ℕ) (rb : RingBuffer) : Type 0 where
  pub width : k < 32
  pub mask : rb.size ≡ 2 ^ k - 1
  pub read_u32 : rb.read_index < 2 ^ 32
  pub write_u32 : rb.write_index < 2 ^ 32
  pub held : sub32 rb.write_index rb.read_index ≤ 2 ^ k

-- the bytes held, oldest first
abbrev pub contents : ℕ → RingBuffer → List ℕ
contents k rb = window (2 ^ k) rb.buf rb.read_index (sub32 rb.write_index rb.read_index)

module _ (k : ℕ) (width : k < 32) where
  fits : 2 ^ k < 2 ^ 32
  fits = ground (arith, pow-lt-pow k 32)

  wrap : (i : ℕ) → i % 2 ^ 32 % 2 ^ k ≡ i % 2 ^ k
  wrap i = mod-pow-mod-pow k 32 i (omega arith)

module _ {k : ℕ} {rb : RingBuffer} (v : IsValid k rb) where
  -- the slot that an index picks through the mask
  slot : (i : ℕ) → bit_and i rb.size ≡ i % 2 ^ k
  slot i = rw v.mask (bit_and_mask k i)

  pub ringbuffer_get-IsValid : IsValid k (ringbuffer_get rb).1
  unfolding ringbuffer_get
  ringbuffer_get-IsValid = ground arith

  pub ringbuffer_put-IsValid : (x : ℕ) → IsValid k (ringbuffer_put rb x)
  unfolding ringbuffer_put
  ringbuffer_put-IsValid x = ground (arith, one-le-pow k 2)

  -- the laws of `Window` at this buffer
  push :
      (x r : ℕ)
      → r < 2 ^ 32
      → sub32 rb.write_index r < 2 ^ k
      → window
          (2 ^ k)
          (update rb.buf (rb.write_index % 2 ^ k) x)
          r
          (sub32 ((rb.write_index + 1) % u32) r)
        ≡ window (2 ^ k) rb.buf r (sub32 rb.write_index r) ++ (x ∷ [])
  push x r hr =
      window-push (2 ^ k) u32 (fits k v.width) (wrap k v.width) rb.buf rb.write_index r v.write_u32
        hr x

  pop :
      rb.write_index ≢ rb.read_index
      → contents k rb
        ≡ rb.buf (rb.read_index % 2 ^ k)
          ∷ window
              (2 ^ k)
              rb.buf
              ((rb.read_index + 1) % u32)
              (sub32 rb.write_index ((rb.read_index + 1) % u32))
  pop =
      window-pop (2 ^ k) u32 (fits k v.width) (wrap k v.width) rb.buf rb.write_index rb.read_index
        v.write_u32 v.read_u32

  contents-put_room :
      (x : ℕ)
      → sub32 rb.write_index rb.read_index < 2 ^ k
      → contents k (ringbuffer_put rb x) ≡ contents k rb ++ (x ∷ [])
  unfolding ringbuffer_put
  contents-put_room x room =
      ground (arith, slot rb.write_index, one-le-pow k 2, push x rb.read_index v.read_u32 room)

  -- a full buffer gives up its oldest byte first
  contents-put_full :
      (x : ℕ)
      → sub32 rb.write_index rb.read_index ≡ 2 ^ k
      → contents k (ringbuffer_put rb x) ≡ drop 1 (contents k rb) ++ (x ∷ [])
  unfolding ringbuffer_put
  contents-put_full x full =
      let moved : sub32 rb.write_index rb.size ≡ (rb.read_index + 1) % u32 =
        ground (arith, one-le-pow k 2, fits k v.width) in
      let room : sub32 rb.write_index ((rb.read_index + 1) % u32) < 2 ^ k =
        ground (arith, one-le-pow k 2, fits k v.width) in
      ground (
        arith,
        slot rb.write_index,
        one-le-pow k 2,
        moved,
        push x ((rb.read_index + 1) % u32) (omega arith) room,
        pop (ground (arith, one-le-pow k 2)),
      )

  -- Storing a byte keeps the last `2 ^ k` bytes: the new one is never refused, and the oldest goes
  -- when the buffer is full.
  pub ringbuffer_put_refines :
      (x : ℕ) → contents k (ringbuffer_put rb x) ≡ take_last (2 ^ k) (contents k rb ++ (x ∷ []))
  ringbuffer_put_refines x = elim (dec_lt held (2 ^ k)) [
    | yes room ↦
        contents-put_room x room
        ∙ sym (take_last_room (2 ^ k) (contents k rb) x (omega (arith, size)))
    | no full ↦
        let whole : held ≡ 2 ^ k = omega (arith, v.held) in
        contents-put_full x whole
        ∙ sym
            (take_last_full (2 ^ k) (contents k rb) x (size ∙ whole) (one-le-pow k 2 (omega arith)))
  ]
    where
      held : ℕ
      held = sub32 rb.write_index rb.read_index

      size : length (contents k rb) ≡ held
      size = length-window (2 ^ k) rb.buf rb.read_index held

  pub ringbuffer_get_refines :
      let (out, rb') = ringbuffer_get rb in (out, contents k rb') ≡ Queue.get (contents k rb)
  unfolding ringbuffer_get Queue.get
  ringbuffer_get_refines = ground (
    arith,
    slot rb.read_index,
    pop,
    length-window (2 ^ k) rb.buf rb.read_index (sub32 rb.write_index rb.read_index),
  )

  pub ringbuffer_num_refines : ringbuffer_num rb ≡ length (contents k rb)
  unfolding ringbuffer_num
  ringbuffer_num_refines = sym (length-window (2 ^ k) rb.buf rb.read_index _)

  pub ringbuffer_flush_refines : contents k (ringbuffer_flush rb) ≡ []
  unfolding ringbuffer_flush
  ringbuffer_flush_refines = ground arith

  pub ringbuffer_flush-IsValid : IsValid k (ringbuffer_flush rb)
  unfolding ringbuffer_flush
  ringbuffer_flush-IsValid = ground arith

-- One call on the buffer, with what it returns.
step : RingBuffer → Op → Queue.Reply × RingBuffer
step rb (put x) = (Queue.stored, ringbuffer_put rb x)
step rb take = let (out, rb') = ringbuffer_get rb in (Queue.taken out, rb')
step rb num = (Queue.count (ringbuffer_num rb), rb)
step rb flush = (Queue.flushed, ringbuffer_flush rb)

pub run : RingBuffer → List Op → List Queue.Reply
unfolding step
run rb [] = []
run rb (op ∷ ops) = let (r, rb') = step rb op in r ∷ run rb' ops

module _ {k : ℕ} {rb : RingBuffer} (v : IsValid k rb) where
  step-IsValid : (op : Op) → IsValid k (step rb op).1
  unfolding step
  step-IsValid (put x) = ringbuffer_put-IsValid v x
  step-IsValid take = ringbuffer_get-IsValid v
  step-IsValid num = v
  step-IsValid flush = ringbuffer_flush-IsValid v

  step_refines :
      (op : Op)
      → let (r, rb') = step rb op in (r, contents k rb') ≡ Queue.step (2 ^ k) (contents k rb) op
  unfolding step Queue.step
  step_refines (put x) = ap (λ q. (Queue.stored, q)) (ringbuffer_put_refines v x)
  step_refines take = ap (λ (out, q). (Queue.taken out, q)) (ringbuffer_get_refines v)
  step_refines num = ap (λ c. (Queue.count c, contents k rb)) (ringbuffer_num_refines v)
  step_refines flush = ap (λ q. (Queue.flushed, q)) (ringbuffer_flush_refines v)

-- No sequence of calls tells a valid ring buffer from the queue of its bytes.
pub run_refines :
    (k : ℕ) (rb : RingBuffer) (ops : List Op)
    → IsValid k rb
    → run rb ops ≡ Queue.run (2 ^ k) (contents k rb) ops
unfolding run Queue.run
run_refines k rb [] v = refl
run_refines k rb (op ∷ ops) v =
    rw (run_refines k (step rb op).1 ops (step-IsValid v op), ← step_refines v op)
