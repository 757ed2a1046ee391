-- ===== src/RingBuffer/Tests.antt =====
-- The theorems on the ring buffer at a buffer of four bytes, and a run past its end.
use v85x_openamp.Base.{◌≡◌, refl, List, [], ◌∷◌, arith}
use v85x_openamp.RingBuffer.{RingBuffer}
use v85x_openamp.RingBuffer.Queue
use v85x_openamp.RingBuffer.Queue.{Op, put, take, num, flush}
use v85x_openamp.RingBuffer.Refine.{IsValid, contents, run, run_refines}

-- two bytes before the index wraps
abbrev a_buffer : RingBuffer
a_buffer = record { buf = λ i. 0; size = 3; read_index = 4294967294; write_index = 4294967294 }

a_buffer-IsValid : IsValid 2 a_buffer
a_buffer-IsValid = record {
  width = omega arith;
  mask = refl;
  read_u32 = omega arith;
  write_u32 = omega arith;
  held = omega arith;
}

abbrev some_ops : List Op
some_ops = put 1 ∷ put 2 ∷ put 3 ∷ put 4 ∷ put 5 ∷ num ∷ take ∷ take ∷ flush ∷ take ∷ []

run_refines_example : run a_buffer some_ops ≡ Queue.run 4 (contents 2 a_buffer) some_ops
run_refines_example = run_refines 2 a_buffer some_ops a_buffer-IsValid
