-- ===== src/Remoteproc/State.antt =====
-- The state of a remote processor and the operations of its driver (struct remoteproc, struct
-- remoteproc_mem, struct remoteproc_ops and the states of include/openamp/remoteproc.h).
use v85x_openamp.Base.{ℕ, Option, List, ℤ, negsuc}

-- `enum remoteproc_state`
pub data RemoteprocState : Type 0 where
  offline configured ready running suspended error_ stopped : RemoteprocState

-- `struct remoteproc_mem`; an I/O region is known by a number.
pub record RemoteprocMem : Type 0 where
  pub da : ℕ
  pub pa : ℕ
  pub size : ℕ
  pub name : List ℕ
  pub io : ℕ

-- `struct remoteproc`, less its lock, its list of virtio devices and its table of operations; pointers are
-- `none` for NULL. `priv` is what the driver keeps behind its pointer.
pub record Remoteproc (P : Type 0) : Type 0 where
  pub rsc_table : Option ℕ
  pub rsc_len : ℕ
  pub rsc_io : Option ℕ
  pub mems : List RemoteprocMem
  pub bitmap : ℕ
  pub bootaddr : ℕ
  pub loader : Option ℕ
  pub state : RemoteprocState
  pub priv : P

-- `struct remoteproc_ops`, the ones that remoteproc.c calls but for `handle_rsc` and `notify`
pub record RemoteprocOps (P : Type 0) : Type 0 where
  pub init : Option (Remoteproc P → Option (Remoteproc P))
  pub remove : Option (Remoteproc P → Remoteproc P)
  pub config : Option (Remoteproc P → ℕ → ℤ × Remoteproc P)
  pub start : Option (Remoteproc P → ℤ × Remoteproc P)
  pub stop : Option (Remoteproc P → ℤ × Remoteproc P)
  pub shutdown : Option (Remoteproc P → ℤ × Remoteproc P)
  pub get_mem :
      Option (Remoteproc P → Option (List ℕ) → ℕ → ℕ → Option ℕ → ℕ → Option RemoteprocMem)
  pub mmap : Option (Remoteproc P → ℕ → ℕ → ℕ → ℕ → Option ℕ × ℕ × ℕ × Option ℕ × Remoteproc P)

abbrev pub rproc_einval : ℤ
rproc_einval = negsuc 1

abbrev pub rproc_enodev : ℤ
rproc_enodev = negsuc 2

abbrev pub rproc_eagain : ℤ
rproc_eagain = negsuc 3
