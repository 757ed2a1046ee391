-- ===== src/Remoteproc/Life.antt =====
-- remoteproc.c: the life of a remote processor, from remoteproc_init to remoteproc_remove. `none` is a
-- NULL pointer; the lock is held throughout each call.
pub mod States
pub mod Diagram
pub mod Order
use v85x_openamp.Base.{
  ℕ, Bool, true, false, not, ◌||◌, Option, none, some, [], if◌then◌else◌, ℤ, pos, is_zero,
}
use v85x_openamp.Remoteproc.State.{
  RemoteprocState, offline, configured, ready, running, suspended, error_, stopped, Remoteproc,
  RemoteprocOps, rproc_einval, rproc_enodev, rproc_eagain,
}

abbrev pub is_offline : RemoteprocState → Bool
is_offline offline = true
is_offline _ = false

abbrev pub is_ready : RemoteprocState → Bool
is_ready ready = true
is_ready _ = false

abbrev pub is_stopped : RemoteprocState → Bool
is_stopped stopped = true
is_stopped _ = false

module _ {P : Type 0} (ops : RemoteprocOps P) where
  -- the memory after `memset` and the assignments that follow it
  abbrev pub blank : P → Remoteproc P
  blank priv = record {
    rsc_table = none;
    rsc_len = 0;
    rsc_io = none;
    mems = [];
    bitmap = 0;
    bootaddr = 0;
    loader = none;
    state = offline;
    priv = priv;
  }

  -- for pointers that are not NULL
  unfoldable pub remoteproc_init : P → Option (Remoteproc P)
  remoteproc_init priv = elim ops.init [ none ↦ some (blank priv) | some f ↦ f (blank priv) ]

  -- a callback that may be NULL, with the result that stands without it
  abbrev pub call : ℤ → Option (Remoteproc P → ℤ × Remoteproc P) → Remoteproc P → ℤ × Remoteproc P
  call ret none r = (ret, r)
  call ret (some f) r = f r

  abbrev pub with_data :
      Option (Remoteproc P → ℕ → ℤ × Remoteproc P) → ℕ → Option (Remoteproc P → ℤ × Remoteproc P)
  with_data none data_ = none
  with_data (some f) data_ = some (λ r. f r data_)

  abbrev pub enter : RemoteprocState → ℤ × Remoteproc P → ℤ × Remoteproc P
  enter s (ret, r) = if is_zero ret then (ret, record r { state = s }) else (ret, r)

  unfoldable pub remove_locked : Remoteproc P → ℤ × Remoteproc P
  remove_locked r =
      if is_offline r.state
      then (pos 0, elim ops.remove [ none ↦ r | some f ↦ f r ])
      else (rproc_eagain, r)

  unfoldable pub config_locked : Remoteproc P → ℕ → ℤ × Remoteproc P
  config_locked r data_ =
      if is_offline r.state
      then enter ready (call (pos 0) (with_data ops.config data_) r)
      else (rproc_einval, r)

  unfoldable pub start_locked : Remoteproc P → ℤ × Remoteproc P
  start_locked r =
      if is_ready r.state then enter running (call rproc_enodev ops.start r) else (rproc_einval, r)

  unfoldable pub stop_locked : Remoteproc P → ℤ × Remoteproc P
  stop_locked r =
      let (ret, r') = call rproc_enodev ops.stop r in
      if is_stopped r.state || is_offline r.state
      then (pos 0, r)
      else if is_zero ret
      then (ret, record r' { state = stopped; bitmap = 0 })
      else (ret, r')

  unfoldable pub shutdown_locked : Remoteproc P → ℤ × Remoteproc P
  shutdown_locked r =
      let (ret, r') = if is_stopped r.state then (pos 0, r) else call (pos 0) ops.stop r in
      if is_offline r.state
      then (pos 0, r)
      else if is_zero ret
      then enter offline (call ret ops.shutdown r')
      else (ret, r')

  -- the test of the pointer around what is done under the lock
  abbrev pub guarded :
      ℤ → (Remoteproc P → ℤ × Remoteproc P) → Option (Remoteproc P) → ℤ × Option (Remoteproc P)
  guarded ret f none = (ret, none)
  guarded ret f (some r) = let (ret', r') = f r in (ret', some r')

  unfoldable pub remoteproc_remove : Option (Remoteproc P) → ℤ × Option (Remoteproc P)
  unfolding remove_locked
  remoteproc_remove r = guarded rproc_einval remove_locked r

  unfoldable pub remoteproc_config : Option (Remoteproc P) → ℕ → ℤ × Option (Remoteproc P)
  unfolding config_locked
  remoteproc_config r data_ = guarded rproc_enodev (λ r. config_locked r data_) r

  unfoldable pub remoteproc_start : Option (Remoteproc P) → ℤ × Option (Remoteproc P)
  unfolding start_locked
  remoteproc_start r = guarded rproc_enodev start_locked r

  unfoldable pub remoteproc_stop : Option (Remoteproc P) → ℤ × Option (Remoteproc P)
  unfolding stop_locked
  remoteproc_stop r = guarded rproc_enodev stop_locked r

  unfoldable pub remoteproc_shutdown : Option (Remoteproc P) → ℤ × Option (Remoteproc P)
  unfolding shutdown_locked
  remoteproc_shutdown r = guarded rproc_enodev shutdown_locked r
