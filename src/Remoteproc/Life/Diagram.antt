-- ===== src/Remoteproc/Life/Diagram.antt =====
-- The states of a remote processor as a diagram, and the calls along it.
use v85x_openamp.Base.{ℕ, ◌≡◌, ◌≢◌, if◌then◌else◌, ◌⊎◌, false, Option, some, ℤ, pos, is_zero}
use v85x_openamp.Remoteproc.State.{
  RemoteprocState, offline, ready, running, stopped, Remoteproc, RemoteprocOps,
}
use v85x_openamp.Remoteproc.Life.{
  remoteproc_remove, remoteproc_config, remoteproc_start, remoteproc_stop, remoteproc_shutdown,
  is_stopped, call,
}

pub data Call : Type 0 where
  config : ℕ → Call
  start stop shutdown remove : Call

-- `s` and `s'` before and after a call that returns 0
pub data Edge : Call → RemoteprocState → RemoteprocState → Type 0 where
  config_edge : {d : ℕ} → Edge (config d) offline ready
  start_edge : Edge start ready running
  stop_edge : {s : RemoteprocState} → s ≢ offline → Edge stop s stopped
  stop_offline : Edge stop offline offline
  shutdown_edge : {s : RemoteprocState} → Edge shutdown s offline
  remove_edge : Edge remove offline offline

module _ {P : Type 0} (ops : RemoteprocOps P) where
  abbrev pub step : Option (Remoteproc P) → Call → ℤ × Option (Remoteproc P)
  step r (config d) = remoteproc_config ops r d
  step r start = remoteproc_start ops r
  step r stop = remoteproc_stop ops r
  step r shutdown = remoteproc_shutdown ops r
  step r remove = remoteproc_remove ops r

  -- the processor as the callback `shutdown` gets it
  abbrev stopped_first : Remoteproc P → Remoteproc P
  stopped_first r = (if is_stopped r.state then (pos 0, r) else call ops (pos 0) ops.stop r).1

  -- A callback of the driver that the call makes changes the state of the processor that it is given.
  pub data Changed : Call → Remoteproc P → Type 0 where
    by_config :
        {d : ℕ} {f : Remoteproc P → ℕ → ℤ × Remoteproc P}
        → ops.config ≡ some f
        → (r : Remoteproc P) → (f r d).1.state ≢ r.state
        → Changed (config d) r
    by_start :
        {f : Remoteproc P → ℤ × Remoteproc P}
        → ops.start ≡ some f
        → (r : Remoteproc P) → (f r).1.state ≢ r.state
        → Changed start r
    by_stop :
        {c : Call} {f : Remoteproc P → ℤ × Remoteproc P}
        → (c ≡ stop) ⊎ (c ≡ shutdown)
        → ops.stop ≡ some f
        → (r : Remoteproc P) → (f r).1.state ≢ r.state
        → Changed c r
    by_shutdown :
        {f : Remoteproc P → ℤ × Remoteproc P}
        → ops.shutdown ≡ some f
        → (r : Remoteproc P) → (f (stopped_first r)).1.state ≢ (stopped_first r).state
        → Changed shutdown r
    by_remove :
        {f : Remoteproc P → Remoteproc P}
        → ops.remove ≡ some f
        → (r : Remoteproc P) → (f r).state ≢ r.state
        → Changed remove r

  -- A call that returns 0 follows the diagram, and any other one leaves the state as it is, but where a
  -- callback of a call that fails, or the callback `remove`, has changed it.
  abbrev pub Follows : Call → Remoteproc P → ℤ × Remoteproc P → Type 0
  Follows c r (ret, r') =
      ((ret ≡ pos 0) × Edge c r.state r'.state)
      ⊎ ((is_zero ret ≡ false) × (r'.state ≡ r.state))
      ⊎ (((is_zero ret ≡ false) ⊎ (c ≡ remove)) × Changed c r)
