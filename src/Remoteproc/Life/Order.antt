-- ===== src/Remoteproc/Life/Order.antt =====
-- The calls that a processor must have had before it runs.
use v85x_openamp.Base.{ℕ, ◌≡◌, List, [], ◌∷◌, ◌⊎◌, Option, some}
use v85x_openamp.Remoteproc.State.{RemoteprocState, ready, running, Remoteproc, RemoteprocOps}
use v85x_openamp.Remoteproc.Life.Diagram.{Call, config, start, step, Changed}

-- a call of remoteproc_start among the calls
pub data HasStart : List Call → Type 0 where
  first : {cs : List Call} → HasStart (start ∷ cs)
  later : {c : Call} {cs : List Call} → HasStart cs → HasStart (c ∷ cs)

-- a call of remoteproc_config, with one of remoteproc_start after it
pub data StartsConfigured : List Call → Type 0 where
  first : {d : ℕ} {cs : List Call} → HasStart cs → StartsConfigured (config d ∷ cs)
  later : {c : Call} {cs : List Call} → StartsConfigured cs → StartsConfigured (c ∷ cs)

-- what the calls hold that take a processor from a state to `running`
abbrev Leads : RemoteprocState → List Call → Type 0
Leads s cs = (s ≡ running) ⊎ ((s ≡ ready) × HasStart cs) ⊎ StartsConfigured cs

module _ {P : Type 0} (ops : RemoteprocOps P) where
  abbrev pub run : List Call → Option (Remoteproc P) → Option (Remoteproc P)
  run [] r = r
  run (c ∷ cs) r = run cs (step ops r c).1

  -- a call among the calls during which a callback changes the state of the processor
  pub data Meddled : List Call → Remoteproc P → Type 0 where
    now : {c : Call} {cs : List Call} {r : Remoteproc P} → Changed ops c r → Meddled (c ∷ cs) r
    later :
        {c : Call} {cs : List Call} {r : Remoteproc P} (next : Remoteproc P)
        → (step ops (some r) c).1 ≡ some next
        → Meddled cs next
        → Meddled (c ∷ cs) r
