-- ===== src/Remoteproc/Life/States.antt =====
-- The states of a remote processor can be told apart.
use native.Mathlib.Decide.{ℕ_discrete}
use v85x_openamp.Base.{ℕ, zero, suc, ◌≡◌, refl, sym, ◌∙◌, ap}
use v85x_openamp.Remoteproc.State.{
  RemoteprocState, offline, configured, ready, running, suspended, error_, stopped,
}

-- the states as numbers
abbrev code : RemoteprocState → ℕ
code offline = 0
code configured = 1
code ready = 2
code running = 3
code suspended = 4
code error_ = 5
code stopped = 6

abbrev decoded : ℕ → RemoteprocState
decoded zero = offline
decoded (suc zero) = configured
decoded (suc (suc zero)) = ready
decoded (suc (suc (suc zero))) = running
decoded (suc (suc (suc (suc zero)))) = suspended
decoded (suc (suc (suc (suc (suc zero))))) = error_
decoded (suc (suc (suc (suc (suc (suc n)))))) = stopped

decoded-code : (s : RemoteprocState) → decoded (code s) ≡ s
decoded-code offline = refl
decoded-code configured = refl
decoded-code ready = refl
decoded-code running = refl
decoded-code suspended = refl
decoded-code error_ = refl
decoded-code stopped = refl

pub dec_state : (s s' : RemoteprocState) → Dec (s ≡ s')
dec_state s s' = elim (ℕ_discrete (code s) (code s')) [
  | yes e ↦ yes (sym (decoded-code s) ∙ ap decoded e ∙ decoded-code s')
  | no ne ↦ no (λ e. ne (ap code e))
]
