-- ===== src/Virtqueue/Refine.antt =====
-- Sequences of calls of both sides against the promise of `Transfer`.
use mathlib.Core.Path.{subst}
use v85x_openamp.Base.{
  ℕ, zero, suc, ◌+◌, ◌^◌, ◌≤◌, ◌<◌, ◌≡◌, refl, sym, ap, ◌∙◌, List, [], ◌∷◌, ◌++◌, arith, length,
  ltb, leb, ◌==◌, Option, none, some, ◌||◌, take, drop, Bool-cases, inl, inr,
}
use v85x_openamp.Virtqueue.State.{ok, Env, VirtqueueBuf, success}
use v85x_openamp.Virtqueue.Owner.{Chain, head}
use v85x_openamp.Virtqueue.Transfer.{
  Session, Action, offer, accept, report, reclaim, Reply, status, buffer, returned, act, run, View,
  pick, chain_of, promise, promise_all,
}
use v85x_openamp.Virtqueue.View.{Transfers, cut}
use v85x_openamp.Virtqueue.Steps.{
  offer_step, accept_empty, accept_step, report_refused, report_step, reclaim_empty, reclaim_step,
}

abbrev Picked : ℕ → List Chain → Option (Chain × List Chain) → Type 0
Picked i cs none = Unit
Picked i cs (some (c, ds)) =
    (pre : List Chain) × (post : List Chain) × (cs ≡ pre ++ c ∷ post)
    × (ds ≡ pre ++ post)
    × (head c ≡ i)

picked : (i : ℕ) (cs : List Chain) → Picked i cs (pick i cs)
unfolding pick
picked i [] = tt
picked i (b ∷ cs) = elim (Bool-cases (head b == i)) [
  | inl yes_ ↦ rw yes_ ([], cs, refl, refl, ground arith)
  | inr no_ ↦ rw no_ (later (pick i cs) (picked i cs))
]
  where
    later :
        (r : Option (Chain × List Chain))
        → Picked i cs r
        → Picked i (b ∷ cs) (elim r [ none ↦ none | some (d, ds) ↦ some (d, b ∷ ds) ])
    later none p = tt
    later (some (d, ds)) (pre, post, e, e', h) =
        (b ∷ pre, post, ap (λ l. b ∷ l) e, ap (λ l. b ∷ l) e', h)

module _ (env : Env) (k : ℕ) where
  -- the call answers what is promised, and the session holds what the view says then
  abbrev Kept : Session → Action → Option (Reply × View) → Type 0
  Kept s a none = Unit
  Kept s a (some (r, v')) = (s' : Session) × (act env s a ≡ ok (r, s')) × Transfers k s' v'

  offer-Kept :
      (s : Session) (v : View) (bufs : ℕ → VirtqueueBuf) (readable writable cookie : ℕ)
      → Transfers k s v
      → Kept s
          (offer bufs readable writable cookie)
          (promise env (2 ^ k) v (offer bufs readable writable cookie))
  unfolding promise
  offer-Kept s v bufs readable writable cookie t =
      elim (Bool-cases ((readable + writable == 0) || ltb (length v.free) (readable + writable))) [
        | inl bad ↦ rw bad tt
        | inr good ↦ rw good (
            go v.free (readable + writable) refl refl (ground (arith, good)) (ground (arith, good)))
      ]
    where
      go :
          (f : List ℕ) (n : ℕ)
          → v.free ≡ f
          → readable + writable ≡ n
          → 0 < n
          → n ≤ length f
          → Kept s (offer bufs readable writable cookie) (
              some (
                status success,
                record v {
                  free = drop n f;
                  offered = v.offered ++ (chain_of env (2 ^ k) bufs cookie (take n f) ∷ []);
                },
              ))
      go f zero e q pos fits = absurd (omega arith)
      go [] (suc n) e q pos fits = absurd (omega arith)
      go (x ∷ f) (suc n) e q pos fits =
          let (split, size) = cut n f (omega arith) in
          offer_step env k s v t bufs readable writable cookie x (take n f) (drop n f)
            (e ∙ ap (λ l. x ∷ l) split) (q ∙ ap suc (sym size))

  act_keeps :
      (s : Session) (v : View) (a : Action) → Transfers k s v → Kept s a (promise env (2 ^ k) v a)
  unfolding promise
  act_keeps s v (offer bufs readable writable cookie) t =
      offer-Kept s v bufs readable writable cookie t
  act_keeps s v accept t = go v.offered refl
    where
      go :
          (cs : List Chain)
          → v.offered ≡ cs
          → Kept s accept (elim cs [
            | [] ↦ some (buffer none, v)
            | c ∷ cs ↦ some (
              buffer (
                  some
                    (record { buffer = env.phys_to_virt c.addr; avail_idx = head c; len = c.len })),
              record v { offered = cs; held = v.held ++ (c ∷ []) },
            )
          ])
      go [] e = (s, accept_empty env k s v t e, t)
      go (c ∷ cs) e = accept_step env k s v t c cs e
  act_keeps s v (report idx len) t = elim (Bool-cases (leb (2 ^ k) idx)) [
    | inl high ↦ rw high (s, report_refused env k s v t idx len (ground (arith, high)), t)
    | inr low ↦ rw low (go (ground (arith, low)) (pick idx v.held) (picked idx v.held))
  ]
    where
      go :
          idx < 2 ^ k
          → (p : Option (Chain × List Chain)) → Picked idx v.held p
          → Kept s (report idx len) (elim p [
            | none ↦ none
            | some (c, cs) ↦
                some (status success, record v { held = cs; used = v.used ++ ((c, len) ∷ []) })
          ])
      go low none h = tt
      go low (some (c, cs)) (pre, post, e, e', h) =
          rw e' (report_step env k s v t idx len pre c post e h low)
  act_keeps s v reclaim t = go v.used refl
    where
      go :
          (us : List (Chain × ℕ))
          → v.used ≡ us
          → Kept s reclaim (elim us [
            | [] ↦ some (returned none, v)
            | (c, len) ∷ us ↦ some (
              returned (some (some c.cookie, len)),
              record v { free = c.ids ++ v.free; used = us },
            )
          ])
      go [] e = (s, reclaim_empty env k s v t e, t)
      go ((c, len) ∷ us) e = reclaim_step env k s v t c len us e

  abbrev KeptAll : Session → List Action → Option (List Reply × View) → Type 0
  KeptAll s acts none = Unit
  KeptAll s acts (some (rs, v')) =
      (s' : Session) × (run env s acts ≡ ok (rs, s')) × Transfers k s' v'

  run_keeps :
      (s : Session) (v : View) (acts : List Action)
      → Transfers k s v
      → KeptAll s acts (promise_all env (2 ^ k) v acts)
  unfolding promise_all run
  run_keeps s v [] t = (s, refl, t)
  run_keeps s v (a ∷ acts) t =
      go (promise env (2 ^ k) v a) (act_keeps s v a t) (λ s' v' t'. run_keeps s' v' acts t')
    where
      go :
          (p : Option (Reply × View))
          → Kept s a p
          → ((s' : Session) (v' : View)
              → Transfers k s' v'
              → KeptAll s' acts (promise_all env (2 ^ k) v' acts))
          → KeptAll s (a ∷ acts) (elim p [
            | none ↦ none
            | some (r, v') ↦ elim (promise_all env (2 ^ k) v' acts) [
              | none ↦ none
              | some (rs, v'') ↦ some (r ∷ rs, v'')
            ]
          ])
      go none h rest = tt
      go (some (r, v')) (s', call, t') rest =
          after (promise_all env (2 ^ k) v' acts) (rest s' v' t')
        where
          after :
              (p : Option (List Reply × View))
              → KeptAll s' acts p
              → KeptAll s (a ∷ acts) (elim p [ none ↦ none | some (rs, v'') ↦ some (r ∷ rs, v'') ])
          after none h = tt
          after (some (rs, v'')) (s'', more, t'') = (s'', rw (call, more) refl, t'')

  -- Calls of both sides, in any order that keeps the protocol: no assertion fails, every loop ends,
  -- each call answers what `promise_all` says, and the session then holds what the final view says.
  pub run_keeps_promise :
      (s : Session) (v : View) (acts : List Action) (rs : List Reply) (v' : View)
      → Transfers k s v
      → promise_all env (2 ^ k) v acts ≡ some (rs, v')
      → (s' : Session) × (run env s acts ≡ ok (rs, s')) × Transfers k s' v'
  run_keeps_promise s v acts rs v' t e = subst (λ p. KeptAll s acts p) e (run_keeps s v acts t)
