-- ===== src/Virtqueue/Rings.antt =====
-- How an entry that one side adds to a ring, and the other takes from it, is seen by both.
use mathlib.Core.Path.{subst}
use mathlib.Core.List.{append_assoc, append-nil}
use v85x_openamp.Base.{
  ℕ, ◌+◌, ◌%◌, ◌^◌, ◌<◌, ◌≡◌, ◌≢◌, refl, sym, ap, ◌∙◌, List, [], ◌∷◌, ◌++◌, arith, length, update,
}
use v85x_openamp.Base.Window.{window, distance, window-push, window-pop}
use v85x_openamp.Virtqueue.State.{Vring, VringDesc, VringUsedElem, Virtqueue, u16}
use v85x_openamp.Virtqueue.Chains.{IsChain}
use v85x_openamp.Virtqueue.Owner.{Chain, head, heads, Owns, Owns-move}
use v85x_openamp.Virtqueue.Transfer.{Session, View}
use v85x_openamp.Virtqueue.View.{
  chains_of, used_entries, Transfers, heads-append, used_entries-append, chains_of-append, narrow,
  wrap, offered_count, used_count,
}

pub to_back :
    (cs ds : List Chain) (c : Chain) (es : List Chain)
    → (cs ++ ds) ++ c ∷ es ≡ cs ++ ((ds ++ (c ∷ [])) ++ es)
to_back cs ds c es =
    append_assoc cs ds (c ∷ es) ∙ ap (λ l. cs ++ l) (sym (append_assoc ds (c ∷ []) es))

-- an entry of the used ring changes no ownership
pub Owns-used_ring :
    {k : ℕ} {vq : Virtqueue} {vr : Vring} {free : List ℕ} {busy : List Chain}
    (used_ring : ℕ → VringUsedElem) (used_idx : ℕ)
    → Owns k vq vr free busy
    → Owns k vq (record vr { used_ring = used_ring; used_idx = used_idx }) free busy
Owns-used_ring used_ring used_idx o = record {
  width = o.width;
  entries = o.entries;
  idle = o.idle;
  linked = o.linked;
  free_cnt = o.free_cnt;
  chains = o.chains;
  partition = o.partition;
  spare = o.spare;
}

-- a chain that passes from those held to those used
pub reported_Owns :
    {k : ℕ} {vq : Virtqueue} {vr : Vring} {free : List ℕ} (os pre : List Chain) (c : Chain)
    (post : List Chain) (us : List (Chain × ℕ)) (len : ℕ)
    → Owns k vq vr free (os ++ ((pre ++ c ∷ post) ++ chains_of us))
    → Owns k vq vr free (os ++ ((pre ++ post) ++ chains_of (us ++ ((c, len) ∷ []))))
reported_Owns {k} {vq} {vr} {free} os pre c post us len o =
    subst (λ b. Owns k vq vr free b) (simp (append_assoc, chains_of-append us ((c, len) ∷ [])))
      (Owns-move (os ++ pre) c (post ++ chains_of us) (os ++ ((pre ++ post) ++ chains_of us)) []
        (simp (append_assoc, append-nil)) (subst (λ b. Owns k vq vr free b) (simp append_assoc) o))

pub nonempty :
    (desc : ℕ → VringDesc) (is : List ℕ) → IsChain desc is → (x : ℕ) × (ys : List ℕ) × (is ≡ x ∷ ys)
nonempty desc [] h = absurd h
nonempty desc (x ∷ ys) h = (x, ys, refl)

pub none_ahead : (a b : ℕ) → a < u16 → b < u16 → distance u16 a b ≡ 0 → b ≡ a
none_ahead a b ha hb e = ground arith

pub some_ahead : (a b : ℕ) → b < u16 → distance u16 a b ≢ 0 → a ≢ b
some_ahead a b hb h e = h (ground arith)

module _ (k : ℕ) (s : Session) (v : View) (t : Transfers k s v) where
  pub push_offered :
      (c : Chain) (x : ℕ)
      → length v.offered < 2 ^ k
      → head c ≡ x
      → window
          (2 ^ k)
          (update s.ring.avail_ring (s.ring.avail_idx % 2 ^ k) x)
          s.device_vq.vq_available_idx
          (distance u16 ((s.ring.avail_idx + 1) % u16) s.device_vq.vq_available_idx)
        ≡ heads (v.offered ++ (c ∷ []))
  push_offered c x room h =
      window-push (2 ^ k) u16 (narrow k s v t) (wrap k s v t) s.ring.avail_ring s.ring.avail_idx
        s.device_vq.vq_available_idx t.avail_u16 t.accept_u16 x
        (omega (arith, (offered_count k s v t), room))
      ∙ ap (λ l. l ++ (x ∷ [])) t.offered
      ∙ ap (λ y. heads v.offered ++ (y ∷ [])) (sym h)
      ∙ sym (heads-append v.offered (c ∷ []))

  pub push_used :
      (c : Chain) (len : ℕ) (e : VringUsedElem)
      → length (chains_of v.used) < 2 ^ k
      → e ≡ record { id = head c; len = len }
      → window
          (2 ^ k)
          (update s.ring.used_ring (s.ring.used_idx % 2 ^ k) e)
          s.driver_vq.vq_used_cons_idx
          (distance u16 ((s.ring.used_idx + 1) % u16) s.driver_vq.vq_used_cons_idx)
        ≡ used_entries (v.used ++ ((c, len) ∷ []))
  push_used c len e room h =
      window-push (2 ^ k) u16 (narrow k s v t) (wrap k s v t) s.ring.used_ring s.ring.used_idx
        s.driver_vq.vq_used_cons_idx t.used_u16 t.cons_u16 e
        (omega (arith, (used_count k s v t), room))
      ∙ ap (λ l. l ++ (e ∷ [])) t.used
      ∙ ap (λ y. used_entries v.used ++ (y ∷ [])) h
      ∙ sym (used_entries-append v.used ((c, len) ∷ []))

  pub pop_offered :
      s.ring.avail_idx ≢ s.device_vq.vq_available_idx
      → s.ring.avail_ring (s.device_vq.vq_available_idx % 2 ^ k)
          ∷ window
              (2 ^ k)
              s.ring.avail_ring
              ((s.device_vq.vq_available_idx + 1) % u16)
              (distance u16 s.ring.avail_idx ((s.device_vq.vq_available_idx + 1) % u16))
        ≡ heads v.offered
  pop_offered ne =
      sym (
        window-pop (2 ^ k) u16 (narrow k s v t) (wrap k s v t) s.ring.avail_ring s.ring.avail_idx
          s.device_vq.vq_available_idx t.avail_u16 t.accept_u16 ne)
      ∙ t.offered

  pub pop_used :
      s.ring.used_idx ≢ s.driver_vq.vq_used_cons_idx
      → s.ring.used_ring (s.driver_vq.vq_used_cons_idx % 2 ^ k)
          ∷ window
              (2 ^ k)
              s.ring.used_ring
              ((s.driver_vq.vq_used_cons_idx + 1) % u16)
              (distance u16 s.ring.used_idx ((s.driver_vq.vq_used_cons_idx + 1) % u16))
        ≡ used_entries v.used
  pop_used ne =
      sym (
        window-pop (2 ^ k) u16 (narrow k s v t) (wrap k s v t) s.ring.used_ring s.ring.used_idx
          s.driver_vq.vq_used_cons_idx t.used_u16 t.cons_u16 ne)
      ∙ t.used
