-- ===== src/Virtqueue/Steps.antt =====
-- One call on a session, and the view of the session after it.
use mathlib.Core.Path.{subst}
use mathlib.Core.List.{append_assoc}
use v85x_openamp.Base.{
  ℕ, suc, ◌+◌, ◌-◌, ◌%◌, ◌^◌, ◌≤◌, ◌<◌, ◌≡◌, refl, sym, ap, ◌∙◌, List, [], ◌∷◌, ◌++◌, arith, length,
  length-append, update, bit_and, none, some, true,
}
use v85x_openamp.Base.Bits.{bit_and_mask}
use v85x_openamp.Virtqueue.State.{
  ok, Env, VirtqueueBuf, success, vring_no_buff, vqassert_holds, vqueue_busy, vqueue_idle, u16,
}
use v85x_openamp.Virtqueue.Driver.{virtqueue_get_buffer}
use v85x_openamp.Virtqueue.Device.{virtqueue_get_available_buffer, virtqueue_add_consumed_buffer}
use v85x_openamp.Virtqueue.Owner.{Chain, head, heads, ChainAt, Owns, Owns-move, AllAt-remove}
use v85x_openamp.Virtqueue.Offer.{virtqueue_add_buffer-Owns}
use v85x_openamp.Virtqueue.Reclaim.{virtqueue_get_buffer-Owns}
use v85x_openamp.Virtqueue.Transfer.{
  Session, offer, accept, report, reclaim, status, buffer, returned, act, View, chain_of,
}
use v85x_openamp.Virtqueue.View.{
  chains_of, used_entries, Transfers, chains_out, offered_count, used_count,
}
use v85x_openamp.Virtqueue.Rings.{
  to_back, Owns-used_ring, reported_Owns, nonempty, none_ahead, some_ahead, push_offered, push_used,
  pop_offered, pop_used,
}

module _ (env : Env) (k : ℕ) (s : Session) (v : View) (t : Transfers k s v) where
  pub accept_empty : v.offered ≡ [] → act env s accept ≡ ok (buffer none, s)
  unfolding act virtqueue_get_available_buffer vqueue_busy vqueue_idle
  accept_empty e = ground (
    arith,
    none_ahead s.ring.avail_idx s.device_vq.vq_available_idx t.avail_u16 t.accept_u16
        ((offered_count k s v t) ∙ ap (λ l. length l) e),
  )

  pub accept_step :
      (c : Chain) (cs : List Chain)
      → v.offered ≡ c ∷ cs
      → (s' : Session) × (act env s accept
          ≡ ok (
            buffer (
                some
                  (record { buffer = env.phys_to_virt c.addr; avail_idx = head c; len = c.len })),
            s',
          ))
        × Transfers k s' (record v { offered = cs; held = v.held ++ (c ∷ []) })
  unfolding act virtqueue_get_available_buffer vqueue_busy vqueue_idle
  accept_step c cs e =
      let ne =
        some_ahead s.ring.avail_idx s.device_vq.vq_available_idx t.accept_u16
          (λ z. ground (arith, (offered_count k s v t), z, e)) in
      let window_ = (pop_offered k s v t) ne ∙ ap (λ l. heads l) e in
      let here : ChainAt s.ring.desc s.driver_vq.vq_descx c = (rw e at t.owns.chains).0 in
      (
        record s {
          device_vq = record s.device_vq {
            vq_available_idx = (s.device_vq.vq_available_idx + 1) % u16;
          };
        },
        ground (
          arith,
          ne,
          t.idle,
          t.entries,
          bit_and_mask k s.device_vq.vq_available_idx,
          window_,
          here.addr,
          here.len,
          vqassert_holds env true,
        ),
        record {
          owns =
              subst (λ b. Owns k s.driver_vq s.ring v.free b)
                (to_back cs v.held c (chains_of v.used))
                (Owns-move [] c (cs ++ (v.held ++ chains_of v.used)) (cs ++ v.held)
                  (chains_of v.used) (sym (append_assoc cs v.held (chains_of v.used)))
                  (rw e at t.owns));
          entries = t.entries;
          idle = t.idle;
          avail_u16 = t.avail_u16;
          accept_u16 = omega arith;
          used_u16 = t.used_u16;
          cons_u16 = t.cons_u16;
          offered = ground (arith, window_);
          used = t.used;
        },
      )

  pub reclaim_empty : v.used ≡ [] → act env s reclaim ≡ ok (returned none, s)
  unfolding act virtqueue_get_buffer vqueue_busy vqueue_idle
  reclaim_empty e = ground (
    arith,
    none_ahead s.ring.used_idx s.driver_vq.vq_used_cons_idx t.used_u16 t.cons_u16
        ((used_count k s v t) ∙ ap (λ l. length (chains_of l)) e),
  )

  pub reclaim_step :
      (c : Chain) (len : ℕ) (us : List (Chain × ℕ))
      → v.used ≡ (c, len) ∷ us
      → (s' : Session) × (act env s reclaim ≡ ok (returned (some (some c.cookie, len)), s'))
        × Transfers k s' (record v { free = c.ids ++ v.free; used = us })
  unfolding act
  reclaim_step c len us e =
      let ne =
        some_ahead s.ring.used_idx s.driver_vq.vq_used_cons_idx t.cons_u16
          (λ z. ground (arith, (used_count k s v t), z, e)) in
      let window_ = (pop_used k s v t) ne ∙ ap (λ l. used_entries l) e in
      let o : Owns k s.driver_vq s.ring v.free ((v.offered ++ v.held) ++ c ∷ chains_of us) =
        subst (λ b. Owns k s.driver_vq s.ring v.free b)
          (sym (append_assoc v.offered v.held (c ∷ chains_of us))) (rw e at t.owns) in
      let (x, is, ids) =
        nonempty s.ring.desc c.ids
          (AllAt-remove s.ring.desc s.driver_vq.vq_descx (v.offered ++ v.held) c (chains_of us)
            o.chains).0.linked in
      let (vq', vr', call, owns', done) =
        virtqueue_get_buffer-Owns env k s.driver_vq s.ring c.cookie c.addr c.len x is v.free
          (v.offered ++ v.held) (chains_of us) (rw ids at o) (λ q. ne (sym q))
          (ground (arith, window_, ids)) in
      (
        record s { driver_vq = vq'; ring = vr' },
        ground (arith, call, window_),
        record {
          owns =
              subst (λ l. Owns k vq' vr' (l ++ v.free) (v.offered ++ (v.held ++ chains_of us)))
                (sym ids)
                (subst (λ b. Owns k vq' vr' (x ∷ is ++ v.free) b)
                  (append_assoc v.offered v.held (chains_of us)) owns');
          entries = t.entries;
          idle = t.idle;
          avail_u16 = omega (arith, done.avail_idx, t.avail_u16);
          accept_u16 = t.accept_u16;
          used_u16 = omega (arith, done.used_idx, t.used_u16);
          cons_u16 = omega (arith, done.cons_idx);
          offered = rw (done.avail_ring, done.avail_idx) t.offered;
          used = rw (done.used_ring, done.used_idx, done.cons_idx) (ground (arith, window_));
        },
      )

  pub report_refused :
      (idx len : ℕ) → 2 ^ k ≤ idx → act env s (report idx len) ≡ ok (status vring_no_buff, s)
  unfolding act virtqueue_add_consumed_buffer
  report_refused idx len h = ground (arith, h, t.entries)

  pub report_step :
      (idx len : ℕ) (pre : List Chain) (c : Chain) (post : List Chain)
      → v.held ≡ pre ++ c ∷ post
      → head c ≡ idx
      → idx < 2 ^ k
      → (s' : Session) × (act env s (report idx len) ≡ ok (status success, s'))
        × Transfers k s' (record v { held = pre ++ post; used = v.used ++ ((c, len) ∷ []) })
  unfolding act virtqueue_add_consumed_buffer vqueue_busy vqueue_idle
  report_step idx len pre c post e h low = (
    record s {
      device_vq = record s.device_vq { vq_queued_cnt = (s.device_vq.vq_queued_cnt + 1) % u16 };
      ring = record s.ring {
        used_ring =
            update s.ring.used_ring (bit_and s.ring.used_idx (s.device_vq.vq_nentries - 1))
              (record { id = idx; len = len });
        used_idx = (s.ring.used_idx + 1) % u16;
      };
    },
    ground (arith, t.idle, t.entries, low, vqassert_holds env true),
    record {
      owns = Owns-used_ring _ _ (reported_Owns v.offered pre c post v.used len (rw e at t.owns));
      entries = t.entries;
      idle = t.idle;
      avail_u16 = t.avail_u16;
      accept_u16 = t.accept_u16;
      used_u16 = omega arith;
      cons_u16 = t.cons_u16;
      offered = t.offered;
      used =
          rw (t.entries, bit_and_mask k s.ring.used_idx)
            ((push_used k s v t) c len (record { id = idx; len = len })
              (ground (arith, (chains_out k s v t), e, length-append pre (c ∷ post)))
              (ap (λ i. record { id = i; len = len }) (sym h)));
    },
  )

  pub offer_step :
      (bufs : ℕ → VirtqueueBuf) (readable writable cookie x : ℕ) (is rest : List ℕ)
      → v.free ≡ x ∷ is ++ rest
      → readable + writable ≡ suc (length is)
      → (s' : Session) × (act env s (offer bufs readable writable cookie) ≡ ok (status success, s'))
        × Transfers k s' (record v {
          free = rest;
          offered = v.offered ++ (chain_of env (2 ^ k) bufs cookie (x ∷ is) ∷ []);
        })
  unfolding act
  offer_step bufs readable writable cookie x is rest e needed =
      let o : Owns k s.driver_vq s.ring (x ∷ is ++ rest)
          (v.offered ++ (v.held ++ chains_of v.used)) =
        subst (λ f. Owns k s.driver_vq s.ring f (v.offered ++ (v.held ++ chains_of v.used))) e
          t.owns in
      let c = chain_of env (2 ^ k) bufs cookie (x ∷ is) in
      let (vq', vr', call, owns', done) =
        virtqueue_add_buffer-Owns env k s.driver_vq s.ring x is rest v.offered
          (v.held ++ chains_of v.used) o bufs readable writable cookie needed in
      (
        record s { driver_vq = vq'; ring = vr' },
        rw call,
        record {
          owns =
              subst (λ b. Owns k vq' vr' rest b)
                (sym (append_assoc v.offered (c ∷ []) (v.held ++ chains_of v.used))) owns';
          entries = t.entries;
          idle = t.idle;
          avail_u16 = omega (arith, done.avail_idx);
          accept_u16 = t.accept_u16;
          used_u16 = omega (arith, done.used_idx, t.used_u16);
          cons_u16 = omega (arith, done.cons_idx, t.cons_u16);
          offered =
              rw (done.avail_ring, done.avail_idx)
                ((push_offered k s v t) c x
                  (omega (arith, (chains_out k s v t), ap (λ l. length l) e)) refl);
          used = rw (done.used_ring, done.used_idx, done.cons_idx) t.used;
        },
      )
