-- ===== src/RpmsgVirtio/Fill.antt =====
-- The receive buffers that rpmsg_init_vdev_with_config offers to the other side.
use mathlib.Core.Path.{subst}
use v85x_openamp.Base.{
  sym, ap, ◌∙◌, ℤ, ℕ, suc, ◌+◌, ◌-◌, ◌*◌, ◌%◌, ◌≤◌, ◌<◌, ◌≡◌, refl, Bool, true, false, Option, none,
  some, List, [], ◌∷◌, arith, length, ◌^◌, if◌then◌else◌,
}
use v85x_openamp.Virtio.Rproc.{status_code}
use v85x_openamp.Virtqueue.State.{
  Run, ok, ◌>>=◌, Status, success, is_success, Env, Vring, Virtqueue, driver, u32,
}
use v85x_openamp.Virtqueue.Driver.{virtqueue_add_buffer}
use v85x_openamp.Virtqueue.Owner.{Chain, Owns, length_all}
use v85x_openamp.Virtqueue.Offer.{virtqueue_add_buffer-Owns}
use v85x_openamp.Rpmsg.State.{rpmsg_success, rpmsg_err_no_buff}
use v85x_openamp.RpmsgVirtio.State.{ShmPool, RpmsgVirtioDevice, rpmsg_virtio_shm_pool_get_buffer}
use v85x_openamp.RpmsgVirtio.Buffers.{one_buf}
use v85x_openamp.RpmsgVirtio.Pool.{requests, Apart, requests-Apart}
use v85x_openamp.RpmsgVirtio.Init.{Config, offer_buffers, first_buffers}

-- the chains of one buffer each that are offered, one for each descriptor, the last one first
abbrev pub offers : Env → ℕ → List ℕ → List ℕ → List Chain → List Chain
offers env size (b ∷ bs) (x ∷ xs) busy =
    offers env size bs xs
      (record { cookie = b; addr = env.virt_to_phys b; len = size % u32; ids = x ∷ [] } ∷ busy)
offers env size _ _ busy = busy

module _ (env : Env) (k size : ℕ) (some_size : 0 < size) where
  get_lem :
      (pool : ShmPool)
      → size ≤ pool.avail
      → rpmsg_virtio_shm_pool_get_buffer pool size
        ≡ (some (pool.base + pool.size - pool.avail), record pool { avail = pool.avail - size })
  unfolding rpmsg_virtio_shm_pool_get_buffer
  get_lem pool enough = ground (arith, some_size, enough)

  requests_step :
      (n : ℕ) (pool : ShmPool)
      → size ≤ pool.avail
      → requests size (suc n) pool
        ≡ (pool.base + pool.size - pool.avail)
          ∷ requests size n (record pool { avail = pool.avail - size })
  requests_step n pool enough =
      ap
        (λ (r : Option ℕ × ShmPool). elim r.0 as (λ _. List ℕ) [
          | none ↦ requests size n r.1
          | some b ↦ b ∷ requests size n r.1
        ])
        (get_lem pool enough)

  -- one round of the loop
  offer_step :
      (n : ℕ) (vq vq' : Virtqueue) (vr vr' : Vring) (pool : ShmPool)
      → size ≤ pool.avail
      → let b = pool.base + pool.size - pool.avail in
        virtqueue_add_buffer env vq vr (one_buf b size) 0 1 (some b) ≡ ok (success, vq', vr')
        → offer_buffers env size (suc n) vq vr pool
          ≡ offer_buffers env size n vq' vr' (record pool { avail = pool.avail - size })
  unfolding offer_buffers
  offer_step n vq vq' vr vr' pool enough call =
      let added = λ (b : ℕ) (pool' : ShmPool) (r : Run (Status × Virtqueue × Vring)).
        r >>= λ (status, w, v).
        elim (is_success status) as (λ _. Run (ℤ × Virtqueue × Vring × ShmPool)) [
          | true ↦ offer_buffers env size n w v pool'
          | false ↦ ok (status_code status, w, v, pool')
        ] in
      ap
        (λ (r : Option ℕ × ShmPool). elim r.0 as (λ _. Run (ℤ × Virtqueue × Vring × ShmPool)) [
          | none ↦ ok (rpmsg_err_no_buff, vq, vr, r.1)
          | some b ↦ added b r.1 (virtqueue_add_buffer env vq vr (one_buf b size) 0 1 (some b))
        ])
        (get_lem pool enough)
      ∙ ap (added (pool.base + pool.size - pool.avail) (record pool { avail = pool.avail - size }))
          call

  pub offer_buffers-Owns :
      (free : List ℕ) (vq : Virtqueue) (vr : Vring) (pool : ShmPool) (busy : List Chain)
      → Owns k vq vr free busy
      → length free * size ≤ pool.avail
      → (vq' : Virtqueue) × (vr' : Vring) × (pool' : ShmPool) × (offer_buffers env size
            (length free)
            vq
            vr
            pool
          ≡ ok (rpmsg_success, vq', vr', pool'))
        × Owns k vq' vr' [] (offers env size (requests size (length free) pool) free busy)
        × (pool'.avail + length free * size ≡ pool.avail)
  unfolding offer_buffers
  offer_buffers-Owns [] vq vr pool busy o enough = (vq, vr, pool, refl, o, omega arith)
  offer_buffers-Owns (x ∷ free) vq vr pool busy o enough =
      let first : size ≤ pool.avail = ground (arith, enough) in
      let b = pool.base + pool.size - pool.avail in
      let (vq1, vr1, call, owns1, done) =
        virtqueue_add_buffer-Owns env k vq vr x [] free [] busy o (one_buf b size) 0 1 b refl in
      let (vq', vr', pool', rest, owns, left) =
        offer_buffers-Owns free vq1 vr1 (record pool { avail = pool.avail - size }) _ owns1
          (ground (arith, enough)) in
      (
        vq',
        vr',
        pool',
        offer_step (length free) vq vq1 vr vr1 pool first call ∙ rest,
        subst (λ bs. Owns k vq' vr' [] (offers env size bs (x ∷ free) busy))
            (sym (requests_step (length free) pool first)) owns,
        ground (arith, left, enough),
      )

-- A driver that starts with an idle queue of `2 ^ k` free descriptors and a pool with room for as many
-- receive buffers, of at least one byte, offers all of them: each descriptor is in a chain of its own with the next buffer of
-- the pool, the buffers follow each other in the pool without overlap, and what is left of the pool
-- is for sending unless a second pool is.
pub first_buffers-Owns :
    (env : Env) (config : Config) (k : ℕ) (free : List ℕ) (pool behind : ShmPool)
    (rvdev : RpmsgVirtioDevice)
    → Owns k rvdev.rvq rvdev.rvring free []
    → 0 < config.r2h_buf_size
    → 2 ^ k * config.r2h_buf_size ≤ pool.avail
    → pool.avail ≤ pool.size
    → (rvdev' : RpmsgVirtioDevice) × (first_buffers env config driver pool behind rvdev
        ≡ ok (rpmsg_success, rvdev'))
      × Owns k rvdev'.rvq rvdev'.rvring []
          (offers env config.r2h_buf_size (requests config.r2h_buf_size (2 ^ k) pool) free [])
      × Apart config.r2h_buf_size
          (pool.base + (pool.size - pool.avail))
          (pool.base + pool.size)
          (requests config.r2h_buf_size (2 ^ k) pool)
      × (if config.split_shpool
          then rvdev'.shpool ≡ behind
          else (rvdev'.shpool.avail + 2 ^ k * config.r2h_buf_size ≡ pool.avail))
unfolding first_buffers
first_buffers-Owns env config k free pool behind rvdev o some_size room fits =
    let all : length free ≡ 2 ^ k = omega (arith, length_all o) in
    let (vq, vr, left, call, owns, spent) =
      offer_buffers-Owns env k config.r2h_buf_size some_size free rvdev.rvq rvdev.rvring pool [] o
        (rw all room) in
    (
      record rvdev { rvq = vq; rvring = vr; shpool = if config.split_shpool then behind else left },
      ap
          (λ r. r >>= λ (status, w, x, rest). ok (
            status,
            record rvdev {
              rvq = w;
              rvring = x;
              shpool = if config.split_shpool then behind else rest;
            },
          ))
          (ap (λ n. offer_buffers env config.r2h_buf_size n rvdev.rvq rvdev.rvring pool)
              (o.entries ∙ sym all)
            ∙ call),
      rw all at owns,
      requests-Apart config.r2h_buf_size (2 ^ k) pool fits,
      shares config.split_shpool left (rw all at spent),
    )
  where
    shares :
        (b : Bool) (left : ShmPool)
        → left.avail + 2 ^ k * config.r2h_buf_size ≡ pool.avail
        → (if b
            then (if b then behind else left) ≡ behind
            else ((if b then behind else left).avail + 2 ^ k * config.r2h_buf_size ≡ pool.avail))
    shares true left e = refl
    shares false left e = e
