-- ===== src/Virtqueue/Transfer.antt =====
-- Two cores on one ring: the calls of both sides in any order, and what a client is promised of them.
use v85x_openamp.Base.{
  ℕ, ◌+◌, List, [], ◌∷◌, ◌++◌, Option, none, some, take, drop, length, ltb, leb, ◌==◌,
  if◌then◌else◌, ◌||◌, ◌%◌,
}
use v85x_openamp.Virtqueue.State.{
  Run, ok, ◌>>=◌, Env, Vring, VirtqueueBuf, Virtqueue, Status, success, vring_no_buff, u32,
}
use v85x_openamp.Virtqueue.Driver.{UsedBuffer, virtqueue_add_buffer, virtqueue_get_buffer}
use v85x_openamp.Virtqueue.Device.{
  AvailableBuffer, virtqueue_get_available_buffer, virtqueue_add_consumed_buffer,
}
use v85x_openamp.Virtqueue.Owner.{Chain, head}

-- The queue of each side, and the ring that they share.
pub record Session : Type 0 where
  pub driver_vq : Virtqueue
  pub device_vq : Virtqueue
  pub ring : Vring

-- A call of one of the sides.
pub data Action : Type 0 where
  offer : (ℕ → VirtqueueBuf) → ℕ → ℕ → ℕ → Action
  accept : Action
  report : ℕ → ℕ → Action
  reclaim : Action

-- What the caller sees: of a used buffer the cookie and the length.
pub data Reply : Type 0 where
  status : Status → Reply
  buffer : Option AvailableBuffer → Reply
  returned : Option (Option ℕ × ℕ) → Reply

abbrev pub seen : Option UsedBuffer → Option (Option ℕ × ℕ)
seen none = none
seen (some u) = some (u.cookie, u.len)

module _ (env : Env) where
  unfoldable pub act : Session → Action → Run (Reply × Session)
  act s (offer bufs readable writable cookie) = do
    (st, vq, vr) ← virtqueue_add_buffer env s.driver_vq s.ring bufs readable writable (some cookie)
    ok (status st, record s { driver_vq = vq; ring = vr })
  act s accept = do
    (got, vq) ← virtqueue_get_available_buffer env s.device_vq s.ring
    ok (buffer got, record s { device_vq = vq })
  act s (report idx len) = do
    (st, vq, vr) ← virtqueue_add_consumed_buffer env s.device_vq s.ring idx len
    ok (status st, record s { device_vq = vq; ring = vr })
  act s reclaim = do
    (got, vq, vr) ← virtqueue_get_buffer env s.driver_vq s.ring
    ok (returned (seen got), record s { driver_vq = vq; ring = vr })

  unfoldable pub run : Session → List Action → Run (List Reply × Session)
  run s [] = ok ([], s)
  run s (a ∷ as_) = do (r, s') ← act s a; (rs, s'') ← run s' as_; ok (r ∷ rs, s'')

-- Where the buffers are: free descriptors, chains offered and not yet accepted, chains that the device
-- holds, and chains reported used with the length written. Both queues are first in, first out.
pub record View : Type 0 where
  pub free : List ℕ
  pub offered : List Chain
  pub held : List Chain
  pub used : List (Chain × ℕ)

-- the chain with this head, and the others
unfoldable pub pick : ℕ → List Chain → Option (Chain × List Chain)
pick i [] = none
pick i (c ∷ cs) =
    if head c == i
    then some (c, cs)
    else elim (pick i cs) [ none ↦ none | some (d, ds) ↦ some (d, c ∷ ds) ]

module _ (env : Env) (n : ℕ) where
  abbrev pub chain_of : (ℕ → VirtqueueBuf) → ℕ → List ℕ → Chain
  chain_of bufs cookie ids = record {
    cookie = cookie;
    addr = env.virt_to_phys (bufs 0).buf;
    len = (bufs 0).len % u32;
    ids = ids;
  }

  -- `none` is a call that breaks the protocol: an offer of no buffers or of more than there are free
  -- descriptors, and a report of a buffer that the device does not hold.
  unfoldable pub promise : View → Action → Option (Reply × View)
  promise v (offer bufs readable writable cookie) =
      let needed = readable + writable in
      if (needed == 0) || ltb (length v.free) needed
      then none
      else some (
        status success,
        record v {
          free = drop needed v.free;
          offered = v.offered ++ (chain_of bufs cookie (take needed v.free) ∷ []);
        },
      )
  promise v accept = elim v.offered [
    | [] ↦ some (buffer none, v)
    | c ∷ cs ↦ some (
      buffer (some (record { buffer = env.phys_to_virt c.addr; avail_idx = head c; len = c.len })),
      record v { offered = cs; held = v.held ++ (c ∷ []) },
    )
  ]
  promise v (report idx len) =
      if leb n idx then some (status vring_no_buff, v) else elim (pick idx v.held) [
        | none ↦ none
        | some (c, cs) ↦
            some (status success, record v { held = cs; used = v.used ++ ((c, len) ∷ []) })
      ]
  promise v reclaim = elim v.used [
    | [] ↦ some (returned none, v)
    | (c, len) ∷ us ↦
        some (returned (some (some c.cookie, len)), record v { free = c.ids ++ v.free; used = us })
  ]

  unfoldable pub promise_all : View → List Action → Option (List Reply × View)
  promise_all v [] = some ([], v)
  promise_all v (a ∷ as_) = elim (promise v a) [
    | none ↦ none
    | some (r, v') ↦ elim (promise_all v' as_) [ none ↦ none | some (rs, v'') ↦ some (r ∷ rs, v'') ]
  ]
