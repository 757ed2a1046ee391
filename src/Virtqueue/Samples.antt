-- ===== src/Virtqueue/Samples.antt =====
-- Small queues for the tests: four descriptors, on memory that is zero but for the links.
use v85x_openamp.Base.{
  ℕ, ◌+◌, refl, List, [], ◌∷◌, arith, true, false, none, some, ◌==◌, if◌then◌else◌,
}
use v85x_openamp.Virtqueue.State.{Env, Vring, Virtqueue, driver, device, Role, chain_end}
use v85x_openamp.Virtqueue.Owner.{Chain, Owns}
use v85x_openamp.Virtqueue.Transfer.{Session}
use v85x_openamp.Virtqueue.View.{Transfers}

-- a build with the checks, and shared memory that is seen at its physical address
abbrev pub checked : Env
checked = record { debug = true; virt_to_phys = λ a. a; phys_to_virt = λ a. a }

abbrev pub queue_of : Role → ℕ → Virtqueue
queue_of role n = record {
  role = role;
  event_idx = true;
  vq_queue_index = 0;
  vq_nentries = n;
  has_callback = true;
  has_notify = true;
  vq_free_cnt = n;
  vq_queued_cnt = 0;
  vq_desc_head_idx = 0;
  vq_used_cons_idx = 0;
  vq_available_idx = 0;
  vq_inuse = false;
  vq_descx = λ i. record { cookie = none; ndescs = 0 };
}

abbrev pub linked_ring : Vring
linked_ring = record {
  num = 4;
  desc = λ i. record { addr = 0; len = 0; flags = 0; next = if i == 3 then chain_end else i + 1 };
  avail_flags = 0;
  avail_idx = 0;
  avail_ring = λ i. 0;
  used_flags = 0;
  used_idx = 0;
  used_ring = λ i. record { id = 0; len = 0 };
}

abbrev pub all_free : List ℕ
all_free = 0 ∷ 1 ∷ 2 ∷ 3 ∷ []

pub fresh-Owns : Owns 2 (queue_of driver 4) linked_ring all_free []
fresh-Owns = record {
  width = omega arith;
  entries = refl;
  idle = refl;
  linked = (refl, (refl, (refl, (refl, refl))));
  free_cnt = refl;
  chains = tt;
  partition = λ i. ground arith;
  spare = λ i h. refl;
}

-- a buffer of 16 bytes in the descriptors 0 and 1, reported used with 9 bytes
abbrev pub a_chain : Chain
a_chain = record { cookie = 7; addr = 4096; len = 16; ids = 0 ∷ 1 ∷ [] }

abbrev pub used_queue : Virtqueue
used_queue = record (queue_of driver 4) {
  vq_free_cnt = 2;
  vq_desc_head_idx = 2;
  vq_descx = λ i.
      if i == 0
      then record { cookie = some 7; ndescs = 2 }
      else record { cookie = none; ndescs = 0 };
}

abbrev pub used_vring : Vring
used_vring = record linked_ring {
  desc = λ i. record {
    addr = 4096;
    len = 16;
    flags = if i == 0 then 1 else 0;
    next = if i == 3 then chain_end else i + 1;
  };
  avail_idx = 1;
  used_idx = 1;
  used_ring = λ i. record { id = 0; len = 9 };
}

pub used-Owns : Owns 2 used_queue used_vring (2 ∷ 3 ∷ []) (a_chain ∷ [])
used-Owns = record {
  width = omega arith;
  entries = refl;
  idle = refl;
  linked = (refl, (refl, refl));
  free_cnt = refl;
  chains = (
    record {
      linked = (refl, refl, refl);
      direct = refl;
      cookie = refl;
      ndescs = refl;
      addr = refl;
      len = refl;
    },
    tt,
  );
  partition = λ i. ground arith;
  spare = λ i h. ground (arith, h);
}

abbrev pub a_session : Session
a_session = record {
  driver_vq = queue_of driver 4;
  device_vq = queue_of device 4;
  ring = linked_ring;
}

pub a_session-Transfers :
    Transfers 2 a_session (record { free = all_free; offered = []; held = []; used = [] })
a_session-Transfers = record {
  owns = fresh-Owns;
  entries = refl;
  idle = refl;
  avail_u16 = omega arith;
  accept_u16 = omega arith;
  used_u16 = omega arith;
  cons_u16 = omega arith;
  offered = refl;
  used = refl;
}
