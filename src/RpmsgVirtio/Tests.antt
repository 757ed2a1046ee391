-- ===== src/RpmsgVirtio/Tests.antt =====
-- The theorems on message buffers at a small device.
use v85x_openamp.Base.{ℕ, ◌+◌, ◌≡◌, refl, [], ◌∷◌, arith, Bool, true, false, Option, none, pos}
use v85x_openamp.Virtqueue.State.{ok, driver, device}
use v85x_openamp.Virtqueue.Owner.{Owns}
use v85x_openamp.Virtqueue.Samples.{checked, queue_of, linked_ring, fresh-Owns}
use v85x_openamp.RpmsgVirtio.State.{RpmsgHdr, ShmPool, RpmsgVirtioDevice}
use v85x_openamp.RpmsgVirtio.Buffers.{TxBuffer}
use v85x_openamp.RpmsgVirtio.Send.{wait_tx, not_supported}
use v85x_openamp.RpmsgVirtio.Init.{Config, first_buffers}
use v85x_openamp.RpmsgVirtio.Fill.{offers, first_buffers-Owns}
use v85x_openamp.Rpmsg.State.{rpmsg_success}
use v85x_openamp.Virtqueue.Samples.{all_free}
use v85x_openamp.RpmsgVirtio.Pool.{Apart, requests}
use v85x_openamp.Rpmsg.State.{Device}
use v85x_openamp.Rpmsg.Endpoint.{rpmsg_get_ept_from_addr, rpmsg_get_endpoint, find}
use v85x_openamp.Rpmsg.Samples.{bits, no_endpoint}
use v85x_openamp.RpmsgVirtio.Receive.{rx_round}
use v85x_openamp.RpmsgVirtio.Wait.{wait_tx_ends}
use v85x_openamp.RpmsgVirtio.Rx.{offered_again, rx_round-dropped}

-- held once, at the index 3
abbrev a_hdr : RpmsgHdr
a_hdr = record { src = 1; dst = 2; reserved = 65539; len = 0; flags = 0 }

abbrev a_pool : ShmPool
a_pool = record { base = 8192; size = 1024; avail = 1024 }

abbrev a_rvdev : RpmsgVirtioDevice
a_rvdev = record {
  role = driver;
  h2r_buf_size = 512;
  r2h_buf_size = 512;
  rvq = queue_of driver 4;
  rvring = linked_ring;
  svq = queue_of driver 4;
  svring = linked_ring;
  shpool = a_pool;
  reclaimer = [];
  hdr = λ b. a_hdr;
}

abbrev a_buffer : TxBuffer
a_buffer = record { data_ = 8192; len = 512; idx = 3 }

abbrev a_channel : Device (ℕ → Bool) RpmsgVirtioDevice
a_channel = record {
  endpoints = [];
  ept = λ p. no_endpoint;
  bitmap = λ b. false;
  bitnext = 0;
  ops = record {
    send_offchannel_raw = none;
    hold_rx_buffer = none;
    release_rx_buffer = none;
    get_tx_payload_buffer = none;
    send_offchannel_nocopy = none;
    release_tx_buffer = none;
    get_tx_buffer_size = none;
    get_rx_buffer_size = none;
  };
  support_ns = true;
  transport = a_rvdev;
}

nobody : rpmsg_get_ept_from_addr bits a_channel 2 ≡ none
unfolding rpmsg_get_ept_from_addr rpmsg_get_endpoint find
nobody = refl

rx_round-dropped_example :
    (d' : Device (ℕ → Bool) RpmsgVirtioDevice) × (rx_round bits checked
        (λ d p b len src. (pos 0, d))
        a_channel
        a_buffer
      ≡ ok d')
    × Owns 2 d'.transport.rvq d'.transport.rvring
        (1 ∷ 2 ∷ 3 ∷ [])
        (offered_again checked a_rvdev 8192 3 0 ∷ [])
    × (d'.ept ≡ a_channel.ept)
rx_round-dropped_example =
    rx_round-dropped bits checked (λ d p b len src. (pos 0, d)) 2 a_channel a_buffer 0
      (1 ∷ 2 ∷ 3 ∷ []) [] fresh-Owns refl (omega arith) nobody

-- nothing is offered to the device, and the other core does nothing
wait_tx_ends_example :
    (found : Option TxBuffer × RpmsgVirtioDevice) × (wait_tx
        (record checked { debug = false })
        (λ r. (not_supported, r))
        (λ r. r)
        4
        3
        (record a_rvdev { role = device })
      ≡ ok found)
wait_tx_ends_example =
    wait_tx_ends (record checked { debug = false }) (λ r. (not_supported, r)) (λ r. r) 4 3
      (record a_rvdev { role = device }) refl (λ r. refl) (λ r. refl) refl (omega arith)

abbrev a_config : Config
a_config = record { h2r_buf_size = 256; r2h_buf_size = 256; split_shpool = false }

-- four buffers fill the pool
first_buffers-Owns_example :
    (rvdev' : RpmsgVirtioDevice) × (first_buffers checked a_config driver a_pool a_pool a_rvdev
      ≡ ok (rpmsg_success, rvdev'))
    × Owns 2 rvdev'.rvq rvdev'.rvring [] (offers checked 256 (requests 256 4 a_pool) all_free [])
    × Apart 256 8192 9216 (requests 256 4 a_pool)
    × (rvdev'.shpool.avail + 1024 ≡ 1024)
first_buffers-Owns_example =
    first_buffers-Owns checked a_config 2 all_free a_pool a_pool a_rvdev fresh-Owns (omega arith)
      (omega arith) (omega arith)
