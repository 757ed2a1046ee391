-- ===== src/Rpmsg/Samples.antt =====
-- A device with one endpoint, on a bitmap that is a function.
use v85x_openamp.Base.{
  ℕ, zero, suc, ◌+◌, ◌≤◌, ◌≡◌, refl, [], ◌∷◌, arith, Bool, true, false, none, some, ◌==◌,
  if◌then◌else◌, update,
}
use v85x_openamp.Rpmsg.State.{Bitmap, Endpoint, DeviceOps, Device, rpmsg_addr_bmp_size}
use v85x_openamp.Rpmsg.Valid.{IsValid}

-- the first clear bit among `b` to `b + r`, or `b + r`
abbrev pub clear_from : (ℕ → Bool) → ℕ → ℕ → ℕ
clear_from m b zero = b
clear_from m b (suc r) = if m b then clear_from m (b + 1) r else b

pub clear_from-lt : (m : ℕ → Bool) (b r : ℕ) → clear_from m b r ≤ b + r
clear_from-lt m b zero = omega arith
clear_from-lt m b (suc r) = ground (arith, clear_from-lt m (b + 1) r)

pub clear_from-clear :
    (m : ℕ → Bool) (b r free : ℕ)
    → b ≤ free
    → free ≤ b + r
    → m free ≡ false
    → m (clear_from m b r) ≡ false
clear_from-clear m b zero free h k e = ground (arith, h, k, e)
clear_from-clear m b (suc r) free h k e = ground (arith, h, k, e, clear_from-clear m (b + 1) r free)

-- A bitmap whose search begins at bit 0 wherever it is asked to start.
abbrev pub bits : Bitmap rpmsg_addr_bmp_size
bits = record {
  Bits = ℕ → Bool;
  is_bit_set = λ m b. m b;
  set_bit = λ m b. update m b true;
  clear_bit = λ m b. update m b false;
  next_clear_bit = λ m start. clear_from m 0 127;
  is_bit_set-set_bit = λ m b c h. refl;
  is_bit_set-clear_bit = λ m b c h. refl;
  next_clear_bit-lt = λ m start. omega (arith, clear_from-lt m 0 127);
  next_clear_bit-clear =
      λ m start free h e. clear_from-clear m 0 127 free (omega arith) (omega arith) e;
}

-- an endpoint at the address 1024, and one that is in no device
abbrev pub an_endpoint : Endpoint
an_endpoint = record {
  name = 97 ∷ [];
  rdev = true;
  addr = 1024;
  dest_addr = 1030;
  refcnt = 1;
  release_cb = none;
  cb = some 1;
  ns_unbind_cb = none;
  priv = 0;
}

abbrev pub no_endpoint : Endpoint
no_endpoint = record {
  name = [];
  rdev = false;
  addr = 0;
  dest_addr = 0;
  refcnt = 0;
  release_cb = none;
  cb = none;
  ns_unbind_cb = none;
  priv = 0;
}

-- a transport that counts the messages
abbrev pub counting : DeviceOps ℕ
counting = record {
  send_offchannel_raw = some (λ w src dst data_ len wait. (len, w + 1));
  hold_rx_buffer = none;
  release_rx_buffer = none;
  get_tx_payload_buffer = none;
  send_offchannel_nocopy = none;
  release_tx_buffer = none;
  get_tx_buffer_size = none;
  get_rx_buffer_size = none;
}

abbrev pub a_device : Device (ℕ → Bool) ℕ
a_device = record {
  endpoints = 5 ∷ [];
  ept = λ p. if p == 5 then an_endpoint else no_endpoint;
  bitmap = λ b. b == 0;
  bitnext = 1;
  ops = counting;
  support_ns = true;
  transport = 0;
}

pub a_device-IsValid : IsValid bits a_device
a_device-IsValid = record { dynamic = λ a h. ground (arith, h) }

abbrev pub a_message : ℕ → ℕ → ℕ
a_message p flags = 0
