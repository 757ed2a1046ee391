-- ===== src/Rpmsg/State.antt =====
-- The state of an rpmsg device (struct rpmsg_endpoint, struct rpmsg_device and struct
-- rpmsg_device_ops of include/openamp/rpmsg.h).
use v85x_openamp.Base.{
  ℕ, ◌<◌, ◌≡◌, Bool, true, false, Option, List, ◌==◌, ℤ, pos, negsuc, if◌then◌else◌,
}

abbrev pub rpmsg_name_size : ℕ
rpmsg_name_size = 32

abbrev pub rpmsg_addr_bmp_size : ℕ
rpmsg_addr_bmp_size = 128

abbrev pub rpmsg_ns_ept_addr : ℕ
rpmsg_ns_ept_addr = 0x35

abbrev pub rpmsg_reserved_addresses : ℕ
rpmsg_reserved_addresses = 1024

abbrev pub rpmsg_addr_any : ℕ
rpmsg_addr_any = 0xffffffff

-- The results of rpmsg.h that the code returns.
abbrev pub rpmsg_success : ℤ
rpmsg_success = pos 0

abbrev pub rpmsg_err_no_buff : ℤ
rpmsg_err_no_buff = negsuc 2001

abbrev pub rpmsg_err_param : ℤ
rpmsg_err_param = negsuc 2002

abbrev pub rpmsg_err_addr : ℤ
rpmsg_err_addr = negsuc 2006

abbrev pub rpmsg_err_perm : ℤ
rpmsg_err_perm = negsuc 2007

abbrev pub rpmsg_eopnotsupp : ℤ
rpmsg_eopnotsupp = negsuc 2008

-- The bitmap of libmetal (include/metal/utilities.h): the four calls that rpmsg.c makes, and what it
-- relies on for a bitmap of `size` bits. A search starts at the bit `start`, goes on from bit 0 after
-- the last one, and ends at a bit of the map.
pub record Bitmap (size : ℕ) : Type 1 where
  pub Bits : Type 0
  pub is_bit_set : Bits → ℕ → Bool
  pub set_bit : Bits → ℕ → Bits
  pub clear_bit : Bits → ℕ → Bits
  pub next_clear_bit : Bits → ℕ → ℕ
  pub is_bit_set-set_bit :
      (m : Bits) (b c : ℕ)
      → b < size
      → is_bit_set (set_bit m b) c ≡ (if b == c then true else is_bit_set m c)
  pub is_bit_set-clear_bit :
      (m : Bits) (b c : ℕ)
      → b < size
      → is_bit_set (clear_bit m b) c ≡ (if b == c then false else is_bit_set m c)
  pub next_clear_bit-lt : (m : Bits) (start : ℕ) → next_clear_bit m start < size
  pub next_clear_bit-clear :
      (m : Bits) (start free : ℕ)
      → free < size
      → is_bit_set m free ≡ false
      → is_bit_set m (next_clear_bit m start) ≡ false

-- `struct rpmsg_endpoint`. `rdev` tells whether its device pointer is set; the callbacks are named by
-- numbers, `none` for NULL; a name has no NUL character.
pub record Endpoint : Type 0 where
  pub name : List ℕ
  pub rdev : Bool
  pub addr : ℕ
  pub dest_addr : ℕ
  pub refcnt : ℕ
  pub release_cb : Option ℕ
  pub cb : Option ℕ
  pub ns_unbind_cb : Option ℕ
  pub priv : ℕ

-- `struct rpmsg_device_ops` over the state `W` of the transport; buffers are addresses.
pub record DeviceOps (W : Type 0) : Type 0 where
  pub send_offchannel_raw : Option (W → ℕ → ℕ → ℕ → ℤ → Bool → ℤ × W)
  pub hold_rx_buffer : Option (W → ℕ → W)
  pub release_rx_buffer : Option (W → ℕ → W)
  pub get_tx_payload_buffer : Option (W → Bool → Option (ℕ × ℕ) × W)
  pub send_offchannel_nocopy : Option (W → ℕ → ℕ → ℕ → ℤ → ℤ × W)
  pub release_tx_buffer : Option (W → ℕ → ℤ × W)
  pub get_tx_buffer_size : Option (W → ℤ)
  pub get_rx_buffer_size : Option (W → ℤ)

-- `struct rpmsg_device` with the endpoints that it links, named by numbers, and the state of its
-- transport. The lock is held throughout each section of the code that takes it.
pub record Device (Bits W : Type 0) : Type 0 where
  pub endpoints : List ℕ
  pub ept : ℕ → Endpoint
  pub bitmap : Bits
  pub bitnext : ℕ
  pub ops : DeviceOps W
  pub support_ns : Bool
  pub transport : W
