-- ===== src/Rpmsg/Address.antt =====
-- The addresses of an rpmsg device: the bit `b` of the bitmap stands for the address `1024 + b`.
use v85x_openamp.Base.{
  ℕ, ◌+◌, ◌-◌, ◌<◌, ◌≡◌, Bool, true, false, ◌&&◌, if◌then◌else◌, ltb, leb, ◌==◌, arith, ℤ, pos,
}
use v85x_openamp.Rpmsg.State.{
  Bitmap, rpmsg_addr_any, rpmsg_reserved_addresses, rpmsg_success, rpmsg_err_param,
}

-- `addr -= RPMSG_RESERVED_ADDRESSES; addr >= 0 && addr < size`. As `int` an address from `2 ^ 31` on is
-- negative, and as a number it is above every size.
abbrev pub in_bitmap : ℕ → ℕ → Bool
in_bitmap size addr =
    leb rpmsg_reserved_addresses addr && ltb (addr - rpmsg_reserved_addresses) size

module _ {size : ℕ} (metal : Bitmap size) where
  unfoldable pub rpmsg_get_address : metal.Bits → ℕ → ℕ × metal.Bits
  rpmsg_get_address bitmap start =
      let nextbit = metal.next_clear_bit bitmap start in
      if ltb nextbit size
      then (rpmsg_reserved_addresses + nextbit, metal.set_bit bitmap nextbit)
      else (rpmsg_addr_any, bitmap)

  unfoldable pub rpmsg_release_address : metal.Bits → ℕ → metal.Bits
  rpmsg_release_address bitmap addr =
      if in_bitmap size addr
      then metal.clear_bit bitmap (addr - rpmsg_reserved_addresses)
      else bitmap

  unfoldable pub rpmsg_is_address_set : metal.Bits → ℕ → ℤ
  rpmsg_is_address_set bitmap addr =
      if in_bitmap size addr
      then pos (if metal.is_bit_set bitmap (addr - rpmsg_reserved_addresses) then 1 else 0)
      else rpmsg_err_param

  unfoldable pub rpmsg_set_address : metal.Bits → ℕ → ℤ × metal.Bits
  rpmsg_set_address bitmap addr =
      if in_bitmap size addr
      then (rpmsg_success, metal.set_bit bitmap (addr - rpmsg_reserved_addresses))
      else (rpmsg_err_param, bitmap)

  -- whether the bitmap holds an address for taken
  abbrev pub taken : metal.Bits → ℕ → Bool
  taken bitmap addr =
      leb rpmsg_reserved_addresses addr
      && (ltb (addr - rpmsg_reserved_addresses) size
          && metal.is_bit_set bitmap (addr - rpmsg_reserved_addresses))

  -- While one of the `size` addresses is free, `rpmsg_get_address` gives a free one of them out and marks
  -- it, and it alone, as taken.
  pub rpmsg_get_address-fresh :
      (bitmap : metal.Bits) (start free : ℕ)
      → free < size
      → metal.is_bit_set bitmap free ≡ false
      → let (addr, after) = rpmsg_get_address bitmap start in
        (in_bitmap size addr ≡ true)
        × (taken bitmap addr ≡ false)
        × ((a : ℕ) → taken after a ≡ (if a == addr then true else taken bitmap a))
  unfolding rpmsg_get_address
  rpmsg_get_address-fresh bitmap start free low clear =
      let b = metal.next_clear_bit bitmap start in
      let lt : b < size = metal.next_clear_bit-lt bitmap start in
      (
        ground (arith, lt),
        ground (arith, lt, metal.next_clear_bit-clear bitmap start free low clear),
        λ a. ground (arith, lt, metal.is_bit_set-set_bit bitmap b (a - 1024) lt),
      )

  -- With all `size` addresses taken `rpmsg_get_address` still gives out one of them, and never
  -- RPMSG_ADDR_ANY.
  pub rpmsg_get_address_full :
      (bitmap : metal.Bits) (start : ℕ)
      → ((b : ℕ) → b < size → metal.is_bit_set bitmap b ≡ true)
      → taken bitmap (rpmsg_get_address bitmap start).0 ≡ true
  unfolding rpmsg_get_address
  rpmsg_get_address_full bitmap start full =
      let lt : metal.next_clear_bit bitmap start < size = metal.next_clear_bit-lt bitmap start in
      ground (arith, lt, full (metal.next_clear_bit bitmap start) lt)

  -- A release frees the address, where the bitmap has it, and no other one; one outside the bitmap
  -- changes nothing.
  pub rpmsg_release_address-taken :
      (bitmap : metal.Bits) (addr a : ℕ)
      → taken (rpmsg_release_address bitmap addr) a ≡ (if a == addr then false else taken bitmap a)
  unfolding rpmsg_release_address
  rpmsg_release_address-taken bitmap addr a =
      ground (arith, metal.is_bit_set-clear_bit bitmap (addr - 1024) (a - 1024))

  pub rpmsg_set_address-taken :
      (bitmap : metal.Bits) (addr a : ℕ)
      → in_bitmap size addr ≡ true
      → taken (rpmsg_set_address bitmap addr).1 a ≡ (if a == addr then true else taken bitmap a)
  unfolding rpmsg_set_address
  rpmsg_set_address-taken bitmap addr a here =
      ground (arith, here, metal.is_bit_set-set_bit bitmap (addr - 1024) (a - 1024))
