-- ===== src/Board/VirtUart/Lines.antt =====
-- The two lines of main.c on one device.
use v85x_openamp.Base.{
  ℕ, ◌+◌, ◌<◌, ◌≡◌, ◌≢◌, refl, ◌⊎◌, inl, inr, true, false, none, some, arith, ℤ, pos, negsuc,
  is_negative, if◌then◌else◌, sym,
}
use v85x_openamp.Base.Count.{count}
use v85x_openamp.Rpmsg.State.{Bitmap, Device, rpmsg_addr_bmp_size, rpmsg_addr_any}
use v85x_openamp.Rpmsg.Address.{in_bitmap}
use v85x_openamp.Rpmsg.Endpoint.{rpmsg_get_ept_from_addr, rpmsg_create_ept}
use v85x_openamp.Rpmsg.Valid.{IsValid}
use v85x_openamp.Rpmsg.Unique.{rpmsg_create_ept-IsValid}
use v85x_openamp.Rpmsg.Lookup.{rpmsg_get_ept_from_addr-finds}
use v85x_openamp.Rpmsg.Created.{Joined, rpmsg_create_ept-Joined}
use v85x_openamp.Board.VirtUart.{
  Uarts, read_cb, rpmsg_service_name, sunxi_openamp_create_endpoint, virt_uart_init,
  virt_uart_register_cb, main_lines,
}

module _ (metal : Bitmap rpmsg_addr_bmp_size) {W : Type 0} where
  -- Of two free addresses at least one is free after the call.
  still_clear :
      (d : Device metal.Bits W) (p f g : ℕ) (r : ℤ × Device metal.Bits W)
      → Joined metal d p r
      → f < rpmsg_addr_bmp_size
      → g < rpmsg_addr_bmp_size
      → f ≢ g
      → metal.is_bit_set d.bitmap f ≡ false
      → metal.is_bit_set d.bitmap g ≡ false
      → (free : ℕ) × (free < rpmsg_addr_bmp_size) × (metal.is_bit_set r.1.bitmap free ≡ false)
  still_clear d p f g r j low_f low_g ne clear_f clear_g = elim (j.frame.spares (1024 + f)) [
    | inr same ↦ (f, low_f, ground (arith, same, low_f, clear_f))
    | inl spent ↦ elim (j.frame.spares (1024 + g)) [
      | inr same ↦ (g, low_g, ground (arith, same, low_g, clear_g))
      | inl spent' ↦ absurd (ne (omega (arith, spent, spent')))
    ]
  ]

  -- an endpoint that the device links at an address of the bitmap
  reached :
      (d : Device metal.Bits W) (p : ℕ)
      → IsValid metal d
      → 0 < count p d.endpoints
      → in_bitmap rpmsg_addr_bmp_size (d.ept p).addr ≡ true
      → rpmsg_get_ept_from_addr metal d (d.ept p).addr ≡ some p
  reached d p v here inside =
      rpmsg_get_ept_from_addr-finds metal d p v here (ground (arith, inside))
        (ground (arith, inside))

  module _ (message : ℕ → ℕ → ℕ) (message_size : ℤ) where
    abbrev endpoint : Device metal.Bits W → ℕ → ℤ × Device metal.Bits W
    endpoint d p =
        rpmsg_create_ept metal message message_size d (some p) true (some rpmsg_service_name)
          rpmsg_addr_any rpmsg_addr_any (some read_cb) none

    endpoint-IsValid :
        (d : Device metal.Bits W) (p free : ℕ)
        → IsValid metal d
        → count p d.endpoints ≡ 0
        → free < rpmsg_addr_bmp_size
        → metal.is_bit_set d.bitmap free ≡ false
        → IsValid metal (endpoint d p).1
    endpoint-IsValid d p free v new low clear =
        rpmsg_create_ept-IsValid metal message message_size d p true (some rpmsg_service_name)
          rpmsg_addr_any rpmsg_addr_any (some read_cb) none free v new (λ e. (low, clear))

    endpoint-Joined :
        (d : Device metal.Bits W) (p free : ℕ)
        → free < rpmsg_addr_bmp_size
        → metal.is_bit_set d.bitmap free ≡ false
        → Joined metal d p (endpoint d p)
    endpoint-Joined d p free low clear =
        rpmsg_create_ept-Joined metal message message_size d p (some rpmsg_service_name)
          rpmsg_addr_any read_cb none free low clear

    -- The two lines get endpoints of their own: on a valid device with two free addresses, with the
    -- endpoint of neither line linked yet, `main` leaves a valid device, and for each line either its
    -- `virt_uart_init` has returned -1, or a message for the address of its endpoint finds this endpoint
    -- and no other; both have their callback.
    pub main_lines-reached :
        (s : Uarts metal.Bits W) (p q f g : ℕ)
        → IsValid metal s.rdev
        → count p s.rdev.endpoints ≡ 0
        → count q s.rdev.endpoints ≡ 0
        → p ≢ q
        → f < rpmsg_addr_bmp_size
        → g < rpmsg_addr_bmp_size
        → f ≢ g
        → metal.is_bit_set s.rdev.bitmap f ≡ false
        → metal.is_bit_set s.rdev.bitmap g ≡ false
        → let (rc0, rc1, s') = main_lines metal message message_size s p q in
          IsValid metal s'.rdev
          × ((rc0 ≡ negsuc 0)
              ⊎ (rpmsg_get_ept_from_addr metal s'.rdev (s'.rdev.ept p).addr ≡ some p))
          × ((rc1 ≡ negsuc 0)
              ⊎ (rpmsg_get_ept_from_addr metal s'.rdev (s'.rdev.ept q).addr ≡ some q))
          × ((s'.uart p).cb ≡ some 0)
          × ((s'.uart q).cb ≡ some 1)
    unfolding main_lines virt_uart_init sunxi_openamp_create_endpoint virt_uart_register_cb
    main_lines-reached s p q f g v new_p new_q ne low_f low_g ne' clear_f clear_g =
        let r0 = endpoint s.rdev p in
        let j0 = endpoint-Joined s.rdev p f low_f clear_f in
        let v0 = endpoint-IsValid s.rdev p f v new_p low_f clear_f in
        let (free, low, clear) = still_clear s.rdev p f g r0 j0 low_f low_g ne' clear_f clear_g in
        let r1 = endpoint r0.1 q in
        let j1 = endpoint-Joined r0.1 q free low clear in
        let v1 =
          endpoint-IsValid r0.1 q free v0
            (ground (arith, new_q, j0.frame.counts q (λ e. ne (sym e)))) low clear in
        let first = outcome r0.0 p r1.1 v1 (λ ok_. (
          ground (arith, j1.frame.counts p ne, j0.linked ok_),
          ground (arith, j1.frame.keeps p ne, j0.linked ok_, j0.inside),
        )) in
        let second =
          outcome r1.0 q r1.1 v1
            (λ ok_. ((j1.linked ok_).0, ground (arith, j1.linked ok_, j1.inside))) in
        (v1, first, second, ground (arith, ne), ground arith)
      where
        outcome :
            (z : ℤ) (x : ℕ) (d : Device metal.Bits W)
            → IsValid metal d
            → (is_negative z ≡ false
                → (0 < count x d.endpoints) × (in_bitmap rpmsg_addr_bmp_size (d.ept x).addr ≡ true))
            → ((if is_negative z then negsuc 0 else pos 0) ≡ negsuc 0)
              ⊎ (rpmsg_get_ept_from_addr metal d (d.ept x).addr ≡ some x)
        outcome (negsuc n) x d w h = inl refl
        outcome (pos n) x d w h = inr (reached d x w (h refl).0 (h refl).1)
