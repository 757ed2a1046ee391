-- ===== src/Rpmsg/Unique.antt =====
-- rpmsg_create_ept and rpmsg_destroy_ept on the addresses of a device.
use v85x_openamp.Base.{
  ℕ, ◌+◌, ◌≤◌, ◌<◌, ◌≡◌, refl, List, [], ◌∷◌, ◌⊎◌, inl, inr, Bool, true, false, not, ◌&&◌, ◌||◌,
  Option, none, some, if◌then◌else◌, leb, ◌==◌, arith, update, take, ℤ, pos, negsuc, is_zero,
}
use v85x_openamp.Base.Count.{count, count-append}
use v85x_openamp.Rpmsg.State.{
  Bitmap, Endpoint, Device, rpmsg_name_size, rpmsg_addr_bmp_size, rpmsg_addr_any,
  rpmsg_reserved_addresses, rpmsg_err_addr,
}
use v85x_openamp.Rpmsg.Address.{
  taken, in_bitmap, rpmsg_get_address, rpmsg_get_address-fresh, rpmsg_is_address_set,
  rpmsg_set_address, rpmsg_set_address-taken,
}
use v85x_openamp.Rpmsg.Send.{is_null, rpmsg_send_ns_message, rpmsg_send_offchannel_raw-frame}
use v85x_openamp.Rpmsg.Endpoint.{
  has_name, ns_create, ns_destroy, rpmsg_register_endpoint, reserve, reserve_given, announce,
  rpmsg_create_ept, rpmsg_destroy_ept,
}
use v85x_openamp.Rpmsg.Valid.{
  addrs, addrs-append, addrs-update, either, IsValid, unregister-IsValid, unregister_addrs,
}

module _ (metal : Bitmap rpmsg_addr_bmp_size) {W : Type 0} where
  -- An address that nobody has, now marked as taken: `d'` is `d` but for that.
  abbrev Reserved : Device metal.Bits W → ℤ ⊎ ℕ → Device metal.Bits W → Type 0
  Reserved d (inl status) d' = IsValid metal d'
  Reserved d (inr addr) d' =
      (d'.ept ≡ d.ept)
      × (d'.endpoints ≡ d.endpoints)
      × (rpmsg_reserved_addresses ≤ addr → taken metal d.bitmap addr ≡ false)
      × ((a : ℕ)
          → rpmsg_reserved_addresses ≤ a
          → taken metal d'.bitmap a ≡ (if a == addr then true else taken metal d.bitmap a))

  reserve_given-Reserved :
      (d : Device metal.Bits W) (src : ℕ)
      → IsValid metal d
      → rpmsg_reserved_addresses ≤ src
      → Reserved d (reserve_given metal d src).0 (reserve_given metal d src).1
  unfolding reserve_given rpmsg_is_address_set
  reserve_given-Reserved d src v high = go (rpmsg_is_address_set metal d.bitmap src) refl
    where
      inside :
          (n : ℕ)
          → rpmsg_is_address_set metal d.bitmap src ≡ pos n
          → in_bitmap rpmsg_addr_bmp_size src ≡ true
      inside n e = ground (arith, e)

      go :
          (z : ℤ)
          → rpmsg_is_address_set metal d.bitmap src ≡ z
          → let r : (ℤ ⊎ ℕ) × Device metal.Bits W = elim z [
            | negsuc n ↦ (inl (negsuc n), d)
            | pos n ↦
                if n == 0
                then (inr src, record d { bitmap = (rpmsg_set_address metal d.bitmap src).1 })
                else (inl rpmsg_err_addr, d)
          ] in
            Reserved d r.0 r.1
      go (negsuc n) e = v
      go (pos n) e =
          either (λ (r : (ℤ ⊎ ℕ) × Device metal.Bits W). Reserved d r.0 r.1) (n == 0)
            (λ zero_. (
              refl,
              refl,
              (λ h. ground (arith, e, zero_, inside n e)),
              λ a h. rpmsg_set_address-taken metal d.bitmap src a (inside n e),
            ))
            (λ _. v)

  reserve-Reserved :
      (d : Device metal.Bits W) (src free : ℕ)
      → IsValid metal d
      → (src ≡ rpmsg_addr_any
          → (free < rpmsg_addr_bmp_size) × (metal.is_bit_set d.bitmap free ≡ false))
      → Reserved d (reserve metal d src).0 (reserve metal d src).1
  unfolding reserve
  reserve-Reserved d src free v room =
      either (λ (r, d'). Reserved d r d') (src == rpmsg_addr_any)
        (λ any.
          let (low, clear) = room (ground (arith, any)) in
          let (inside, fresh, marked) =
            rpmsg_get_address-fresh metal d.bitmap d.bitnext free low clear in
          either (λ (r, d'). Reserved d r d')
            ((rpmsg_get_address metal d.bitmap d.bitnext).0 == rpmsg_addr_any)
            (λ full. absurd (ground (arith, full, inside)))
            (λ ok_. (refl, refl, (λ h. fresh), λ a h. marked a)))
        (λ given.
          either (λ (r, d'). Reserved d r d') (leb rpmsg_reserved_addresses src)
            (λ high. reserve_given-Reserved d src v (ground (arith, high)))
            (λ low.
              (refl, refl, (λ h. absurd (ground (arith, low, h))), λ a h. ground (arith, low, h))))

  abbrev pub added :
      Device metal.Bits W → ℕ → Option (List ℕ) → ℕ → ℕ → Option ℕ → Option ℕ → ℕ → Endpoint
  added d p name src dest cb ns_unbind_cb priv = record (d.ept p) {
    name = take rpmsg_name_size (elim name [ none ↦ [] | some n ↦ n ]);
    refcnt = 1;
    addr = src;
    dest_addr = dest;
    cb = cb;
    ns_unbind_cb = ns_unbind_cb;
    priv = priv;
    rdev = true;
  }

  register-IsValid :
      (d d' : Device metal.Bits W) (p : ℕ) (name : Option (List ℕ)) (addr dest : ℕ)
      (cb unbind_cb : Option ℕ) (priv : ℕ)
      → IsValid metal d
      → count p d.endpoints ≡ 0
      → Reserved d (inr addr) d'
      → IsValid metal (rpmsg_register_endpoint metal d' p name addr dest cb unbind_cb priv)
  unfolding rpmsg_register_endpoint
  register-IsValid d d' p name addr dest cb unbind_cb priv v new
        (same_ept, same_list, fresh, marked) =
      record {
        dynamic = λ a h. ground (
          arith,
          h,
          same_ept,
          same_list,
          fresh,
          marked a h,
          v.dynamic a h,
          addrs-append (update d'.ept p (added d' p name addr dest cb unbind_cb priv)) d'.endpoints
              (p ∷ []),
          addrs-update d'.ept p (added d' p name addr dest cb unbind_cb priv) d'.endpoints
              (ground (arith, same_list, new)),
          count-append a (addrs d'.ept d'.endpoints) (addr ∷ []),
        );
      }

  module _ (message : ℕ → ℕ → ℕ) (message_size : ℤ) where
    pub sent_same :
        (d : Device metal.Bits W) (p flags : ℕ)
        → let d' = (rpmsg_send_ns_message message message_size d p flags).1 in
          d' ≡ record d { transport = d'.transport }
    unfolding rpmsg_send_ns_message
    sent_same d p flags = rpmsg_send_offchannel_raw-frame d (some p) _ _ _ message_size true

    sent-IsValid :
        (d : Device metal.Bits W) (p flags : ℕ)
        → IsValid metal d
        → IsValid metal (rpmsg_send_ns_message message message_size d p flags).1
    sent-IsValid d p flags v = record {
      dynamic = λ a h. ground (arith, sent_same d p flags, v.dynamic a h);
    }

    sent_here :
        (d : Device metal.Bits W) (p flags : ℕ)
        → 0 < count p d.endpoints
        → 0 < count p (rpmsg_send_ns_message message message_size d p flags).1.endpoints
    sent_here d p flags h = ground (arith, sent_same d p flags, h)

    announce-IsValid :
        (d : Device metal.Bits W) (p : ℕ)
        → 0 < count p d.endpoints
        → IsValid metal d
        → IsValid metal (announce metal message message_size d p).1
    unfolding announce
    announce-IsValid d p here v =
        let d' = (rpmsg_send_ns_message message message_size d p ns_create).1 in
        either (λ (r : ℤ × Device metal.Bits W). IsValid metal r.1)
          (has_name (d.ept p) && (d.support_ns && ((d.ept p).dest_addr == rpmsg_addr_any)))
          (λ _.
            either (λ (r : ℤ × Device metal.Bits W). IsValid metal r.1)
              (is_zero (rpmsg_send_ns_message message message_size d p ns_create).0)
              (λ _. sent-IsValid d p ns_create v)
              (λ _.
                unregister-IsValid metal d' p (sent-IsValid d p ns_create v)
                  (sent_here d p ns_create here)))
          (λ _. v)

    -- `rpmsg_destroy_ept` of an endpoint of the device keeps each dynamic address that of one endpoint if
    -- the bitmap has it for taken, and of none else.
    pub rpmsg_destroy_ept-IsValid :
        (d : Device metal.Bits W) (p : ℕ)
        → 0 < count p d.endpoints
        → IsValid metal d
        → IsValid metal (rpmsg_destroy_ept metal message message_size d (some p))
    unfolding rpmsg_destroy_ept
    rpmsg_destroy_ept-IsValid d p here v =
        let d' = (rpmsg_send_ns_message message message_size d p ns_destroy).1 in
        either (IsValid metal) (not (d.ept p).rdev) (λ _. v)
          (λ _.
            either (IsValid metal)
              (has_name (d.ept p) && (d.support_ns && leb rpmsg_reserved_addresses (d.ept p).addr))
              (λ _.
                unregister-IsValid metal d' p (sent-IsValid d p ns_destroy v)
                  (sent_here d p ns_destroy here))
              (λ _. unregister-IsValid metal d p v here))

    pub destroyed_addrs :
        (d : Device metal.Bits W) (p a : ℕ)
        → 0 < count p d.endpoints
        → (d.ept p).rdev ≡ true
        → let d' = rpmsg_destroy_ept metal message message_size d (some p) in
          count a (addrs d.ept d.endpoints)
          ≡ (if (d.ept p).addr == a then 1 else 0) + count a (addrs d'.ept d'.endpoints)
    unfolding rpmsg_destroy_ept
    destroyed_addrs d p a here bound =
        let P = λ (d' : Device metal.Bits W).
          count a (addrs d.ept d.endpoints)
          ≡ (if (d.ept p).addr == a then 1 else 0) + count a (addrs d'.ept d'.endpoints) in
        let sent = (rpmsg_send_ns_message message message_size d p ns_destroy).1 in
        either P (not (d.ept p).rdev) (λ z. absurd (ground (arith, z, bound)))
          (λ _.
            either P
              (has_name (d.ept p) && (d.support_ns && leb rpmsg_reserved_addresses (d.ept p).addr))
              (λ _. ground (
                arith,
                sent_same d p ns_destroy,
                unregister_addrs metal sent p a (sent_here d p ns_destroy here),
              ))
              (λ _. unregister_addrs metal d p a here))

    -- `rpmsg_create_ept` of an endpoint that the device does not link, with any arguments and any outcome,
    -- keeps each dynamic address that of one endpoint if the bitmap has it for taken, and of none else;
    -- where the address is to be chosen, one must be free.
    pub rpmsg_create_ept-IsValid :
        (d : Device metal.Bits W) (p : ℕ) (rdev : Bool) (name : Option (List ℕ)) (src dest : ℕ)
        (cb unbind_cb : Option ℕ) (free : ℕ)
        → IsValid metal d
        → count p d.endpoints ≡ 0
        → (src ≡ rpmsg_addr_any
            → (free < rpmsg_addr_bmp_size) × (metal.is_bit_set d.bitmap free ≡ false))
        → IsValid metal
            (rpmsg_create_ept metal message message_size d
              (some p)
              rdev
              name
              src
              dest
              cb
              unbind_cb).1
    unfolding rpmsg_create_ept
    rpmsg_create_ept-IsValid d p rdev name src dest cb unbind_cb free v new room =
        either (λ (r : ℤ × Device metal.Bits W). IsValid metal r.1) (not rdev || is_null cb)
          (λ _. v)
          (λ _.
            go (reserve metal d src).0 (reserve metal d src).1 (reserve-Reserved d src free v room))
      where
        go :
            (r : ℤ ⊎ ℕ) (d' : Device metal.Bits W)
            → Reserved d r d'
            → IsValid metal
                (elim r as (λ _. ℤ × Device metal.Bits W) [
                  | inl status ↦ (status, d')
                  | inr addr ↦
                      announce metal message message_size
                        (rpmsg_register_endpoint metal d' p name addr dest cb unbind_cb
                          (d'.ept p).priv)
                        p
                ]).1
        go (inl status) d' h = h
        go (inr addr) d' h =
            announce-IsValid _ p (ground (arith, h.1, count-append p d'.endpoints (p ∷ [])))
              (register-IsValid d d' p name addr dest cb unbind_cb (d'.ept p).priv v new h)
