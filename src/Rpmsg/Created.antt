-- ===== src/Rpmsg/Created.antt =====
-- rpmsg_create_ept with an address for the device to choose: what the call does to the other endpoints
-- and to the addresses that are left.
use v85x_openamp.Base.{
  ℕ, ◌+◌, ◌%◌, ◌<◌, ◌≡◌, ◌≢◌, refl, ap, List, [], ◌∷◌, ◌⊎◌, inl, inr, true, false, ◌&&◌, Option,
  some, ◌==◌, arith, ℤ, is_zero, is_negative,
}
use v85x_openamp.Base.Count.{count, count-append}
use v85x_openamp.Rpmsg.State.{Bitmap, Device, rpmsg_addr_bmp_size, rpmsg_addr_any}
use v85x_openamp.Rpmsg.Address.{
  taken, in_bitmap, rpmsg_get_address, rpmsg_get_address-fresh, rpmsg_release_address-taken,
}
use v85x_openamp.Rpmsg.Send.{rpmsg_send_ns_message}
use v85x_openamp.Rpmsg.Endpoint.{
  has_name, ns_create, unlink, rpmsg_unregister_endpoint, rpmsg_register_endpoint, reserve,
  announce, rpmsg_create_ept,
}
use v85x_openamp.Rpmsg.Valid.{either}
use v85x_openamp.Rpmsg.Unique.{sent_same}

count-unlink_other : (p q : ℕ) (ps : List ℕ) → q ≢ p → count q (unlink p ps) ≡ count q ps
unfolding unlink
count-unlink_other p q [] h = refl
count-unlink_other p q (x ∷ ps) h = ground (arith, h, count-unlink_other p q ps h)

module _ (metal : Bitmap rpmsg_addr_bmp_size) {W : Type 0} where
  -- The other endpoints stay what and where they were, and `spare` is the one address that may have
  -- been taken.
  pub record Keeps (d : Device metal.Bits W) (p spare : ℕ) (d' : Device metal.Bits W) : Type 0 where
    pub keeps : (q : ℕ) → q ≢ p → d'.ept q ≡ d.ept q
    pub counts : (q : ℕ) → q ≢ p → count q d'.endpoints ≡ count q d.endpoints
    pub spares : (a : ℕ) → (a ≡ spare) ⊎ (taken metal d'.bitmap a ≡ taken metal d.bitmap a)

  -- A call that succeeds has linked the endpoint, at an address of the bitmap.
  pub record Joined (d : Device metal.Bits W) (p : ℕ) (r : ℤ × Device metal.Bits W) : Type 0 where
    pub spare : ℕ
    pub inside : in_bitmap rpmsg_addr_bmp_size spare ≡ true
    pub frame : Keeps d p spare r.1
    pub linked : is_negative r.0 ≡ false → (0 < count p r.1.endpoints) × ((r.1.ept p).addr ≡ spare)

  unregister-Keeps :
      (d d' : Device metal.Bits W) (p : ℕ)
      → Keeps d p (d'.ept p).addr d'
      → Keeps d p (d'.ept p).addr (rpmsg_unregister_endpoint metal d' p).1
  unfolding rpmsg_unregister_endpoint
  unregister-Keeps d d' p k = record {
    keeps = λ q ne. ground (arith, ne, k.keeps q ne);
    counts = λ q ne. ground (arith, k.counts q ne, count-unlink_other p q d'.endpoints ne);
    spares = λ a.
        ground (arith, k.spares a, rpmsg_release_address-taken metal d'.bitmap (d'.ept p).addr a);
  }

  module _ (message : ℕ → ℕ → ℕ) (message_size : ℤ) where
    sent-Keeps :
        (d d' : Device metal.Bits W) (p : ℕ)
        → Keeps d p (d'.ept p).addr d'
        → let d'' = (rpmsg_send_ns_message message message_size d' p ns_create).1 in
          Keeps d p (d''.ept p).addr d''
    sent-Keeps d d' p k = record {
      keeps =
          λ q ne. ground (arith, sent_same metal message message_size d' p ns_create, k.keeps q ne);
      counts = λ q ne.
          ground (arith, sent_same metal message message_size d' p ns_create, k.counts q ne);
      spares = λ a. ground (arith, sent_same metal message message_size d' p ns_create, k.spares a);
    }

    refused :
        (d : Device metal.Bits W) (p : ℕ)
        → let r = (rpmsg_send_ns_message message message_size d p ns_create).0 in
          is_zero r ≡ false → is_negative r ≡ true
    unfolding rpmsg_send_ns_message
    refused d p h = ground (arith, h)

    announce-Joined :
        (d d' : Device metal.Bits W) (p : ℕ)
        → Keeps d p (d'.ept p).addr d'
        → 0 < count p d'.endpoints
        → in_bitmap rpmsg_addr_bmp_size (d'.ept p).addr ≡ true
        → Joined d p (announce metal message message_size d' p)
    unfolding announce
    announce-Joined d d' p k here inside =
        let d'' = (rpmsg_send_ns_message message message_size d' p ns_create).1 in
        let same = sent_same metal message message_size d' p ns_create in
        let inside'' : in_bitmap rpmsg_addr_bmp_size (d''.ept p).addr ≡ true =
          ground (arith, same, inside) in
        either (Joined d p)
          (has_name (d'.ept p) && (d'.support_ns && ((d'.ept p).dest_addr == rpmsg_addr_any)))
          (λ _.
            either (Joined d p)
              (is_zero (rpmsg_send_ns_message message message_size d' p ns_create).0)
              (λ _. record {
                spare = (d''.ept p).addr;
                inside = inside'';
                frame = sent-Keeps d d' p k;
                linked = λ _. (ground (arith, same, here), refl);
              })
              (λ z. record {
                spare = (d''.ept p).addr;
                inside = inside'';
                frame = unregister-Keeps d d'' p (sent-Keeps d d' p k);
                linked = λ e. absurd (ground (arith, e, refused d' p z));
              }))
          (λ _. record {
            spare = (d'.ept p).addr;
            inside = inside;
            frame = k;
            linked = λ _. (here, refl);
          })

    register-Keeps :
        (d d' : Device metal.Bits W) (p : ℕ) (name : Option (List ℕ)) (addr dest : ℕ)
        (cb unbind_cb : Option ℕ) (priv : ℕ)
        → d'.ept ≡ d.ept
        → d'.endpoints ≡ d.endpoints
        → ((a : ℕ) → (a ≡ addr) ⊎ (taken metal d'.bitmap a ≡ taken metal d.bitmap a))
        → Keeps d p addr (rpmsg_register_endpoint metal d' p name addr dest cb unbind_cb priv)
    unfolding rpmsg_register_endpoint
    register-Keeps d d' p name addr dest cb unbind_cb priv same_ept same_list spares = record {
      keeps = λ q ne. ground (arith, ne, same_ept);
      counts = λ q ne. ground (arith, ne, same_list, count-append q d'.endpoints (p ∷ []));
      spares = spares;
    }

    registered :
        (d : Device metal.Bits W) (p : ℕ) (name : Option (List ℕ)) (addr dest : ℕ)
        (cb unbind_cb : Option ℕ) (priv : ℕ)
        → let d' = rpmsg_register_endpoint metal d p name addr dest cb unbind_cb priv in
          ((d'.ept p).addr ≡ addr) × (0 < count p d'.endpoints)
    unfolding rpmsg_register_endpoint
    registered d p name addr dest cb unbind_cb priv =
        (ground arith, ground (arith, count-append p d.endpoints (p ∷ [])))

    -- the address that the device chooses
    reserve_any :
        (d : Device metal.Bits W) (free : ℕ)
        → free < rpmsg_addr_bmp_size
        → metal.is_bit_set d.bitmap free ≡ false
        → let (addr, bitmap) = rpmsg_get_address metal d.bitmap d.bitnext in
          reserve metal d rpmsg_addr_any
          ≡ (inr addr, record d { bitmap = bitmap; bitnext = (addr + 1) % rpmsg_addr_bmp_size })
    unfolding reserve
    reserve_any d free low clear =
        let (inside, fresh, marked) =
          rpmsg_get_address-fresh metal d.bitmap d.bitnext free low clear in
        ground (arith, inside)

    -- While an address is free, the call either fails, or has linked the endpoint; whichever it is, it
    -- leaves the other endpoints as they are and uses up no address but the new one.
    pub rpmsg_create_ept-Joined :
        (d : Device metal.Bits W) (p : ℕ) (name : Option (List ℕ)) (dest cb : ℕ)
        (unbind_cb : Option ℕ) (free : ℕ)
        → free < rpmsg_addr_bmp_size
        → metal.is_bit_set d.bitmap free ≡ false
        → Joined d p (
            rpmsg_create_ept metal message message_size d
              (some p)
              true
              name
              rpmsg_addr_any
              dest
              (some cb)
              unbind_cb)
    unfolding rpmsg_create_ept
    rpmsg_create_ept-Joined d p name dest cb unbind_cb free low clear =
        let (inside, fresh, marked) =
          rpmsg_get_address-fresh metal d.bitmap d.bitnext free low clear in
        let (addr, bitmap) = rpmsg_get_address metal d.bitmap d.bitnext in
        let d' : Device metal.Bits W = record d {
          bitmap = bitmap;
          bitnext = (addr + 1) % rpmsg_addr_bmp_size;
        } in
        let joined =
          rpmsg_register_endpoint metal d' p name addr dest (some cb) unbind_cb (d'.ept p).priv in
        let here = registered d' p name addr dest (some cb) unbind_cb (d'.ept p).priv in
        go (reserve metal d rpmsg_addr_any).0 (reserve metal d rpmsg_addr_any).1
          (ap (λ x. x.0) (reserve_any d free low clear))
          (ap (λ x. x.1) (reserve_any d free low clear))
          (announce-Joined d joined p
            (rw here.0 (
              register-Keeps d d' p name addr dest (some cb) unbind_cb (d'.ept p).priv refl refl
                (λ a. ground (arith, marked a))))
            here.1 (ground (arith, here.0, inside)))
      where
        go :
            {addr : ℕ} {d' : Device metal.Bits W} (r : ℤ ⊎ ℕ) (d'' : Device metal.Bits W)
            → r ≡ inr addr
            → d'' ≡ d'
            → Joined d p (
                announce metal message message_size
                  (rpmsg_register_endpoint metal d' p name addr dest
                    (some cb)
                    unbind_cb
                    (d'.ept p).priv)
                  p)
            → Joined d p (elim r as (λ _. ℤ × Device metal.Bits W) [
              | inl status ↦ (status, d'')
              | inr addr ↦
                  announce metal message message_size
                    (rpmsg_register_endpoint metal d'' p name addr dest
                      (some cb)
                      unbind_cb
                      (d''.ept p).priv)
                    p
            ])
        go r d'' e same h = rw (e, same) h
