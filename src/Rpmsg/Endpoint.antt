-- ===== src/Rpmsg/Endpoint.antt =====
-- The endpoints of an rpmsg device: creation, lookup, reference counts and destruction.
use v85x_openamp.Base.{
  ℕ, ◌+◌, ◌-◌, ◌^◌, ◌%◌, List, [], ◌∷◌, ◌++◌, ◌⊎◌, inl, inr, Bool, true, false, not, ◌&&◌, ◌||◌,
  Option, none, some, if◌then◌else◌, leb, ◌==◌, update, take, ℤ, pos, negsuc, is_zero,
}
use v85x_openamp.Rpmsg.State.{
  Bitmap, Endpoint, Device, rpmsg_name_size, rpmsg_addr_bmp_size, rpmsg_addr_any,
  rpmsg_reserved_addresses, rpmsg_success, rpmsg_err_param, rpmsg_err_addr,
}
use v85x_openamp.Rpmsg.Address.{
  rpmsg_get_address, rpmsg_release_address, rpmsg_is_address_set, rpmsg_set_address,
}
use v85x_openamp.Rpmsg.Send.{is_null, rpmsg_send_ns_message}

abbrev pub u32 : ℕ
u32 = 2 ^ 32

-- `rpmsg_ept_incref` of an endpoint that is not NULL
unfoldable pub rpmsg_ept_incref : Endpoint → Endpoint
rpmsg_ept_incref e = record e { refcnt = (e.refcnt + 1) % u32 }

-- `rpmsg_ept_decref` of an endpoint that is not NULL; true where `release_cb` is called.
unfoldable pub rpmsg_ept_decref : Endpoint → Bool × Endpoint
rpmsg_ept_decref e =
    let less = record e { refcnt = (e.refcnt + u32 - 1) % u32 } in
    if less.refcnt == 0
    then (if is_null less.release_cb then (false, record less { rdev = false }) else (true, less))
    else (false, less)

-- `!strncmp(a, b, sizeof(ept->name))`
abbrev pub same : List ℕ → List ℕ → Bool
same [] [] = true
same [] (y ∷ ys) = false
same (x ∷ xs) [] = false
same (x ∷ xs) (y ∷ ys) = (x == y) && same xs ys

abbrev pub same_name : List ℕ → List ℕ → Bool
same_name a b = same (take rpmsg_name_size a) (take rpmsg_name_size b)

-- the tests of one round of the loop of `rpmsg_get_endpoint`
unfoldable pub is_wanted : Option (List ℕ) → ℕ → ℕ → Endpoint → Bool
is_wanted name addr dest_addr e = (not (addr == rpmsg_addr_any) && (e.addr == addr)) || elim name [
  | none ↦ false
  | some n ↦
      same_name e.name n
      && ((not (dest_addr == rpmsg_addr_any) && (e.dest_addr == dest_addr))
          || ((addr == rpmsg_addr_any) && (e.dest_addr == rpmsg_addr_any)))
]

unfoldable pub find : (ℕ → Endpoint) → Option (List ℕ) → ℕ → ℕ → List ℕ → Option ℕ
unfolding is_wanted
find ept name addr dest_addr [] = none
find ept name addr dest_addr (p ∷ ps) =
    if is_wanted name addr dest_addr (ept p) then some p else find ept name addr dest_addr ps

-- `metal_list_del`
unfoldable pub unlink : ℕ → List ℕ → List ℕ
unlink p [] = []
unlink p (q ∷ qs) = if q == p then qs else q ∷ unlink p qs

abbrev pub ns_create : ℕ
ns_create = 0

abbrev pub ns_destroy : ℕ
ns_destroy = 1

abbrev pub has_name : Endpoint → Bool
has_name e = elim e.name [ [] ↦ false | x ∷ xs ↦ true ]

module _ (metal : Bitmap rpmsg_addr_bmp_size) {W : Type 0} where
  unfoldable pub rpmsg_get_endpoint : Device metal.Bits W → Option (List ℕ) → ℕ → ℕ → Option ℕ
  rpmsg_get_endpoint d name addr dest_addr = find d.ept name addr dest_addr d.endpoints

  unfoldable pub rpmsg_get_ept_from_addr : Device metal.Bits W → ℕ → Option ℕ
  rpmsg_get_ept_from_addr d addr = rpmsg_get_endpoint d none addr rpmsg_addr_any

  -- True where `release_cb` is called.
  unfoldable pub rpmsg_unregister_endpoint : Device metal.Bits W → ℕ → Bool × Device metal.Bits W
  unfolding rpmsg_ept_decref
  rpmsg_unregister_endpoint d p =
      let (called, e) = rpmsg_ept_decref (d.ept p) in
      (
        called,
        record d {
          bitmap =
              if (d.ept p).addr == rpmsg_addr_any
              then d.bitmap
              else rpmsg_release_address metal d.bitmap (d.ept p).addr;
          endpoints = unlink p d.endpoints;
          ept = update d.ept p e;
        },
      )

  unfoldable pub rpmsg_register_endpoint :
      Device metal.Bits W
      → ℕ
      → Option (List ℕ)
      → ℕ
      → ℕ
      → Option ℕ
      → Option ℕ
      → ℕ
      → Device metal.Bits W
  rpmsg_register_endpoint d p name src dest cb ns_unbind_cb priv = record d {
    ept = update d.ept p (record (d.ept p) {
      name = take rpmsg_name_size (elim name [ none ↦ [] | some n ↦ n ]);
      refcnt = 1;
      addr = src;
      dest_addr = dest;
      cb = cb;
      ns_unbind_cb = ns_unbind_cb;
      priv = priv;
      rdev = true;
    });
    endpoints = d.endpoints ++ (p ∷ []);
  }

  -- the branch for an address of the caller's choice above the reserved ones
  unfoldable pub reserve_given : Device metal.Bits W → ℕ → (ℤ ⊎ ℕ) × Device metal.Bits W
  unfolding rpmsg_is_address_set rpmsg_set_address
  reserve_given d src = elim (rpmsg_is_address_set metal d.bitmap src) [
    | negsuc n ↦ (inl (negsuc n), d)
    | pos n ↦
        if n == 0
        then (inr src, record d { bitmap = (rpmsg_set_address metal d.bitmap src).1 })
        else (inl rpmsg_err_addr, d)
  ]

  -- The address of a new endpoint, or the error that ends its creation, with the device after that.
  unfoldable pub reserve : Device metal.Bits W → ℕ → (ℤ ⊎ ℕ) × Device metal.Bits W
  unfolding rpmsg_get_address reserve_given
  reserve d src =
      let (addr, bitmap) = rpmsg_get_address metal d.bitmap d.bitnext in
      if src == rpmsg_addr_any
      then (if addr == rpmsg_addr_any
          then (inl rpmsg_err_addr, record d { bitmap = bitmap })
          else (inr addr, record d { bitmap = bitmap; bitnext = (addr + 1) % rpmsg_addr_bmp_size }))
      else if leb rpmsg_reserved_addresses src
      then reserve_given d src
      else (inr src, d)

  -- `message` is that of `rpmsg_send_ns_message`.
  module _ (message : ℕ → ℕ → ℕ) (message_size : ℤ) where
    -- what follows the registration: the announcement, and the removal where it fails
    unfoldable pub announce : Device metal.Bits W → ℕ → ℤ × Device metal.Bits W
    unfolding rpmsg_unregister_endpoint
    announce d p =
        let (status, d') = rpmsg_send_ns_message message message_size d p ns_create in
        if has_name (d.ept p) && (d.support_ns && ((d.ept p).dest_addr == rpmsg_addr_any))
        then (if is_zero status then (status, d') else (status, (rpmsg_unregister_endpoint d' p).1))
        else (rpmsg_success, d)

    -- `rdev` says whether the device pointer is set.
    unfoldable pub rpmsg_create_ept :
        Device metal.Bits W
        → Option ℕ
        → Bool
        → Option (List ℕ)
        → ℕ
        → ℕ
        → Option ℕ
        → Option ℕ
        → ℤ × Device metal.Bits W
    unfolding reserve rpmsg_register_endpoint announce
    rpmsg_create_ept d none rdev name src dest cb unbind_cb = (rpmsg_err_param, d)
    rpmsg_create_ept d (some p) rdev name src dest cb unbind_cb =
        let (reserved, d') = reserve d src in
        if not rdev || is_null cb then (rpmsg_err_param, d) else elim reserved [
          | inl status ↦ (status, d')
          | inr addr ↦
              announce (rpmsg_register_endpoint d' p name addr dest cb unbind_cb (d'.ept p).priv) p
        ]

    unfoldable pub rpmsg_destroy_ept : Device metal.Bits W → Option ℕ → Device metal.Bits W
    unfolding rpmsg_unregister_endpoint
    rpmsg_destroy_ept d none = d
    rpmsg_destroy_ept d (some p) =
        if not (d.ept p).rdev
        then d
        else if has_name (d.ept p) && (d.support_ns && leb rpmsg_reserved_addresses (d.ept p).addr)
        then (rpmsg_unregister_endpoint
            (rpmsg_send_ns_message message message_size d p ns_destroy).1 p).1
        else (rpmsg_unregister_endpoint d p).1
