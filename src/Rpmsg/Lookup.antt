-- ===== src/Rpmsg/Lookup.antt =====
-- What a message finds at its address, and how long an endpoint lives.
use v85x_openamp.Base.{
  ℕ, ◌+◌, ◌≤◌, ◌<◌, ◌≡◌, ◌≢◌, refl, List, [], ◌∷◌, true, false, none, some, arith, ℤ,
}
use v85x_openamp.Base.Count.{count}
use v85x_openamp.Rpmsg.State.{
  Bitmap, Endpoint, Device, rpmsg_addr_bmp_size, rpmsg_addr_any, rpmsg_reserved_addresses,
}
use v85x_openamp.Rpmsg.Endpoint.{
  u32, rpmsg_ept_incref, rpmsg_ept_decref, find, is_wanted, rpmsg_get_ept_from_addr,
  rpmsg_get_endpoint, rpmsg_destroy_ept,
}
use v85x_openamp.Rpmsg.Valid.{IsValid, addrs}
use v85x_openamp.Rpmsg.Unique.{destroyed_addrs}

addr_counted :
    (ept : ℕ → Endpoint) (p : ℕ) (ps : List ℕ)
    → 0 < count p ps
    → 0 < count (ept p).addr (addrs ept ps)
addr_counted ept p [] h = absurd (omega arith)
addr_counted ept p (q ∷ ps) h = ground (arith, h, addr_counted ept p ps)

find-some :
    (ept : ℕ → Endpoint) (p : ℕ) (ps : List ℕ)
    → (ept p).addr ≢ rpmsg_addr_any
    → 0 < count p ps
    → count (ept p).addr (addrs ept ps) ≤ 1
    → find ept none (ept p).addr rpmsg_addr_any ps ≡ some p
unfolding find is_wanted
find-some ept p [] any here once = absurd (omega arith)
find-some ept p (q ∷ ps) any here once =
    ground (arith, any, here, once, addr_counted ept p ps, find-some ept p ps any)

find-none :
    (ept : ℕ → Endpoint) (a : ℕ) (ps : List ℕ)
    → count a (addrs ept ps) ≡ 0
    → find ept none a rpmsg_addr_any ps ≡ none
unfolding find is_wanted
find-none ept a [] h = refl
find-none ept a (q ∷ ps) h = ground (arith, h, find-none ept a ps)

-- A reference taken and given back leaves the endpoint as it was and does not release it, as long as
-- it has a reference and the count does not wrap.
pub incref-decref :
    (e : Endpoint)
    → 0 < e.refcnt
    → e.refcnt + 1 < u32
    → rpmsg_ept_decref (rpmsg_ept_incref e) ≡ (false, e)
unfolding rpmsg_ept_decref rpmsg_ept_incref
incref-decref e held small = ground (arith, held, small)

module _ (metal : Bitmap rpmsg_addr_bmp_size) {W : Type 0} where
  -- In a valid device a message for the dynamic address of a linked endpoint finds this endpoint.
  pub rpmsg_get_ept_from_addr-finds :
      (d : Device metal.Bits W) (p : ℕ)
      → IsValid metal d
      → 0 < count p d.endpoints
      → rpmsg_reserved_addresses ≤ (d.ept p).addr
      → (d.ept p).addr ≢ rpmsg_addr_any
      → rpmsg_get_ept_from_addr metal d (d.ept p).addr ≡ some p
  unfolding rpmsg_get_ept_from_addr rpmsg_get_endpoint
  rpmsg_get_ept_from_addr-finds d p v here dynamic any =
      find-some d.ept p d.endpoints any here (ground (arith, v.dynamic (d.ept p).addr dynamic))

  -- Once an endpoint with a dynamic address is destroyed, no message for this address finds an endpoint.
  pub rpmsg_destroy_ept-gone :
      (message : ℕ → ℕ → ℕ) (message_size : ℤ) (d : Device metal.Bits W) (p : ℕ)
      → IsValid metal d
      → 0 < count p d.endpoints
      → (d.ept p).rdev ≡ true
      → rpmsg_reserved_addresses ≤ (d.ept p).addr
      → rpmsg_get_ept_from_addr metal
          (rpmsg_destroy_ept metal message message_size d (some p))
          (d.ept p).addr
        ≡ none
  unfolding rpmsg_get_ept_from_addr rpmsg_get_endpoint
  rpmsg_destroy_ept-gone message message_size d p v here bound dynamic =
      find-none _ (d.ept p).addr _ (
        ground (
          arith,
          dynamic,
          v.dynamic (d.ept p).addr dynamic,
          destroyed_addrs metal message message_size d p (d.ept p).addr here bound,
        ))
