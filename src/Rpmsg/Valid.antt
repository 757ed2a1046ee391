-- ===== src/Rpmsg/Valid.antt =====
-- The addresses of the endpoints of a device against its bitmap.
use v85x_openamp.Base.{
  ℕ, ◌+◌, ◌≤◌, ◌<◌, ◌≡◌, refl, ap, List, [], ◌∷◌, ◌++◌, Bool, true, false, if◌then◌else◌, ◌==◌,
  arith, update,
}
use v85x_openamp.Base.Count.{count}
use v85x_openamp.Rpmsg.State.{
  Bitmap, Endpoint, Device, rpmsg_addr_bmp_size, rpmsg_addr_any, rpmsg_reserved_addresses,
}
use v85x_openamp.Rpmsg.Address.{taken, rpmsg_release_address-taken}
use v85x_openamp.Rpmsg.Endpoint.{rpmsg_ept_decref, unlink, rpmsg_unregister_endpoint}

-- the addresses of the endpoints of a list
abbrev pub addrs : (ℕ → Endpoint) → List ℕ → List ℕ
addrs ept [] = []
addrs ept (p ∷ ps) = (ept p).addr ∷ addrs ept ps

pub addrs-append :
    (ept : ℕ → Endpoint) (ps qs : List ℕ) → addrs ept (ps ++ qs) ≡ addrs ept ps ++ addrs ept qs
addrs-append ept [] qs = refl
addrs-append ept (p ∷ ps) qs = ap (λ r. (ept p).addr ∷ r) (addrs-append ept ps qs)

-- A change of endpoints outside the list is not seen.
pub addrs-update :
    (ept : ℕ → Endpoint) (p : ℕ) (e : Endpoint) (ps : List ℕ)
    → count p ps ≡ 0
    → addrs (update ept p e) ps ≡ addrs ept ps
addrs-update ept p e [] h = refl
addrs-update ept p e (q ∷ ps) h = ground (arith, addrs-update ept p e ps)

pub addrs-same :
    (ept : ℕ → Endpoint) (p : ℕ) (e : Endpoint) (ps : List ℕ)
    → e.addr ≡ (ept p).addr
    → addrs (update ept p e) ps ≡ addrs ept ps
addrs-same ept p e [] h = refl
addrs-same ept p e (q ∷ ps) h = ground (arith, h, addrs-same ept p e ps)

pub count-unlink :
    (ept : ℕ → Endpoint) (p a : ℕ) (ps : List ℕ)
    → 0 < count p ps
    → count a (addrs ept ps)
      ≡ (if (ept p).addr == a then 1 else 0) + count a (addrs ept (unlink p ps))
unfolding unlink
count-unlink ept p a [] h = absurd (omega arith)
count-unlink ept p a (q ∷ ps) h = ground (arith, h, count-unlink ept p a ps)

pub either {ℓ κ} :
    {A : Type ℓ} (P : A → Type κ) (b : Bool) {x y : A}
    → (b ≡ true → P x)
    → (b ≡ false → P y)
    → P (if b then x else y)
either P true h k = h refl
either P false h k = k refl

module _ (metal : Bitmap rpmsg_addr_bmp_size) {W : Type 0} where
  -- Each dynamic address is that of one endpoint if the bitmap has it for taken, and of none else.
  pub record IsValid (d : Device metal.Bits W) : Type 0 where
    pub dynamic :
        (a : ℕ)
        → rpmsg_reserved_addresses ≤ a
        → count a (addrs d.ept d.endpoints) ≡ (if taken metal d.bitmap a then 1 else 0)

  pub unregister-IsValid :
      (d : Device metal.Bits W) (p : ℕ)
      → IsValid d
      → 0 < count p d.endpoints
      → IsValid (rpmsg_unregister_endpoint metal d p).1
  unfolding rpmsg_unregister_endpoint rpmsg_ept_decref
  unregister-IsValid d p v here = record {
    dynamic = λ a h. ground (
      arith,
      h,
      v.dynamic a h,
      v.dynamic rpmsg_addr_any (omega arith),
      count-unlink d.ept p a d.endpoints here,
      count-unlink d.ept p rpmsg_addr_any d.endpoints here,
      rpmsg_release_address-taken metal d.bitmap (d.ept p).addr a,
      addrs-same d.ept p (rpmsg_ept_decref (d.ept p)).1 (unlink p d.endpoints) (ground arith),
    );
  }

  -- The address of the endpoint goes, once.
  pub unregister_addrs :
      (d : Device metal.Bits W) (p a : ℕ)
      → 0 < count p d.endpoints
      → let d' = (rpmsg_unregister_endpoint metal d p).1 in
        count a (addrs d.ept d.endpoints)
        ≡ (if (d.ept p).addr == a then 1 else 0) + count a (addrs d'.ept d'.endpoints)
  unfolding rpmsg_unregister_endpoint rpmsg_ept_decref
  unregister_addrs d p a here = ground (
    arith,
    count-unlink d.ept p a d.endpoints here,
    addrs-same d.ept p (rpmsg_ept_decref (d.ept p)).1 (unlink p d.endpoints) (ground arith),
  )
