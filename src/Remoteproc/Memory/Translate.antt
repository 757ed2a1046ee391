-- ===== src/Remoteproc/Memory/Translate.antt =====
-- remoteproc_mmap from a device address to a physical one and back.
use v85x_openamp.Base.{
  ℕ, ◌+◌, ◌-◌, ◌≤◌, ◌<◌, ◌≡◌, ◌≢◌, refl, Bool, true, false, Option, none, some, List, [], ◌∷◌, ◌⊎◌,
  inl, inr, arith, if◌then◌else◌,
}
use mathlib.Core.List.{Memᴰ}
use v85x_openamp.Remoteproc.State.{RemoteprocMem, Remoteproc, RemoteprocOps}
use v85x_openamp.Remoteproc.Memory.{
  u32, metal_bad_phys, covers, Round, this, next_, MetalIo, search_round, search_mems,
  remoteproc_get_mem, remoteproc_datopa, remoteproc_patoda, Mapped, remoteproc_mmap,
}

-- `a` up to `a + size` lies within `extent` from `start` on
abbrev pub Inside : ℕ → ℕ → ℕ → ℕ → Type 0
Inside start extent a size = (start ≤ a) × (a + size ≤ start + extent)

-- No memory reaches the last address, and no two share a physical one.
pub record Layout (mems : List RemoteprocMem) : Type 0 where
  pub fits : (m : RemoteprocMem) → Memᴰ m mems → (m.pa + m.size < u32) × (m.da + m.size < u32)
  pub apart :
      (m m' : RemoteprocMem)
      → Memᴰ m mems
      → Memᴰ m' mems
      → (a : ℕ) → Inside m.pa m.size a 1
      → Inside m'.pa m'.size a 1
      → m ≡ m'

covers-Inside :
    (start extent a size : ℕ)
    → start + extent < u32
    → a + size < u32
    → 0 < size
    → covers start extent a size ≡ true
    → Inside start extent a size
unfolding covers
covers-Inside start extent a size h k pos_ e = ground (arith, h, k, pos_, e)

Inside-covers :
    (start extent a size : ℕ)
    → start + extent < u32
    → 0 < size
    → Inside start extent a size
    → covers start extent a size ≡ true
unfolding covers
Inside-covers start extent a size h pos_ (low, high) = ground (arith, h, pos_, low, high)

test-cases : (b : Bool) → (b ≡ true) ⊎ (b ≡ false)
test-cases true = inl refl
test-cases false = inr refl

module _ (round : RemoteprocMem → Round) (test : RemoteprocMem → Bool)
    (same : (m : RemoteprocMem) → round m ≡ (if test m then this else next_)) where
  further :
      {m m' : RemoteprocMem} {ms : List RemoteprocMem}
      → Memᴰ m (m' ∷ ms)
      → test m ≡ true
      → test m' ≡ false
      → Memᴰ m ms
  further (Memᴰ.head same_) e no_ = absurd (ground (arith, same_, e, no_))
  further (Memᴰ.tail i) e no_ = i

  -- A search finds a memory that passes the test, if there is one.
  search_mems-finds :
      (otherwise : Option RemoteprocMem) (mems : List RemoteprocMem) (m : RemoteprocMem)
      → Memᴰ m mems
      → test m ≡ true
      → (found : RemoteprocMem) × (search_mems round otherwise mems ≡ some found)
        × Memᴰ found mems
        × (test found ≡ true)
  unfolding search_mems
  search_mems-finds otherwise [] m i e = elim i [ ]
  search_mems-finds otherwise (m' ∷ ms) m i e = elim (test-cases (test m')) [
    | inl yes_ ↦ (m', ground (arith, same m', yes_), Memᴰ.head refl, yes_)
    | inr no_ ↦
        let (found, eq, j, passes) = search_mems-finds otherwise ms m (further i e no_) e in
        (found, ground (arith, same m', no_, eq), Memᴰ.tail j, passes)
  ]

module _ (metal : MetalIo) {P : Type 0} (ops : RemoteprocOps P) where
  -- the memory that a device address finds
  da-finds :
      (r : Remoteproc P) (m : RemoteprocMem) (da size : ℕ)
      → Layout r.mems
      → Memᴰ m r.mems
      → 0 < size
      → Inside m.da m.size da size
      → (found : RemoteprocMem) × (remoteproc_get_mem metal ops r none metal_bad_phys da none size
          ≡ some found)
        × Memᴰ found r.mems
        × Inside found.da found.size da size
  unfolding remoteproc_get_mem search_round
  da-finds r m da size l i pos_ in_ =
      let fit : da + size < u32 = ground (arith, in_, l.fits m i) in
      let (found, eq, j, passes) =
        search_mems-finds (search_round metal none metal_bad_phys da none size)
          (λ m. covers m.da m.size da size) (λ m. ground (arith, fit, pos_))
          (elim ops.get_mem [ none ↦ none | some op ↦ op r none metal_bad_phys da none size ])
          r.mems m i (Inside-covers m.da m.size da size (l.fits m i).1 pos_ in_) in
      (found, eq, j, covers-Inside found.da found.size da size (l.fits found j).1 fit pos_ passes)

  -- the memory that a physical address finds
  pa-finds :
      (r : Remoteproc P) (m : RemoteprocMem) (pa size : ℕ)
      → Layout r.mems
      → Memᴰ m r.mems
      → 0 < size
      → Inside m.pa m.size pa size
      → (found : RemoteprocMem) × (remoteproc_get_mem metal ops r none pa metal_bad_phys none size
          ≡ some found)
        × Memᴰ found r.mems
        × Inside found.pa found.size pa size
  unfolding remoteproc_get_mem search_round
  pa-finds r m pa size l i pos_ in_ =
      let fit : pa + size < u32 = ground (arith, in_, l.fits m i) in
      let (found, eq, j, passes) =
        search_mems-finds (search_round metal none pa metal_bad_phys none size)
          (λ m. covers m.pa m.size pa size) (λ m. ground (arith, fit, pos_))
          (elim ops.get_mem [ none ↦ none | some op ↦ op r none pa metal_bad_phys none size ])
          r.mems m i (Inside-covers m.pa m.size pa size (l.fits m i).0 pos_ in_) in
      (found, eq, j, covers-Inside found.pa found.size pa size (l.fits found j).0 fit pos_ passes)

  -- what a call returns that has found a memory
  abbrev mapped : Remoteproc P → RemoteprocMem → ℕ → ℕ → Mapped metal ops
  mapped r mem pa da = record {
    va = metal.phys_to_virt mem.io pa;
    pa = some pa;
    da = some da;
    io = some mem.io;
    rproc = r;
  }

  mmap-da :
      (r : Remoteproc P) (found : RemoteprocMem) (da size attribute : ℕ)
      → remoteproc_get_mem metal ops r none metal_bad_phys da none size ≡ some found
      → 0 < size
      → da ≢ metal_bad_phys
      → remoteproc_mmap metal ops r (some metal_bad_phys) (some da) size attribute
        ≡ mapped r found (remoteproc_datopa found da) da
  unfolding remoteproc_mmap
  mmap-da r found da size attribute eq pos_ ne = ground (arith, eq, pos_, ne)

  mmap-pa :
      (r : Remoteproc P) (found : RemoteprocMem) (pa size attribute : ℕ)
      → remoteproc_get_mem metal ops r none pa metal_bad_phys none size ≡ some found
      → 0 < size
      → pa ≢ metal_bad_phys
      → remoteproc_mmap metal ops r (some pa) (some metal_bad_phys) size attribute
        ≡ mapped r found pa (remoteproc_patoda found pa)
  unfolding remoteproc_mmap
  mmap-pa r found pa size attribute eq pos_ ne = ground (arith, eq, pos_, ne)

  -- Where no memory of a processor reaches the last address and no two share a physical address, a range
  -- of at least one byte of device addresses within one memory is mapped to a physical address, and this
  -- one back to the device address, at the same virtual address, and the processor is as it was.
  pub remoteproc_mmap-round :
      (r : Remoteproc P) (m : RemoteprocMem) (da size attribute : ℕ)
      → Layout r.mems
      → Memᴰ m r.mems
      → 0 < size
      → Inside m.da m.size da size
      → let there = remoteproc_mmap metal ops r (some metal_bad_phys) (some da) size attribute in
        let back = remoteproc_mmap metal ops r there.pa (some metal_bad_phys) size attribute in
        (there.da ≡ some da)
        × (back.da ≡ some da)
        × (back.pa ≡ there.pa)
        × (back.va ≡ there.va)
        × (back.rproc ≡ r)
  unfolding remoteproc_datopa remoteproc_patoda
  remoteproc_mmap-round r m da size attribute l i pos_ in_ =
      let (found, eq, j, within) = da-finds r m da size l i pos_ in_ in
      let fit = l.fits found j in
      let pa = found.pa + (da - found.da) in
      let in_pa : Inside found.pa found.size pa size = ground (arith, within) in
      let (found', eq', j', within') = pa-finds r found pa size l j pos_ in_pa in
      let same : found' ≡ found =
        l.apart found' found j' j pa (ground (arith, within', pos_))
          (ground (arith, in_pa, pos_)) in
      let e : remoteproc_datopa found da ≡ pa = ground (arith, within, fit, pos_) in
      let e' : remoteproc_patoda found' pa ≡ da = rw same (ground (arith, within, fit, pos_)) in
      rw
        (
          mmap-da r found da size attribute eq pos_ (ground (arith, within, fit, pos_)),
          e,
          mmap-pa r found' pa size attribute eq' pos_ (ground (arith, within, fit, pos_)),
          e',
          same,
        )
        (refl, refl, refl, refl, refl)
