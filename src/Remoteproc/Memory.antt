-- ===== src/Remoteproc/Memory.antt =====
-- remoteproc.c: the memories of a remote processor, looked up by name or address, and the translation
-- between its addresses and those of this core. Addresses and sizes are numbers below 2 ^ 32.
pub mod Translate
use v85x_openamp.Base.{
  ℕ, ◌+◌, ◌-◌, ◌%◌, ◌^◌, Bool, true, false, not, ◌&&◌, ◌||◌, Option, none, some, List, [], ◌∷◌,
  ◌++◌, if◌then◌else◌, ltb, leb, ◌==◌, take, length,
}
use v85x_openamp.Rpmsg.Send.{is_null}
use v85x_openamp.Rpmsg.Endpoint.{same}
use v85x_openamp.Remoteproc.State.{RemoteprocMem, Remoteproc, RemoteprocOps}

abbrev pub u32 : ℕ
u32 = 2 ^ 32

abbrev pub rproc_max_name_len : ℕ
rproc_max_name_len = 32

abbrev pub metal_bad_phys : ℕ
metal_bad_phys = 0xffffffff

unfoldable pub remoteproc_datopa : RemoteprocMem → ℕ → ℕ
remoteproc_datopa mem da = (mem.pa + da + u32 - mem.da) % u32

unfoldable pub remoteproc_patoda : RemoteprocMem → ℕ → ℕ
remoteproc_patoda mem pa = (mem.da + pa + u32 - mem.pa) % u32

-- `start` is `pa_start` or `da_start`, `extent` the size of the memory; the sums wrap.
unfoldable pub covers : ℕ → ℕ → ℕ → ℕ → Bool
covers start extent a size =
    leb start a
    && (leb ((a + size) % u32) ((start + extent) % u32) && ltb a ((start + extent) % u32))

-- `strncpy`; a NULL name is empty. For pointers that are not NULL.
unfoldable pub remoteproc_init_mem :
    RemoteprocMem → Option (List ℕ) → ℕ → ℕ → ℕ → Option ℕ → RemoteprocMem
remoteproc_init_mem mem name pa da size none = mem
remoteproc_init_mem mem name pa da size (some io) = if size == 0 then mem else record {
  da = da;
  pa = pa;
  size = size;
  name = elim name [ none ↦ [] | some n ↦ take rproc_max_name_len n ];
  io = io;
}

-- what one round of the search finds out of a memory: it, the next round, or NULL
pub data Round : Type 0 where
  this next_ nothing : Round

abbrev pub if_found : Bool → Round
if_found b = if b then this else next_

-- the list, then `otherwise`
unfoldable pub search_mems :
    (RemoteprocMem → Round) → Option RemoteprocMem → List RemoteprocMem → Option RemoteprocMem
search_mems round otherwise [] = otherwise
search_mems round otherwise (mem ∷ mems) =
    let rest = search_mems round otherwise mems in
    elim (round mem) [ this ↦ some mem | next_ ↦ rest | nothing ↦ none ]

abbrev pub is_long : Option (List ℕ) → Bool
is_long none = false
is_long (some name) = ltb rproc_max_name_len (length name)

-- The I/O regions of libmetal (include/metal/io.h), by their numbers. An offset out of range is `none`, and
-- so is NULL.
pub record MetalIo : Type 0 where
  pub virt_to_offset : ℕ → ℕ → Option ℕ
  pub phys_to_offset : ℕ → ℕ → Option ℕ
  pub phys_to_virt : ℕ → ℕ → Option ℕ

module _ (metal : MetalIo) where
  unfoldable pub search_round : Option (List ℕ) → ℕ → ℕ → Option ℕ → ℕ → RemoteprocMem → Round
  unfolding covers
  search_round (some name) pa da va size mem =
      if_found (same (take rproc_max_name_len name) (take rproc_max_name_len mem.name))
  search_round none pa da va size mem =
      if not (pa == metal_bad_phys)
      then if_found (covers mem.pa mem.size pa size)
      else if not (da == metal_bad_phys)
      then if_found (covers mem.da mem.size da size)
      else elim va [
        | none ↦ nothing
        | some v ↦ if_found (not (is_null (metal.virt_to_offset mem.io v)))
      ]

  module _ {P : Type 0} (ops : RemoteprocOps P) where
    unfoldable pub remoteproc_get_mem :
        Remoteproc P → Option (List ℕ) → ℕ → ℕ → Option ℕ → ℕ → Option RemoteprocMem
    unfolding search_round search_mems
    remoteproc_get_mem r name pa da va size =
        if is_long name
        then none
        else search_mems (search_round name pa da va size)
            (elim ops.get_mem [ none ↦ none | some op ↦ op r name pa da va size ]) r.mems

    abbrev pub io_of : Option RemoteprocMem → Option ℕ
    io_of none = none
    io_of (some mem) = some mem.io

    -- `none` is a NULL processor.
    unfoldable pub remoteproc_get_io_with_name : Option (Remoteproc P) → Option (List ℕ) → Option ℕ
    unfolding remoteproc_get_mem
    remoteproc_get_io_with_name none name = none
    remoteproc_get_io_with_name (some r) name =
        io_of (remoteproc_get_mem r name metal_bad_phys metal_bad_phys none 0)

    unfoldable pub remoteproc_get_io_with_pa : Option (Remoteproc P) → ℕ → Option ℕ
    unfolding remoteproc_get_mem
    remoteproc_get_io_with_pa none pa = none
    remoteproc_get_io_with_pa (some r) pa =
        io_of (remoteproc_get_mem r none pa metal_bad_phys none 0)

    -- with the offset, for a pointer to it that is not NULL
    unfoldable pub remoteproc_get_io_with_da : Option (Remoteproc P) → ℕ → Option (ℕ × Option ℕ)
    unfolding remoteproc_get_mem remoteproc_datopa
    remoteproc_get_io_with_da none da = none
    remoteproc_get_io_with_da (some r) da =
        elim (remoteproc_get_mem r none metal_bad_phys da none 0) [
          | none ↦ none
          | some mem ↦ some (mem.io, metal.phys_to_offset mem.io (remoteproc_datopa mem da))
        ]

    unfoldable pub remoteproc_get_io_with_va : Option (Remoteproc P) → Option ℕ → Option ℕ
    unfolding remoteproc_get_mem
    remoteproc_get_io_with_va none va = none
    remoteproc_get_io_with_va (some r) va =
        io_of (remoteproc_get_mem r none metal_bad_phys metal_bad_phys va 0)

    -- What `remoteproc_mmap` returns, with `*pa`, `*da` and `*io` after it.
    pub record Mapped : Type 0 where
      pub va : Option ℕ
      pub pa : Option ℕ
      pub da : Option ℕ
      pub io : Option ℕ
      pub rproc : Remoteproc P

    abbrev given : Option ℕ → ℕ
    given none = metal_bad_phys
    given (some a) = a

    -- a store through a pointer that may be NULL
    abbrev stored : Option ℕ → ℕ → Option ℕ
    stored none a = none
    stored (some old) a = some a

    -- For pointers to the processor and `io` that are not NULL; `*io` is `none` where nothing is stored.
    unfoldable pub remoteproc_mmap : Remoteproc P → Option ℕ → Option ℕ → ℕ → ℕ → Mapped
    unfolding remoteproc_get_mem remoteproc_patoda remoteproc_datopa
    remoteproc_mmap r pa da size attribute =
        let lpa = given pa in
        let lda = given da in
        if (size == 0) || (is_null pa && is_null da)
        then record { va = none; pa = pa; da = da; io = none; rproc = r }
        else elim (remoteproc_get_mem r none lpa lda none size) [
          | some mem ↦
              let lda' = if not (lpa == metal_bad_phys) then remoteproc_patoda mem lpa else lda in
              let lpa' =
                if not (lpa == metal_bad_phys)
                then lpa
                else if not (lda == metal_bad_phys)
                then remoteproc_datopa mem lda
                else lpa in
              record {
                va = metal.phys_to_virt mem.io lpa';
                pa = stored pa lpa';
                da = stored da lda';
                io = some mem.io;
                rproc = r;
              }
          | none ↦ elim ops.mmap [
            | none ↦ record {
              va = none;
              pa = stored pa lpa;
              da = stored da lda;
              io = none;
              rproc = r;
            }
            | some op ↦
                let (va, lpa', lda', io, r') = op r lpa lda size attribute in
                record { va = va; pa = stored pa lpa'; da = stored da lda'; io = io; rproc = r' }
          ]
        ]

-- for pointers that are not NULL
unfoldable pub remoteproc_add_mem : {P : Type 0} → Remoteproc P → RemoteprocMem → Remoteproc P
remoteproc_add_mem r mem = record r { mems = r.mems ++ mem ∷ [] }
