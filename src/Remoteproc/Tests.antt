-- ===== src/Remoteproc/Tests.antt =====
-- The theorems on remote processors at one with two memories, and a resource table.
use v85x_openamp.Base.{
  ℕ, ◌+◌, ◌%◌, ◌<◌, ◌≡◌, refl, sym, ◌∙◌, [], ◌∷◌, if◌then◌else◌, ◌==◌, true, none, some, pos,
  negsuc, arith,
}
use mathlib.Core.List.{Memᴰ}
use v85x_openamp.Virtqueue.State.{ok}
use v85x_openamp.Remoteproc.Elf.{Bytes, ElfInfo, elf_phnum, ImageStore, HeadersEnd, header_loop}
use v85x_openamp.Remoteproc.Elf.Load.{Load, elf_load}
use v85x_openamp.Remoteproc.Elf.Masks.{wants_shdrs, at_stage, at_segment}
use v85x_openamp.Remoteproc.Elf.Data.{DataStore, DataState, DataEnd, data_loop}
use v85x_openamp.Remoteproc.Elf.Data.Ends.{data_loop-ends}
use v85x_openamp.Remoteproc.Elf.Next.{Delivers, elf_load-Delivers}
use v85x_openamp.Remoteproc.Elf.Loop.{header_loop-ends}
use v85x_openamp.Remoteproc.State.{RemoteprocState, ready, RemoteprocMem, Remoteproc, RemoteprocOps}
use v85x_openamp.Remoteproc.Life.Diagram.{config, start, shutdown}
use v85x_openamp.Remoteproc.Memory.{u32, metal_bad_phys, MetalIo, remoteproc_mmap}
use v85x_openamp.Remoteproc.Memory.Translate.{Inside, Layout, remoteproc_mmap-round}

-- a driver whose start fails as long as nothing has been loaded
abbrev a_driver : RemoteprocOps ℕ
a_driver = record {
  init = none;
  remove = none;
  config = some (λ r d. (pos 0, record r { priv = d }));
  start = some (λ r. (if r.priv == 0 then negsuc 0 else pos 0, r));
  stop = some (λ r. (pos 0, r));
  shutdown = none;
  get_mem = none;
  mmap = none;
}

-- a running processor with two memories
abbrev a_processor : RemoteprocState → Remoteproc ℕ
a_processor s = record {
  rsc_table = none;
  rsc_len = 0;
  rsc_io = none;
  mems =
      record { da = 0; pa = 0x40000000; size = 0x1000; name = 97 ∷ []; io = 1 }
      ∷ record { da = 0x8000; pa = 0x50000000; size = 0x2000; name = 98 ∷ []; io = 2 }
      ∷ [];
  bitmap = 0;
  bootaddr = 0;
  loader = none;
  state = s;
  priv = 5;
}

abbrev an_io : MetalIo
an_io = record {
  virt_to_offset = λ io va. some va;
  phys_to_offset = λ io pa. some (pa % 0x10000);
  phys_to_virt = λ io pa. some (pa + 1);
}

two_memories : Layout (a_processor ready).mems
two_memories = record {
  fits = λ m i. fits_both m i;
  apart = λ m m' i j a h k. apart_both m m' i j a h k;
}
  where
    fits_both :
        (m : RemoteprocMem)
        → Memᴰ m (a_processor ready).mems
        → (m.pa + m.size < u32) × (m.da + m.size < u32)
    fits_both m (Memᴰ.head e) = rw e (omega arith, omega arith)
    fits_both m (Memᴰ.tail (Memᴰ.head e)) = rw e (omega arith, omega arith)
    fits_both m (Memᴰ.tail (Memᴰ.tail i)) = elim i [ ]

    apart_both :
        (m m' : RemoteprocMem)
        → Memᴰ m (a_processor ready).mems
        → Memᴰ m' (a_processor ready).mems
        → (a : ℕ) → Inside m.pa m.size a 1
        → Inside m'.pa m'.size a 1
        → m ≡ m'
    apart_both m m' (Memᴰ.head e) (Memᴰ.head e') a h k = e ∙ sym e'
    apart_both m m' (Memᴰ.head e) (Memᴰ.tail (Memᴰ.head e')) a h k =
        absurd (ground (arith, e, e', h, k))
    apart_both m m' (Memᴰ.tail (Memᴰ.tail i)) j a h k = elim i [ ]
    apart_both m m' i (Memᴰ.tail (Memᴰ.tail j)) a h k = elim j [ ]
    apart_both m m' (Memᴰ.tail (Memᴰ.head e)) (Memᴰ.head e') a h k =
        absurd (ground (arith, e, e', h, k))
    apart_both m m' (Memᴰ.tail (Memᴰ.head e)) (Memᴰ.tail (Memᴰ.head e')) a h k = e ∙ sym e'

remoteproc_mmap-round_example :
    let r = a_processor ready in
    let there = remoteproc_mmap an_io a_driver r (some metal_bad_phys) (some 0x8100) 256 0 in
    let back = remoteproc_mmap an_io a_driver r there.pa (some metal_bad_phys) 256 0 in
    (there.da ≡ some 0x8100)
    × (back.da ≡ some 0x8100)
    × (back.pa ≡ there.pa)
    × (back.va ≡ there.va)
    × (back.rproc ≡ r)
remoteproc_mmap-round_example =
    remoteproc_mmap-round an_io a_driver (a_processor ready)
      (record { da = 0x8000; pa = 0x50000000; size = 0x2000; name = 98 ∷ []; io = 2 }) 0x8100 256 0
      two_memories (Memᴰ.tail (Memᴰ.head refl)) (omega arith) (omega arith, omega arith)

-- an image with one program header and one section, each behind the header
abbrev an_image : Bytes
an_image i =
    if i == 28
    then 52
    else if i == 32
    then 84
    else if i == 42
    then 32
    else if i == 44
    then 1
    else if i == 46
    then 40
    else if i == 48
    then 1
    else 0

-- a store that counts what it has loaded
abbrev a_store : ImageStore ℕ
a_store = record { load = λ s o n. (pos n, (λ i. an_image (o + i)), s + 1); seek = true }

header_loop-ends_example :
    (r : HeadersEnd ℕ) × (header_loop (λ n. true) a_store 6 0 an_image 0 10 none 0 7 9 ≡ ok r)
header_loop-ends_example = header_loop-ends (λ n. true) a_store 6 0 an_image 10 7 9 (omega arith)

-- the second header has 16 bytes of data and 4 of padding for the address 0
abbrev a_table : Bytes
a_table = λ i.
    if i == 0 then 6 else if i == 32 then 1 else if i == 48 then 16 else if i == 52 then 20 else 0

-- two program headers, the second of which is to be loaded
abbrev two_headers : ElfInfo
two_headers = record {
  ehdr = λ i. if i == 44 then 2 else 0;
  load_state = 0x10800;
  phdrs = some a_table;
  shdrs = none;
  shstrtab = none;
}

few_segments : elf_phnum two_headers.ehdr < 256
unfolding elf_phnum
few_segments = ground arith

-- the image before its section headers are loaded
abbrev without_sections : ElfInfo
without_sections = record two_headers { load_state = 0x10200 }

elf_load-Delivers_example :
    (r : Load) × (elf_load
        (λ n. true)
        (λ i. 0)
        0
        0
        (some without_sections)
        (at_stage wants_shdrs 0)
        7
        8
        9
        10
      ≡ ok r)
    × Delivers wants_shdrs without_sections 0 9 r
elf_load-Delivers_example =
    elf_load-Delivers wants_shdrs (λ n. true) (λ i. 0) 0 0 without_sections a_table 0 7 8 9 10 refl
      refl (omega arith) few_segments

-- a store of 16 bytes of data, over the number of its uses
abbrev a_data_store : DataStore ℕ
a_data_store = record {
  load = λ s o n place. (if 16 == n then pos n else negsuc 0, (λ i. o + i), s + 1);
  block_set = λ s io o byte n. s + 1;
}

abbrev before_data : DataState ℕ ℕ
before_data = record {
  store = 0;
  rproc = a_processor ready;
  io = none;
  img = λ i. 0;
  offset = 0;
  len = 0;
}

enough_rounds : elf_phnum two_headers.ehdr < 0 + 3
unfolding elf_phnum
enough_rounds = ground arith

data_loop-ends_example :
    (r : DataEnd ℕ ℕ) × (data_loop
        (λ n. true)
        an_io
        a_driver
        a_data_store
        (λ i. 0)
        3
        before_data
        (some two_headers)
        (at_segment 0)
      ≡ ok r)
data_loop-ends_example =
    data_loop-ends (λ n. true) an_io a_driver a_data_store (λ i. 0) 3 before_data two_headers
      a_table 0 refl refl (omega arith) few_segments enough_rounds
