-- ===== src/Remoteproc/Elf/Loop.antt =====
-- The loop over the headers of an ELF image ends.
use v85x_openamp.Base.{
  ℕ, zero, suc, ◌+◌, ◌%◌, ◌≤◌, ◌≡◌, refl, ◌∙◌, ◌⊎◌, inl, inr, Bool, true, false, not, ◌&&◌, ◌||◌,
  Option, none, some, arith, ltb, ◌==◌, bit_and, pos, negsuc, Bool-cases, ap,
}
use v85x_openamp.Virtqueue.State.{Run, ok}
use v85x_openamp.Remoteproc.Memory.{u32}
use v85x_openamp.Remoteproc.Elf.{
  Bytes, ElfInfo, Header, elf_phoff, elf_shoff, section_place, phdrs_stage, elf_load_header,
  ready_to_load, elf_ehdr_size, elf_info_size, blank_info, rproc_enomem, ImageStore, is_short,
  HeadersEnd, failed, loaded, header_loop,
}
use v85x_openamp.Remoteproc.Elf.Headers.{
  Asks, fails, done, shstrtab, shdrs, phdrs, shdrs_size, phdrs_size, phdrs-Asks,
}
use v85x_openamp.Remoteproc.Elf.Answer.{
  at_least, at_least_one, at_least_two, Answers, shstrtab-answered, shdrs-answered, phdrs-answered,
}

module _ {S : Type 0} (memory : ℕ → Bool) (store : ImageStore S) where
  -- One round after a call that has not failed: the loop ends, or the next call is on what was asked for.
  round :
      (fuel : ℕ) (s : S) (img : Bytes) (offset len : ℕ) (info : Option ElfInfo)
      (last noffset nlen state : ℕ) (h : Header)
      → elf_load_header memory img offset len info last noffset nlen ≡ ok h
      → h.ret ≡ pos state
      → ((r : HeadersEnd S) × (header_loop memory store
              (suc fuel)
              s
              img
              offset
              len
              info
              last
              noffset
              nlen
            ≡ ok r))
        ⊎ ((s' : S) × (img' : Bytes) × (header_loop memory store
                (suc fuel)
                s
                img
                offset
                len
                info
                last
                noffset
                nlen
              ≡ header_loop memory store fuel s' img' h.noffset h.nlen h.info state h.noffset
                  h.nlen))
  unfolding header_loop
  round fuel s img offset len info last noffset nlen state h call at =
      let enough =
        not (bit_and state ready_to_load == 0)
        && ((h.nlen == 0) || (ltb ((offset + len) % u32) h.noffset && not store.seek)) in
      let (ret, img', s') = store.load s h.noffset h.nlen in
      rw (call, at) (go enough (is_short ret h.nlen))
    where
      Goes : Run (HeadersEnd S) → Type 0
      Goes x =
          ((r : HeadersEnd S) × (x ≡ ok r))
          ⊎ ((s' : S) × (img' : Bytes) × (x
                ≡ header_loop memory store fuel s' img' h.noffset h.nlen h.info state h.noffset
                    h.nlen))

      go :
          (enough short : Bool)
          → let (ret, img', s') = store.load s h.noffset h.nlen in
            Goes (elim enough as (λ _. Run (HeadersEnd S)) [
              | true ↦ ok (loaded state h.info s)
              | false ↦ elim short as (λ _. Run (HeadersEnd S)) [
                | true ↦ ok (failed ret h.info s')
                | false ↦
                    header_loop memory store fuel s' img' h.noffset h.nlen h.info state h.noffset
                      h.nlen
              ]
            ])
      go true short = inl (loaded state h.info s, refl)
      go false true =
          let (ret, img', s') = store.load s h.noffset h.nlen in inl (failed ret h.info s', refl)
      go false false = let (ret, img', s') = store.load s h.noffset h.nlen in inr (s', img', refl)

  -- a call that has failed, and one that has all headers
  halts :
      (fuel : ℕ) (s : S) (img : Bytes) (offset len : ℕ) (info : Option ElfInfo)
      (last noffset nlen : ℕ) (h : Header)
      → elf_load_header memory img offset len info last noffset nlen ≡ ok h
      → ((n : ℕ) × (h.ret ≡ negsuc n)) ⊎ ((h.ret ≡ pos 0x10800) × (h.nlen ≡ 0))
      → (r : HeadersEnd S) × (header_loop memory store
            (suc fuel)
            s
            img
            offset
            len
            info
            last
            noffset
            nlen
          ≡ ok r)
  unfolding header_loop
  halts fuel s img offset len info last noffset nlen h call (inl (n, at)) =
      (failed (negsuc n) h.info s, rw (call, at) refl)
  halts fuel s img offset len info last noffset nlen h call (inr (at, z)) =
      (loaded 0x10800 h.info s, rw (call, at, z) refl)

  -- the next round, on the part that has been asked for
  onwards :
      (k : ℕ)
      → ((fuel : ℕ) (s : S) (img : Bytes) (offset len : ℕ) (info : Option ElfInfo)
            (last noffset nlen : ℕ) (h : Header)
          → k ≤ fuel
          → elf_load_header memory img offset len info last noffset nlen ≡ ok h
          → Asks k h
          → (r : HeadersEnd S) × (header_loop memory store
                (suc fuel)
                s
                img
                offset
                len
                info
                last
                noffset
                nlen
              ≡ ok r))
      → (fuel : ℕ) (s : S) (img : Bytes) (offset len : ℕ) (info : Option ElfInfo)
        (last noffset nlen : ℕ) (h : Header)
      → suc k ≤ fuel
      → elf_load_header memory img offset len info last noffset nlen ≡ ok h
      → (i : ElfInfo) (start size : ℕ)
      → h ≡ record { ret = pos i.load_state; info = some i; noffset = start; nlen = size }
      → ((img' : Bytes) → Answers memory img' k i start size)
      → (r : HeadersEnd S) × (header_loop memory store
            (suc fuel)
            s
            img
            offset
            len
            info
            last
            noffset
            nlen
          ≡ ok r)
  onwards k rest zero s img offset len info last noffset nlen h le call i start size e answer =
      absurd (omega (arith, le))
  onwards k rest (suc fuel) s img offset len info last noffset nlen h le call i start size e
        answer =
      elim (round (suc fuel) s img offset len info last noffset nlen i.load_state h call
        (ap (λ h. h.ret) e)) [
          | inl r ↦ r
          | inr (s', img', same) ↦
              let (h', call', a) = answer img' in
              let (r, f) =
                rest fuel s' img' start size (some i) i.load_state start size h' (omega (arith, le))
                  call' a in
              (
                r,
                same
                    ∙ ap
                        (λ h.
                          header_loop memory store (suc fuel) s' img' h.noffset h.nlen h.info
                            i.load_state h.noffset h.nlen)
                        e
                    ∙ f,
              )
        ]

  -- A call that leaves at most `k` parts to be asked for is followed by `k` rounds at most.
  asked_ends :
      (k fuel : ℕ) (s : S) (img : Bytes) (offset len : ℕ) (info : Option ElfInfo)
      (last noffset nlen : ℕ) (h : Header)
      → k ≤ fuel
      → elf_load_header memory img offset len info last noffset nlen ≡ ok h
      → Asks k h
      → (r : HeadersEnd S) × (header_loop memory store
            (suc fuel)
            s
            img
            offset
            len
            info
            last
            noffset
            nlen
          ≡ ok r)
  asked_ends k fuel s img offset len info last noffset nlen h le call (fails n e) =
      halts fuel s img offset len info last noffset nlen h call (inl (n, e))
  asked_ends k fuel s img offset len info last noffset nlen h le call (done e z) =
      halts fuel s img offset len info last noffset nlen h call (inr (e, z))
  asked_ends (suc k) fuel s img offset len info last noffset nlen h le call
        (shstrtab i shdr e at found) =
      onwards k (asked_ends k) fuel s img offset len info last noffset nlen h le call i
        (section_place i shdr).0 (section_place i shdr).1 e
        (λ img'.
          let (h', call', a) = shstrtab-answered memory img' i shdr at found in
          (h', call', at_least k a))
  asked_ends (suc (suc k)) fuel s img offset len info last noffset nlen h le call (shdrs i e at) =
      onwards (suc k) (asked_ends (suc k)) fuel s img offset len info last noffset nlen h le call i
        (elf_shoff i.ehdr) (shdrs_size i) e
        (λ img'.
          let (h', call', a) = shdrs-answered memory img' i at in (h', call', at_least_one k a))
  asked_ends (suc (suc (suc k))) fuel s img offset len info last noffset nlen h le call
        (phdrs i e at) =
      onwards (suc (suc k)) (asked_ends (suc (suc k))) fuel s img offset len info last noffset nlen
        h le call i (elf_phoff i.ehdr) (phdrs_size i) e
        (λ img'.
          let (h', call', a) = phdrs-answered memory img' i at in (h', call', at_least_two k a))

  -- the first call that has the header, where the structure is new
  started :
      (img : Bytes) (len offset noffset nlen : ℕ)
      → ltb len (elf_ehdr_size img) ≡ false
      → (h : Header) × (elf_load_header memory img offset len none 0 noffset nlen ≡ ok h) × Asks 3 h
  unfolding elf_load_header
  started img len offset noffset nlen has = elim (Bool-cases (memory (elf_info_size img))) [
    | inl yes_ ↦ (
      phdrs_stage memory img offset len 0x100 noffset nlen (blank_info img),
      ground (arith, has, yes_),
      phdrs-Asks memory img offset len 0x100 noffset nlen (blank_info img) refl,
    )
    | inr no_ ↦ (
      record { ret = rproc_enomem; info = none; noffset = noffset; nlen = nlen },
      ground (arith, has, no_),
      fails 0 refl,
    )
  ]

  -- the first call that has not
  short_start :
      (img : Bytes) (len offset noffset nlen : ℕ)
      → ltb len (elf_ehdr_size img) ≡ true
      → elf_load_header memory img offset len none 0 noffset nlen
        ≡ ok (record { ret = pos 0; info = none; noffset = 0; nlen = elf_ehdr_size img })
  unfolding elf_load_header
  short_start img len offset noffset nlen short = ground (arith, short)

  first_ends :
      (fuel : ℕ) (s : S) (img : Bytes) (offset len noffset nlen : ℕ)
      → 3 ≤ fuel
      → ltb len (elf_ehdr_size img) ≡ false
      → (r : HeadersEnd S) × (header_loop memory store
            (suc fuel)
            s
            img
            offset
            len
            none
            0
            noffset
            nlen
          ≡ ok r)
  first_ends fuel s img offset len noffset nlen le has =
      let (h, call, a) = started img len offset noffset nlen has in
      asked_ends 3 fuel s img offset len none 0 noffset nlen h le call a

  -- `rest` is about a call with as many bytes as a header has.
  restart :
      (least fuel : ℕ)
      → ((s : S) (img : Bytes) (len noffset nlen : ℕ)
          → least ≤ len
          → (r : HeadersEnd S) × (header_loop memory store fuel s img 0 len none 0 noffset nlen
              ≡ ok r))
      → (s : S) (img : Bytes) (offset len noffset nlen : ℕ) → 3 ≤ fuel
      → (ltb len (elf_ehdr_size img) ≡ true → least ≤ elf_ehdr_size img)
      → (r : HeadersEnd S) × (header_loop memory store
            (suc fuel)
            s
            img
            offset
            len
            none
            0
            noffset
            nlen
          ≡ ok r)
  restart least fuel rest s img offset len noffset nlen le enough =
      elim (Bool-cases (ltb len (elf_ehdr_size img))) [
        | inr has ↦ first_ends fuel s img offset len noffset nlen le has
        | inl short ↦
            let size = elf_ehdr_size img in
            elim (round fuel s img offset len none 0 noffset nlen 0
              (record { ret = pos 0; info = none; noffset = 0; nlen = size })
              (short_start img len offset noffset nlen short) refl) [
                | inl r ↦ r
                | inr (s', img', same) ↦
                    let (r, f) = rest s' img' size 0 size (enough short) in (r, same ∙ f)
              ]
      ]

  header_size : (img : Bytes) → (elf_ehdr_size img ≡ 52) ⊎ (elf_ehdr_size img ≡ 64)
  unfolding elf_ehdr_size
  header_size img = ground arith

  with_64 :
      (fuel : ℕ) (s : S) (img : Bytes) (len noffset nlen : ℕ)
      → 3 ≤ fuel
      → 64 ≤ len
      → (r : HeadersEnd S) × (header_loop memory store (suc fuel) s img 0 len none 0 noffset nlen
          ≡ ok r)
  with_64 fuel s img len noffset nlen le long =
      first_ends fuel s img 0 len noffset nlen le (ground (arith, long, header_size img))

  with_52 :
      (fuel : ℕ) (s : S) (img : Bytes) (len noffset nlen : ℕ)
      → 4 ≤ fuel
      → 52 ≤ len
      → (r : HeadersEnd S) × (header_loop memory store (suc fuel) s img 0 len none 0 noffset nlen
          ≡ ok r)
  with_52 zero s img len noffset nlen le long = absurd (omega (arith, le))
  with_52 (suc fuel) s img len noffset nlen le long =
      restart 64 (suc fuel)
        (λ s img len noffset nlen. with_64 fuel s img len noffset nlen (omega (arith, le))) s img 0
        len noffset nlen (omega (arith, le)) (λ short. ground (arith, short, long, header_size img))

  -- The loop over the headers ends within six rounds, whatever the image holds, wherever its tables stand
  -- and however large they are, and whatever the store and the memory answer; it never fails its assertion.
  pub header_loop-ends :
      (fuel : ℕ) (s : S) (img : Bytes) (len noffset nlen : ℕ)
      → 6 ≤ fuel
      → (r : HeadersEnd S) × (header_loop memory store fuel s img 0 len none 0 noffset nlen ≡ ok r)
  header_loop-ends zero s img len noffset nlen le = absurd (omega (arith, le))
  header_loop-ends (suc zero) s img len noffset nlen le = absurd (omega (arith, le))
  header_loop-ends (suc (suc fuel)) s img len noffset nlen le =
      restart 52 (suc fuel)
        (λ s img len noffset nlen. with_52 fuel s img len noffset nlen (omega (arith, le))) s img 0
        len noffset nlen (omega (arith, le)) (λ short. ground (arith, header_size img))
