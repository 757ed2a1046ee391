-- ===== src/Remoteproc/Elf/Data/Ends.antt =====
-- remoteproc_load: the end of the loop over the data of an image whose headers are complete.
use v85x_openamp.Base.{
  ℕ, zero, suc, ◌+◌, ◌≤◌, ◌<◌, ◌≡◌, refl, sym, ◌∙◌, ap, inl, inr, Bool, true, false, ◌&&◌, Option,
  none, some, arith, Bool-cases, ◌==◌, if◌then◌else◌, bit_and, pos,
}
use mathlib.Core.Path.{subst}
use v85x_openamp.Virtqueue.State.{Run, ok}
use v85x_openamp.Remoteproc.State.{RemoteprocOps, rproc_einval}
use v85x_openamp.Remoteproc.Memory.{metal_bad_phys, MetalIo}
use v85x_openamp.Remoteproc.Elf.{
  Bytes, ElfInfo, elf_phnum, ready_to_load, elf_state_hdrs_complete, is_short,
}
use v85x_openamp.Remoteproc.Elf.Load.{
  Load, rproc_loader_mask, post_data_load, load_complete, replace_phase, post_load, load_phase,
  elf_load,
}
use v85x_openamp.Remoteproc.Elf.Masks.{all_below, all_below_lem, whole, at_segment}
use v85x_openamp.Remoteproc.Elf.Next.{elf_load-Delivers}
use v85x_openamp.Remoteproc.Elf.Data.{
  DataStore, DataState, DataEnd, data_failed, data_loaded, place_segment, data_round, data_loop,
}

-- what the masks make of the state behind the last segment
record PostMasks (s : ℕ) : Type 0 where
  phase : bit_and s rproc_loader_mask ≡ post_data_load
  not_ready : bit_and s ready_to_load ≡ 0
  post : bit_and s post_data_load ≡ post_data_load
  complete : bit_and s elf_state_hdrs_complete ≡ elf_state_hdrs_complete

abbrev post_masks : ℕ → Bool
post_masks n =
    (bit_and (0x20800 + n) rproc_loader_mask == post_data_load)
    && ((bit_and (0x20800 + n) ready_to_load == 0)
        && ((bit_and (0x20800 + n) post_data_load == post_data_load)
            && (bit_and (0x20800 + n) elf_state_hdrs_complete == elf_state_hdrs_complete)))

post_masks_all : all_below 256 post_masks ≡ true
post_masks_all = refl

post_masks_lem : (n : ℕ) → n < 256 → PostMasks (0x20800 + n)
post_masks_lem n lt =
    let e : post_masks n ≡ true = all_below_lem 256 post_masks post_masks_all n lt in
    record {
      phase = ground (arith, e);
      not_ready = ground (arith, e);
      post = ground (arith, e);
      complete = ground (arith, e);
    }

PostMasks-of :
    (info : ElfInfo) (n : ℕ) → info.load_state ≡ 0x20800 + n → n < 256 → PostMasks info.load_state
PostMasks-of info n e lt = subst PostMasks (sym e) (post_masks_lem n lt)

-- behind the last segment, a call of elf_load completes the image
elf_load-post :
    (memory : ℕ → Bool) (img : Bytes) (offset len : ℕ) (info : ElfInfo)
    (last da noffset nlen nmemsize : ℕ)
    → bit_and last rproc_loader_mask ≡ post_data_load
    → PostMasks info.load_state
    → (r : Load) × (elf_load memory img offset len (some info) last da noffset nlen nmemsize ≡ ok r)
      × (r.ret ≡ pos (replace_phase info.load_state load_complete))
      × (r.da ≡ da)
      × (r.nlen ≡ 0)
unfolding elf_load load_phase post_load
elf_load-post memory img offset len info last da noffset nlen nmemsize at p = (
  record {
    ret = pos (replace_phase info.load_state load_complete);
    info = some (record info { load_state = replace_phase info.load_state load_complete });
    da = da;
    noffset = noffset;
    nlen = 0;
    nmemsize = nmemsize;
  },
  rw (elf_load, at, load_phase, p.not_ready, p.post, post_load, p.complete) refl,
  refl,
  refl,
  refl,
)

module _ {S P : Type 0} (memory : ℕ → Bool) (metal : MetalIo) (ops : RemoteprocOps P)
    (store : DataStore S) (null : Bytes) where
  abbrev Ends : Run (DataEnd S P) → Type 0
  Ends x = (r : DataEnd S P) × (x ≡ ok r)

  choice-Ends :
      (c : Bool) (x y : Run (DataEnd S P))
      → Ends x
      → Ends y
      → Ends (elim c [ false ↦ x | true ↦ y ])
  choice-Ends false x y at_x at_y = at_x
  choice-Ends true x y at_x at_y = at_y

  test-Ends : (c : Bool) (x y : Run (DataEnd S P)) → Ends x → Ends y → Ends (if c then x else y)
  test-Ends false x y at_x at_y = at_y
  test-Ends true x y at_x at_y = at_x

  -- a round ends where the rounds after it do
  data_round-Ends :
      (next : DataState S P → Option ElfInfo → ℕ → Run (DataEnd S P)) (r : Load) (state : ℕ)
      (a : DataState S P)
      → ((b : DataState S P) → Ends (next b r.info state))
      → Ends (data_round memory metal ops store null next r state a)
  unfolding data_round
  data_round-Ends next r state a rest =
      let (fine, b) = place_segment memory metal ops store null a r in
      let (ret, img, s) = store.load a.store r.noffset r.nlen none in
      let c = record a { store = s; img = img } in
      choice-Ends (r.da == metal_bad_phys) _ _
        (choice-Ends fine _ _ (data_failed rproc_einval r.info b, refl) (rest b))
        (choice-Ends (r.nlen == 0) _ _
          (choice-Ends (is_short ret r.nlen) _ _
            (rest (record c { offset = r.noffset; len = r.nlen }))
            (test-Ends (bit_and state post_data_load == 0) _ _ (data_failed ret r.info c, refl)
              (data_loaded r.info c, refl)))
          (data_loaded r.info a, refl))

  -- a round for no data is the last
  data_round-last :
      (next : DataState S P → Option ElfInfo → ℕ → Run (DataEnd S P)) (r : Load) (state : ℕ)
      (a : DataState S P)
      → r.da ≡ metal_bad_phys
      → r.nlen ≡ 0
      → data_round memory metal ops store null next r state a ≡ ok (data_loaded r.info a)
  unfolding data_round
  data_round-last next r state a no_address no_data = rw (data_round, no_address, no_data) refl

  data_loop-next :
      (fuel : ℕ) (a : DataState S P) (info : Option ElfInfo) (last : ℕ) (r : Load) (state : ℕ)
      → elf_load memory a.img a.offset a.len info last metal_bad_phys 0 0 0 ≡ ok r
      → r.ret ≡ pos state
      → data_loop memory metal ops store null (suc fuel) a info last
        ≡ data_round memory metal ops store null
            (data_loop memory metal ops store null fuel)
            r
            state
            a
  unfolding data_loop
  data_loop-next fuel a info last r state call at = rw (data_loop, call, at) refl

  post-Ends :
      (fuel : ℕ) (a : DataState S P) (info : ElfInfo) (n : ℕ)
      → 0 < fuel
      → n < 256
      → info.load_state ≡ 0x20800 + n
      → Ends (data_loop memory metal ops store null fuel a (some info) info.load_state)
  post-Ends zero a info n some_ lt at = absurd (omega (arith, some_))
  post-Ends (suc fuel) a info n some_ lt at =
      let p = PostMasks-of info n at lt in
      let (r, call, ret_, no_address, no_data) =
        elf_load-post memory a.img a.offset a.len info info.load_state metal_bad_phys 0 0 0 p.phase
          p in
      (
        data_loaded r.info a,
        data_loop-next fuel a (some info) info.load_state r
              (replace_phase info.load_state load_complete) call ret_
            ∙ data_round-last (data_loop memory metal ops store null fuel) r
                (replace_phase info.load_state load_complete) a no_address no_data,
      )

  -- The loop over the data of an image with at most 255 segments ends, whatever the store, the memories of
  -- the processor and its driver do, once it is given a round for each segment that is left and one more.
  -- This is for an image whose headers are complete.
  pub data_loop-ends :
      (fuel : ℕ) (a : DataState S P) (info : ElfInfo) (table : Bytes) (m : ℕ)
      → info.phdrs ≡ some table
      → info.load_state ≡ at_segment m
      → m ≤ elf_phnum info.ehdr
      → elf_phnum info.ehdr < 256
      → elf_phnum info.ehdr < m + fuel
      → (r : DataEnd S P) × (data_loop memory metal ops store null fuel a (some info) (at_segment m)
          ≡ ok r)
  data_loop-ends zero a info table m has at inside_ few enough =
      absurd (omega (arith, inside_, enough))
  data_loop-ends (suc fuel) a info table m has at inside_ few enough =
      let (r, call, delivers) =
        elf_load-Delivers whole memory a.img a.offset a.len info table m metal_bad_phys 0 0 0 has at
          inside_ few in
      elim delivers [
        | inl (ret_, same, no_address, no_data, others) ↦ (
          data_loaded r.info a,
          data_loop-next fuel a (some info) (at_segment m) r (0x40800 + elf_phnum info.ehdr) call
                ret_
              ∙ data_round-last (data_loop memory metal ops store null fuel) r
                  (0x40800 + elf_phnum info.ehdr) a no_address no_data,
        )
        | inr (k, s, lt, le, there, yes_, others, ret_, same, da_, no_, nl_, nm_) ↦
            let state = if k == elf_phnum info.ehdr then 0x20800 + k else at_segment k in
            let rest : (n : ℕ)
                → n ≡ state
                → ((b : DataState S P)
                    → Ends (
                        data_loop memory metal ops store null fuel b
                          (some (record info { load_state = n })) n))
                → Ends (
                    data_loop memory metal ops store null (suc fuel) a (some info) (at_segment m)) =
              λ n e then_.
                let (x, goes) =
                  data_round-Ends (data_loop memory metal ops store null fuel) r n a (λ b.
                    subst (λ i. Ends (data_loop memory metal ops store null fuel b i n))
                      (sym (same ∙ ap (λ c. some (record info { load_state = c })) (sym e)))
                      (then_ b)) in
                (
                  x,
                  data_loop-next fuel a (some info) (at_segment m) r n call (ret_ ∙ ap pos (sym e))
                      ∙ goes,
                ) in
            elim (Bool-cases (k == elf_phnum info.ehdr)) [
              | inl b ↦
                  rest (0x20800 + k) (sym (ap (λ c. if c then 0x20800 + k else at_segment k) b))
                    (λ c.
                      post-Ends fuel c (record info { load_state = 0x20800 + k }) k
                        (omega (arith, lt, le, enough)) (omega (arith, le, few)) refl)
              | inr b ↦
                  rest (at_segment k) (sym (ap (λ c. if c then 0x20800 + k else at_segment k) b))
                    (λ c.
                      data_loop-ends fuel c (record info { load_state = at_segment k }) table k has
                        refl le few (omega (arith, lt, enough)))
            ]
      ]
