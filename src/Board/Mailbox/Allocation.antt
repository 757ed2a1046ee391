-- ===== src/Board/Mailbox/Allocation.antt =====
-- hal_msgbox_alloc_channel and hal_msgbox_free_channel of sunxi_mailbox.c on the list of channels.
use v85x_openamp.Base.{
  ℕ, ◌≤◌, ◌<◌, ◌≡◌, refl, ap, ◌∙◌, ◌⊎◌, inl, inr, Bool, true, false, Option, none, some, List, [],
  ◌∷◌, ◌++◌, arith, length, update, ◌==◌, ltb, if◌then◌else◌, Bool-cases,
}
use v85x_openamp.Virtqueue.State.{ok, out_of_fuel, ◌>>=◌}
use v85x_openamp.Board.Mailbox.{
  MsgEndpoint, Msgbox, sign_bit, this_msgbox_use, is_at, set_next, reader_loop,
  msgbox_enable_rec_int, msgbox_disable_rec_int, hal_msgbox_alloc_channel, hal_msgbox_free_channel,
}
use v85x_openamp.Board.Mailbox.Channels.{
  has, has-append, Chain, settings, last, frame, append_walk_lem, linked-Chain, unlink_walk_lem,
  unlinked-Chain, head_reads, is_empty, reader_loop_lem,
}

-- the settings of a new channel
abbrev configured : MsgEndpoint → ℕ → ℕ → ℕ → MsgEndpoint
configured e remote read write = record e {
  local_amp = this_msgbox_use;
  remote_amp = remote;
  read_ch = read;
  write_ch = write;
}

same_head :
    (ept ept' : ℕ → MsgEndpoint) (zs : List ℕ)
    → ((q : ℕ) → settings (ept' q) ≡ settings (ept q))
    → head_reads ept' zs ≡ head_reads ept zs
same_head ept ept' [] same = refl
same_head ept ept' (z ∷ zs) same = ap (λ (t : ℕ × ℕ × ℕ × ℕ × Bool). ltb t.3 sign_bit) (same z)

module _ {R : Type 0} (read32 : ℕ → R → ℕ × R) (write32 : ℕ → ℕ → R → R) where
  abbrev enabled : MsgEndpoint → ℕ → R → R
  enabled e read r = if ltb read sign_bit then msgbox_enable_rec_int read32 write32 e r else r

  -- the end of `hal_msgbox_free_channel`, after the walk
  ended :
      {D : Type 0} (fuel : ℕ) (s : Msgbox R D) (ept : ℕ → MsgEndpoint) (start : Option ℕ) (p : ℕ)
      (zs : List ℕ)
      → Chain ept start zs
      → 0 < fuel
      → ◌>>=◌ {B = Msgbox R D} (reader_loop fuel ept start) (λ rev_int. ok (record s {
        it_edp = start;
        ept = ept;
        regs = if rev_int then s.regs else msgbox_disable_rec_int read32 write32 (ept p) s.regs;
      }))
        ≡ (if head_reads ept zs
            then ok (record s {
              it_edp = start;
              ept = ept;
              regs =
                  if is_empty zs
                  then msgbox_disable_rec_int read32 write32 (ept p) s.regs
                  else s.regs;
            })
            else out_of_fuel)
  ended fuel s ept start p [] c some_fuel = rw (reader_loop_lem fuel ept start [] c some_fuel) refl
  ended fuel s ept start p (z ∷ zs) c some_fuel =
      rw (reader_loop_lem fuel ept start (z ∷ zs) c some_fuel) (ground arith)

  -- A channel that is not in the list is put at its end, with the cores and channels that it is given,
  -- and no other channel's settings change; its interrupt is enabled if it is read from.
  pub hal_msgbox_alloc_channel-Chain :
      {D : Type 0} (fuel : ℕ) (s : Msgbox R D) (xs : List ℕ) (p remote read write : ℕ)
      → Chain s.ept s.it_edp xs
      → has p xs ≡ false
      → length xs ≤ fuel
      → (s' : Msgbox R D) × (hal_msgbox_alloc_channel read32 write32 fuel s p remote read write
          ≡ ok (0, s'))
        × Chain s'.ept s'.it_edp (xs ++ p ∷ [])
        × (settings (s'.ept p) ≡ (this_msgbox_use, remote, write, read, (s.ept p).receive))
        × ((q : ℕ) → (q ≡ p) ⊎ (settings (s'.ept q) ≡ settings (s.ept q)))
        × (s'.regs ≡ (
            if ltb read sign_bit
            then msgbox_enable_rec_int read32 write32 (s'.ept p) s.regs
            else s.regs))
  unfolding hal_msgbox_alloc_channel
  hal_msgbox_alloc_channel-Chain fuel s [] p remote read write c out enough =
      let ept' = set_next (update s.ept p (configured (s.ept p) remote read write)) p none in
      (
        record s { it_edp = some p; ept = ept'; regs = enabled (ept' p) read s.regs },
        rw (hal_msgbox_alloc_channel, c) refl,
        (refl, refl, ground arith),
        ground arith,
        λ q. elim (Bool-cases (q == p)) [
          | inl same ↦ inl (ground (arith, same))
          | inr other ↦ inr (ground (arith, other))
        ],
        refl,
      )
  hal_msgbox_alloc_channel-Chain fuel s (x ∷ xs) p remote read write (at, apart, rest) out enough =
      let e = configured (s.ept p) remote read write in
      let ept = update s.ept p e in
      let chain : Chain ept (some x) (x ∷ xs) =
        frame s.ept (some x) (x ∷ xs) p e (refl, apart, rest) out in
      let ept' = set_next (set_next ept (last x xs) (some p)) p none in
      (
        record s { it_edp = some x; ept = ept'; regs = enabled (ept' p) read s.regs },
        rw
            (
              hal_msgbox_alloc_channel,
              at,
              append_walk_lem xs fuel ept x p chain (omega (arith, enough)),
            )
            refl,
        linked-Chain xs ept x p chain out,
        ground (arith, Bool-cases (last x xs == p)),
        λ q. elim (Bool-cases (q == p)) [
          | inl same ↦ inl (ground (arith, same))
          | inr other ↦ inr (ground (arith, other, Bool-cases (last x xs == q)))
        ],
        refl,
      )

  -- A channel in the list is taken out of it. The call returns only if no channel is left or the
  -- first one left is read from; then the others keep their settings and their order, and the
  -- interrupt is disabled if none is left. Otherwise it does not end.
  pub hal_msgbox_free_channel-Chain :
      {D : Type 0} (fuel : ℕ) (s : Msgbox R D) (xs ys : List ℕ) (p : ℕ)
      → Chain s.ept s.it_edp (xs ++ p ∷ ys)
      → length xs < fuel
      → (s' : Msgbox R D) × (hal_msgbox_free_channel read32 write32 fuel s p
          ≡ (if head_reads s.ept (xs ++ ys) then ok s' else out_of_fuel))
        × Chain s'.ept s'.it_edp (xs ++ ys)
        × ((q : ℕ) → settings (s'.ept q) ≡ settings (s.ept q))
        × (s'.regs ≡ (
            if is_empty (xs ++ ys)
            then msgbox_disable_rec_int read32 write32 (s'.ept p) s.regs
            else s.regs))
  unfolding hal_msgbox_free_channel
  hal_msgbox_free_channel-Chain fuel s [] ys p (at, apart, rest) enough =
      let start = (s.ept p).next in
      let ept' = set_next s.ept p none in
      let chain = frame s.ept start ys p (record (s.ept p) { next = none }) rest apart in
      let same : (q : ℕ) → settings (ept' q) ≡ settings (s.ept q) =
        λ q. ground (arith, Bool-cases (p == q)) in
      let here : is_at s.it_edp p ≡ true = rw at (ground arith) in
      (
        record s {
          it_edp = start;
          ept = ept';
          regs =
              if is_empty ys then msgbox_disable_rec_int read32 write32 (ept' p) s.regs else s.regs;
        },
        rw (hal_msgbox_free_channel, here)
            (ended fuel s ept' start p ys chain (omega (arith, enough))
              ∙ rw (same_head s.ept ept' ys same) refl),
        chain,
        same,
        refl,
      )
  hal_msgbox_free_channel-Chain fuel s (x ∷ xs) ys p (at, apart, rest) enough =
      let before : Chain s.ept (some x) (x ∷ xs ++ p ∷ ys) = (refl, apart, rest) in
      let ept' = set_next (set_next s.ept (last x xs) (s.ept p).next) p none in
      let chain = unlinked-Chain xs ys s.ept x p before in
      let same : (q : ℕ) → settings (ept' q) ≡ settings (s.ept q) =
        λ q. ground (arith, Bool-cases (p == q), Bool-cases (last x xs == q)) in
      let elsewhere : is_at s.it_edp p ≡ false =
        rw at (ground (arith, has-append x xs (p ∷ ys), apart, Bool-cases (has x xs))) in
      (
        record s { it_edp = some x; ept = ept'; regs = s.regs },
        rw
            (
              hal_msgbox_free_channel,
              elsewhere,
              at,
              unlink_walk_lem xs ys fuel s.ept x p before (omega (arith, enough)),
            )
            (ended fuel s ept' (some x) p (x ∷ xs ++ ys) chain (omega (arith, enough))
              ∙ rw (same_head s.ept ept' (x ∷ xs ++ ys) same) refl),
        chain,
        same,
        refl,
      )
