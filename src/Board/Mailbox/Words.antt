-- ===== src/Board/Mailbox/Words.antt =====
-- hal_msgbox_channel_send of sunxi_mailbox.c: bytes sent as words.
use mathlib.Core.List.{append-nil, append_assoc}
use v85x_openamp.Base.{
  ℕ, zero, suc, ◌+◌, ◌-◌, ◌*◌, ◌/◌, ◌%◌, ◌^◌, ◌≤◌, ◌<◌, ◌≡◌, refl, sym, ap, ◌∙◌, true, false, ◌||◌,
  List, [], ◌∷◌, ◌++◌, arith, length, take, ◌==◌, Bool-cases, inl, inr, if◌then◌else◌, bit_or,
}
use v85x_openamp.Base.Bits.{bit_or_high}
use v85x_openamp.Board.Mailbox.Packing.{bytes_of, AllBytes, pack, bytes_of-pack, length-pack}
use v85x_openamp.Virtqueue.State.{ok, u32}
use v85x_openamp.Board.Mailbox.{
  MsgEndpoint, max_queue, write_status, write_reg, msgbox_channel_send_data, send_loop,
  hal_msgbox_channel_send,
}

-- the byte of index `k` in a word put above `acc`
put :
    (i k word b acc : ℕ)
    → i % 4 ≡ k
    → (if k == 0 then 0 else word) ≡ acc
    → acc < 2 ^ (k * 8)
    → b * 2 ^ (k * 8) < u32
    → bit_or (if i % 4 == 0 then 0 else word) (b * 2 ^ (i % 4 * 8) % u32) ≡ acc + b * 2 ^ (k * 8)
put i k word b acc e start below fits =
    let same : b * 2 ^ (k * 8) % u32 ≡ b * 2 ^ (k * 8) = omega (arith, fits) in
    rw (e, start, same) (bit_or_high (k * 8) acc b below)

-- What the mailbox does: it takes the words that are written to the data register, in their order, and
-- when it is full the other core makes room within `bound` reads of the status register.
pub record Outbox {R : Type 0} (read32 : ℕ → R → ℕ × R) (write32 : ℕ → ℕ → R → R)
    (sts reg bound : ℕ) : Type 0 where
  pub sent : R → List ℕ
  pub room_in : R → ℕ
  pub bounded : (r : R) → room_in r ≤ bound
  pub waits : (r : R) → (read32 sts r).0 ≡ max_queue → room_in (read32 sts r).1 < room_in r
  pub read_keeps : (r : R) → sent (read32 sts r).1 ≡ sent r
  pub takes : (r : R) (word : ℕ) → sent (write32 reg word r) ≡ sent r ++ word ∷ []

module _ {R : Type 0} (read32 : ℕ → R → ℕ × R) (write32 : ℕ → ℕ → R → R) (medp : MsgEndpoint)
    (bound : ℕ) (box : Outbox read32 write32 (write_status medp) (write_reg medp) bound) where
  send_data_lem :
      (fuel : ℕ) (word : ℕ) (r : R)
      → box.room_in r < fuel
      → (r' : R) × (msgbox_channel_send_data read32 write32 fuel medp word r ≡ ok r')
        × (box.sent r' ≡ box.sent r ++ word ∷ [])
  unfolding msgbox_channel_send_data
  send_data_lem zero word r enough = absurd (omega (arith, enough))
  send_data_lem (suc fuel) word r enough =
      let r1 = (read32 (write_status medp) r).1 in
      elim (Bool-cases ((read32 (write_status medp) r).0 == max_queue)) [
        | inl full ↦
            let soon = box.waits r (ground (arith, full)) in
            let (r', call, log) = send_data_lem fuel word r1 (omega (arith, soon, enough)) in
            (
              r',
              rw (msgbox_channel_send_data, full) call,
              log ∙ ap (λ xs. xs ++ word ∷ []) (box.read_keeps r),
            )
        | inr room ↦ (
          write32 (write_reg medp) word r1,
          rw (msgbox_channel_send_data, room) refl,
          box.takes r1 word ∙ ap (λ xs. xs ++ word ∷ []) (box.read_keeps r),
        )
      ]

  -- one byte that does not complete a word
  more :
      (fuel b : ℕ) (bf : List ℕ) (i len word acc : ℕ) (r : R)
      → bit_or (if i % 4 == 0 then 0 else word) (b * 2 ^ (i % 4 * 8) % u32) ≡ acc
      → ((i % 4 == 3) || (i == len - 1)) ≡ false
      → send_loop read32 write32 fuel medp (b ∷ bf) i len word r
        ≡ send_loop read32 write32 fuel medp bf (suc i) len acc r
  unfolding send_loop
  more fuel b bf i len word acc r e open_ = rw (send_loop, open_, e) refl

  -- one byte that completes a word, or is the last
  full :
      (fuel b : ℕ) (bf : List ℕ) (i len word acc : ℕ) (r r' : R)
      → bit_or (if i % 4 == 0 then 0 else word) (b * 2 ^ (i % 4 * 8) % u32) ≡ acc
      → ((i % 4 == 3) || (i == len - 1)) ≡ true
      → msgbox_channel_send_data read32 write32 fuel medp acc r ≡ ok r'
      → send_loop read32 write32 fuel medp (b ∷ bf) i len word r
        ≡ send_loop read32 write32 fuel medp bf (suc i) len acc r'
  unfolding send_loop
  full fuel b bf i len word acc r r' e done call = rw (send_loop, done, e, call) refl

  -- two bytes at the start of a word that has more
  opened :
      (fuel a b : ℕ) (bf : List ℕ) (i len word : ℕ) (r : R)
      → i % 4 ≡ 0
      → i + 2 < len
      → a < 256
      → b < 256
      → send_loop read32 write32 fuel medp (a ∷ b ∷ bf) i len word r
        ≡ send_loop read32 write32 fuel medp bf (suc (suc i)) len (a + b * 2 ^ 8) r
  opened fuel a b bf i len word r start below ha hb =
      more fuel a (b ∷ bf) i len word a r
        (put i 0 word a 0 start refl (omega arith) (omega (arith, ha)) ∙ omega arith)
        (ground (arith, start, below))
      ∙ more fuel b bf (suc i) len a (a + b * 2 ^ 8) r
          (put (suc i) 1 a b a (omega (arith, start)) refl (omega (arith, ha)) (omega (arith, hb)))
          (ground (arith, start, below))

  send_pack :
      (fuel : ℕ) (bf : List ℕ) (i len word : ℕ) (r : R)
      → i % 4 ≡ 0
      → i + length bf ≡ len
      → AllBytes bf
      → bound < fuel
      → (r' : R) × (send_loop read32 write32 fuel medp bf i len word r ≡ ok r')
        × (box.sent r' ≡ box.sent r ++ pack bf)
  unfolding send_loop
  send_pack fuel [] i len word r start total bytes enough = (r, refl, sym (append-nil (box.sent r)))
  send_pack fuel (a ∷ []) i len word r start total (ha, h) enough =
      let (r', call, log) = send_data_lem fuel a r (omega (arith, box.bounded r, enough)) in
      (
        r',
        full fuel a [] i len word a r r'
            (put i 0 word a 0 start refl (omega arith) (omega (arith, ha)) ∙ omega arith)
            (ground (arith, start, total)) call,
        log,
      )
  send_pack fuel (a ∷ b ∷ []) i len word r start total (ha, (hb, h)) enough =
      let w = a + b * 2 ^ 8 in
      let (r', call, log) = send_data_lem fuel w r (omega (arith, box.bounded r, enough)) in
      (
        r',
        more fuel a (b ∷ []) i len word a r
              (put i 0 word a 0 start refl (omega arith) (omega (arith, ha)) ∙ omega arith)
              (ground (arith, start, total))
            ∙ full fuel b [] (suc i) len a w r r'
                (put (suc i) 1 a b a (omega (arith, start)) refl (omega (arith, ha))
                  (omega (arith, hb)))
                (ground (arith, start, total)) call,
        log,
      )
  send_pack fuel (a ∷ b ∷ c ∷ []) i len word r start total (ha, (hb, (hc, h))) enough =
      let v = a + b * 2 ^ 8 in
      let w = v + c * 2 ^ 16 in
      let (r', call, log) = send_data_lem fuel w r (omega (arith, box.bounded r, enough)) in
      (
        r',
        opened fuel a b (c ∷ []) i len word r start (omega (arith, total)) ha hb
            ∙ full fuel c [] (suc (suc i)) len v w r r'
                (put (suc (suc i)) 2 v c v (omega (arith, start)) refl (omega (arith, ha, hb))
                  (omega (arith, hc)))
                (ground (arith, start, total)) call,
        log,
      )
  send_pack fuel (a ∷ b ∷ c ∷ d ∷ bs) i len word r start total (ha, (hb, (hc, (hd, h)))) enough =
      let v = a + b * 2 ^ 8 in
      let u = v + c * 2 ^ 16 in
      let w = u + d * 2 ^ 24 in
      let (r1, call, log) = send_data_lem fuel w r (omega (arith, box.bounded r, enough)) in
      let (r', rest, logs) =
        send_pack fuel bs (suc (suc (suc (suc i)))) len w r1 (omega (arith, start))
          (omega (arith, total)) h enough in
      (
        r',
        opened fuel a b (c ∷ d ∷ bs) i len word r start (omega (arith, total)) ha hb
            ∙ more fuel c (d ∷ bs) (suc (suc i)) len v u r
                (put (suc (suc i)) 2 v c v (omega (arith, start)) refl (omega (arith, ha, hb))
                  (omega (arith, hc)))
                (ground (arith, start, total))
            ∙ full fuel d bs (suc (suc (suc i))) len u w r r1
                (put (suc (suc (suc i))) 3 u d u (omega (arith, start)) refl
                  (omega (arith, ha, hb, hc)) (omega (arith, hd)))
                (ground (arith, start, total)) call
            ∙ rest,
        logs ∙ ap (λ xs. xs ++ pack bs) log ∙ append_assoc (box.sent r) (w ∷ []) (pack bs),
      )

  -- A buffer of bytes is sent, where the mailbox takes the words written to it and shows that it is full
  -- at most `bound` times in a row: the call returns, given `bound + 1` reads of the status for a word,
  -- with one word written for each four bytes or the rest of them, and the bytes of these words, the
  -- lowest first, are those of the buffer.
  pub hal_msgbox_channel_send-bytes :
      (fuel : ℕ) (bf : List ℕ) (r : R)
      → AllBytes bf
      → bound < fuel
      → (r' : R) × (words : List ℕ) × (hal_msgbox_channel_send read32 write32 fuel medp bf
            (length bf)
            r
          ≡ ok r')
        × (box.sent r' ≡ box.sent r ++ words)
        × (take (length bf) (bytes_of words) ≡ bf)
        × (length words ≡ (length bf + 3) / 4)
  unfolding hal_msgbox_channel_send
  hal_msgbox_channel_send-bytes fuel bf r bytes enough =
      let (r', call, log) = send_pack fuel bf 0 (length bf) 0 r refl (omega arith) bytes enough in
      (r', pack bf, call, log, bytes_of-pack bf bytes, length-pack bf)
