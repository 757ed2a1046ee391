-- ===== src/Board/Mailbox/Packing.antt =====
-- Bytes in words, as hal_msgbox_channel_send of sunxi_mailbox.c packs them.
use v85x_openamp.Base.{
  ℕ, ◌+◌, ◌*◌, ◌/◌, ◌%◌, ◌^◌, ◌<◌, ◌≡◌, refl, ap, ◌∙◌, List, [], ◌∷◌, ◌++◌, arith, length, take,
}

-- the four bytes of a word, the lowest first
abbrev pub word_bytes : ℕ → List ℕ
word_bytes w = w % 256 ∷ w / 256 % 256 ∷ w / 65536 % 256 ∷ w / 16777216 % 256 ∷ []

abbrev pub bytes_of : List ℕ → List ℕ
bytes_of [] = []
bytes_of (w ∷ ws) = word_bytes w ++ bytes_of ws

abbrev pub AllBytes : List ℕ → Type 0
AllBytes [] = Unit {0}
AllBytes (b ∷ bs) = (b < 256) × AllBytes bs

-- four bytes to a word, the lowest first
abbrev pub pack : List ℕ → List ℕ
pack [] = []
pack (a ∷ []) = a ∷ []
pack (a ∷ b ∷ []) = (a + b * 2 ^ 8) ∷ []
pack (a ∷ b ∷ c ∷ []) = (a + b * 2 ^ 8 + c * 2 ^ 16) ∷ []
pack (a ∷ b ∷ c ∷ d ∷ bs) = (a + b * 2 ^ 8 + c * 2 ^ 16 + d * 2 ^ 24) ∷ pack bs

four :
    (w a b c d : ℕ)
    → a < 256
    → b < 256
    → c < 256
    → d < 256
    → w ≡ a + b * 2 ^ 8 + c * 2 ^ 16 + d * 2 ^ 24
    → word_bytes w ≡ a ∷ b ∷ c ∷ d ∷ []
four w a b c d ha hb hc hd e =
    let e0 : w % 256 ≡ a = omega (arith, ha, e) in
    let e1 : w / 256 % 256 ≡ b = omega (arith, ha, hb, e) in
    let e2 : w / 65536 % 256 ≡ c = omega (arith, ha, hb, hc, e) in
    let e3 : w / 16777216 % 256 ≡ d = omega (arith, ha, hb, hc, hd, e) in rw (e0, e1, e2, e3) refl

pub bytes_of-pack : (bs : List ℕ) → AllBytes bs → take (length bs) (bytes_of (pack bs)) ≡ bs
bytes_of-pack [] h = refl
bytes_of-pack (a ∷ []) (ha, h) =
    ap (take 1) (four a a 0 0 0 ha (omega arith) (omega arith) (omega arith) (omega arith))
bytes_of-pack (a ∷ b ∷ []) (ha, (hb, h)) =
    ap (take 2) (four (a + b * 2 ^ 8) a b 0 0 ha hb (omega arith) (omega arith) (omega arith))
bytes_of-pack (a ∷ b ∷ c ∷ []) (ha, (hb, (hc, h))) =
    ap (take 3) (four (a + b * 2 ^ 8 + c * 2 ^ 16) a b c 0 ha hb hc (omega arith) (omega arith))
bytes_of-pack (a ∷ b ∷ c ∷ d ∷ bs) (ha, (hb, (hc, (hd, h)))) =
    ap (λ ws. take (length (a ∷ b ∷ c ∷ d ∷ bs)) (ws ++ bytes_of (pack bs)))
      (four (a + b * 2 ^ 8 + c * 2 ^ 16 + d * 2 ^ 24) a b c d ha hb hc hd refl)
    ∙ ap (λ xs. a ∷ b ∷ c ∷ d ∷ xs) (bytes_of-pack bs h)

pub length-pack : (bs : List ℕ) → length (pack bs) ≡ (length bs + 3) / 4
length-pack [] = refl
length-pack (a ∷ []) = refl
length-pack (a ∷ b ∷ []) = refl
length-pack (a ∷ b ∷ c ∷ []) = refl
length-pack (a ∷ b ∷ c ∷ d ∷ bs) = omega (arith, length-pack bs)
