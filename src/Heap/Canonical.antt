-- ===== src/Heap/Canonical.antt =====
-- A sorted free list with gaps between its nodes is determined by the bytes that it holds.
use native.Mathlib.Decide.{dec_le, dec_lt}
use mathlib.Core.Path.{ap₂}
use v85x_openamp.Base.{sym, ℕ, ◌≤◌, ◌≡◌, refl, List, [], ◌∷◌, arith}
use v85x_openamp.Heap.{HeapNode}
use v85x_openamp.Heap.Inv.{end, Sorted, bytes}

-- no byte up to `lo` is held
bytes-below : (lo p : ℕ) (xs : List HeapNode) → Sorted lo xs → p ≤ lo → bytes p xs ≡ 0
bytes-below lo p [] s h = refl
bytes-below lo p (x ∷ xs) s h =
    ground (arith, s.0, bytes-below (end x) p xs s.2 (omega (arith, s.0)))

pub bytes-le_one : (lo p : ℕ) (xs : List HeapNode) → Sorted lo xs → bytes p xs ≤ 1
bytes-le_one lo p [] s = omega arith
bytes-le_one lo p (x ∷ xs) s = elim (dec_le p (end x)) [
  | yes h ↦ ground (arith, bytes-below (end x) p xs s.2 h)
  | no h ↦ ground (arith, h, bytes-le_one (end x) p xs s.2)
]

-- the first nodes begin together, or one would begin with a byte that the other list has not
head_addr :
    (lo : ℕ) (x y : HeapNode) (xs ys : List HeapNode)
    → Sorted lo (x ∷ xs)
    → Sorted lo (y ∷ ys)
    → ((p : ℕ) → bytes p (x ∷ xs) ≡ bytes p (y ∷ ys))
    → y.addr ≤ x.addr
head_addr lo x y xs ys s t same = elim (dec_lt x.addr y.addr) [
  | yes h ↦
      ground (arith, same x.addr, bytes-below (end y) x.addr ys t.2 (omega (arith, h)), s.1.room, h)
  | no h ↦ omega (arith, h)
]

head_end :
    (lo : ℕ) (x y : HeapNode) (xs ys : List HeapNode)
    → Sorted lo (x ∷ xs)
    → Sorted lo (y ∷ ys)
    → ((p : ℕ) → bytes p (x ∷ xs) ≡ bytes p (y ∷ ys))
    → x.addr ≡ y.addr
    → end y ≤ end x
head_end lo x y xs ys s t same e = elim (dec_lt (end x) (end y)) [
  | yes h ↦
      ground (arith, same (end x), bytes-below (end x) (end x) xs s.2 (omega arith), s.1.room, h, e)
  | no h ↦ omega (arith, h)
]

pub Sorted-unique :
    (lo : ℕ) (xs ys : List HeapNode)
    → Sorted lo xs
    → Sorted lo ys
    → ((p : ℕ) → bytes p xs ≡ bytes p ys)
    → xs ≡ ys
Sorted-unique lo [] [] s t same = refl
Sorted-unique lo [] (y ∷ ys) s t same = ground (arith, same y.addr, t.1.room)
Sorted-unique lo (x ∷ xs) [] s t same = ground (arith, same x.addr, s.1.room)
Sorted-unique lo (x ∷ xs) (y ∷ ys) s t same =
    let back : (p : ℕ) → bytes p (y ∷ ys) ≡ bytes p (x ∷ xs) = λ p. sym (same p) in
    let addr : x.addr ≡ y.addr =
      omega (arith, head_addr lo x y xs ys s t same, head_addr lo y x ys xs t s back) in
    let size : x.hn_size ≡ y.hn_size = omega (
      arith,
      addr,
      head_end lo x y xs ys s t same addr,
      head_end lo y x ys xs t s back (sym addr),
    ) in
    let node : x ≡ y = λ i. record { addr = addr i; hn_size = size i } in
    ap₂ ◌∷◌ node (
      Sorted-unique (end x) xs ys s.2 (rw (addr, size) t.2)
        (λ p. ground (arith, same p, addr, size)))
