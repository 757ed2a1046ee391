-- ===== src/RingBuffer/Queue.antt =====
-- What a client of the ring buffer sees: a queue of bytes that holds the last `n` at most.
use v85x_openamp.Base.{
  ℕ, ◌-◌, ◌<◌, ◌≡◌, refl, ap, ◌∙◌, Option, none, some, List, [], ◌∷◌, ◌++◌, length, drop,
  length-append, arith,
}

-- the last `n` elements
abbrev pub take_last : ℕ → List ℕ → List ℕ
take_last n xs = drop (length xs - n) xs

pub take_last_room :
    (n : ℕ) (q : List ℕ) (x : ℕ) → length q < n → take_last n (q ++ (x ∷ [])) ≡ q ++ (x ∷ [])
take_last_room n q x h =
    let none_go : length (q ++ (x ∷ [])) - n ≡ 0 = omega (arith, length-append q (x ∷ [])) in
    ap (λ d. drop d (q ++ (x ∷ []))) none_go

drop-one_append :
    (q : List ℕ) (x : ℕ) → 0 < length q → drop 1 (q ++ (x ∷ [])) ≡ drop 1 q ++ (x ∷ [])
drop-one_append [] x h = absurd (omega arith)
drop-one_append (y ∷ q) x h = refl

pub take_last_full :
    (n : ℕ) (q : List ℕ) (x : ℕ)
    → length q ≡ n
    → 0 < n
    → take_last n (q ++ (x ∷ [])) ≡ drop 1 q ++ (x ∷ [])
take_last_full n q x h pos =
    let one : length (q ++ (x ∷ [])) - n ≡ 1 = omega (arith, length-append q (x ∷ [])) in
    ap (λ d. drop d (q ++ (x ∷ []))) one ∙ drop-one_append q x (omega arith)

unfoldable pub get : List ℕ → Option ℕ × List ℕ
get [] = (none, [])
get (x ∷ xs) = (some x, xs)

-- The calls of ringbuffer.c on one buffer, and what each returns.
pub data Op : Type 0 where
  put : ℕ → Op
  take num flush : Op

pub data Reply : Type 0 where
  stored flushed : Reply
  taken : Option ℕ → Reply
  count : ℕ → Reply

unfoldable pub step : ℕ → List ℕ → Op → Reply × List ℕ
unfolding get
step n q (put x) = (stored, take_last n (q ++ (x ∷ [])))
step n q take = let (out, q') = get q in (taken out, q')
step n q num = (count (length q), q)
step n q flush = (flushed, [])

unfoldable pub run : ℕ → List ℕ → List Op → List Reply
run n q [] = []
run n q (op ∷ ops) = let (r, q') = step n q op in r ∷ run n q' ops
