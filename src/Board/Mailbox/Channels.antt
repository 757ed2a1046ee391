-- ===== src/Board/Mailbox/Channels.antt =====
-- The list of channels of sunxi_mailbox.c, and the walks of hal_msgbox_alloc_channel and
-- hal_msgbox_free_channel along it.
use mathlib.Core.Path.{subst}
use v85x_openamp.Base.{
  ℕ, zero, suc, ◌<◌, ◌≡◌, refl, sym, ◌∙◌, inl, inr, Bool, true, false, ◌||◌, Option, none, some,
  List, [], ◌∷◌, ◌++◌, arith, length, update, ◌==◌, if◌then◌else◌, Bool-cases,
}
use v85x_openamp.Virtqueue.State.{ok, out_of_fuel}
use v85x_openamp.Board.Mailbox.{
  MsgEndpoint, reads, is_at, set_next, append_walk, unlink_walk, reader_loop,
}

abbrev pub has : ℕ → List ℕ → Bool
has p [] = false
has p (x ∷ xs) = (p == x) || has p xs

-- from `h` the `next` pointers lead through the distinct endpoints `xs` to NULL
abbrev pub Chain : (ℕ → MsgEndpoint) → Option ℕ → List ℕ → Type 0
Chain ept h [] = h ≡ none
Chain ept h (x ∷ xs) = (h ≡ some x) × (has x xs ≡ false) × Chain ept (ept x).next xs

-- all of an endpoint but its link
abbrev pub settings : MsgEndpoint → ℕ × ℕ × ℕ × ℕ × Bool
settings e = (e.local_amp, e.remote_amp, e.write_ch, e.read_ch, e.receive)

abbrev pub last : ℕ → List ℕ → ℕ
last t [] = t
last t (x ∷ xs) = last x xs

last-has : (t : ℕ) (xs : List ℕ) → has (last t xs) (t ∷ xs) ≡ true
last-has t [] = ground arith
last-has t (x ∷ xs) = ground (arith, last-has x xs)

pub frame :
    (ept : ℕ → MsgEndpoint) (h : Option ℕ) (xs : List ℕ) (t : ℕ) (e : MsgEndpoint)
    → Chain ept h xs
    → has t xs ≡ false
    → Chain (update ept t e) h xs
frame ept h [] t e c out = c
frame ept h (x ∷ xs) t e (at, once, rest) out = (
  at,
  once,
  subst (λ (f : MsgEndpoint). Chain (update ept t e) f.next xs) other
      (frame ept (ept x).next xs t e rest (ground (arith, out))),
)
  where
    other : ept x ≡ update ept t e x
    other = ground (arith, out)

pub append_walk_lem :
    (xs : List ℕ) (fuel : ℕ) (ept : ℕ → MsgEndpoint) (t p : ℕ)
    → Chain ept (some t) (t ∷ xs)
    → length xs < fuel
    → append_walk fuel ept t p ≡ ok (set_next ept (last t xs) (some p))
unfolding append_walk
append_walk_lem [] zero ept t p c enough = absurd (omega (arith, enough))
append_walk_lem (x ∷ xs) zero ept t p c enough = absurd (omega (arith, enough))
append_walk_lem [] (suc fuel) ept t p (at, once, rest) enough = rw (append_walk, rest) refl
append_walk_lem (x ∷ xs) (suc fuel) ept t p (at, once, (next, apart, rest)) enough =
    rw (append_walk, next)
      (append_walk_lem xs fuel ept x p (refl, apart, rest) (omega (arith, enough)))

pub has-append : (a : ℕ) (xs ys : List ℕ) → has a (xs ++ ys) ≡ (has a xs || has a ys)
has-append a [] ys = refl
has-append a (x ∷ xs) ys = ground (arith, has-append a xs ys)

-- a chain with its end linked to a new endpoint
pub linked-Chain :
    (xs : List ℕ) (ept : ℕ → MsgEndpoint) (t p : ℕ)
    → Chain ept (some t) (t ∷ xs)
    → has p (t ∷ xs) ≡ false
    → Chain (set_next (set_next ept (last t xs) (some p)) p none) (some t) (t ∷ xs ++ p ∷ [])
linked-Chain [] ept t p (at, once, rest) out =
    (refl, ground (arith, out), (ground (arith, out), refl, ground arith))
linked-Chain (x ∷ xs) ept t p (at, once, (next, apart, rest)) out = (
  refl,
  ground (arith, has-append t xs (p ∷ []), once, out),
  subst (λ (f : MsgEndpoint). Chain after f.next (x ∷ xs ++ p ∷ [])) same
      (subst (λ h. Chain after h (x ∷ xs ++ p ∷ [])) (sym next)
        (linked-Chain xs ept x p (refl, apart, rest) (ground (arith, out)))),
)
  where
    after : ℕ → MsgEndpoint
    after = set_next (set_next ept (last x xs) (some p)) p none

    same : ept t ≡ after t
    same = ground (arith, last-has x xs, once, out, Bool-cases (t == last x xs))

-- the walk that unlinks `p`, whose predecessor is the last of `xs`
pub unlink_walk_lem :
    (xs ys : List ℕ) (fuel : ℕ) (ept : ℕ → MsgEndpoint) (t p : ℕ)
    → Chain ept (some t) (t ∷ xs ++ p ∷ ys)
    → length xs < fuel
    → unlink_walk fuel ept (some t) p ≡ ok (set_next ept (last t xs) (ept p).next)
unfolding unlink_walk
unlink_walk_lem [] ys zero ept t p c enough = absurd (omega (arith, enough))
unlink_walk_lem (x ∷ xs) ys zero ept t p c enough = absurd (omega (arith, enough))
unlink_walk_lem [] ys (suc fuel) ept t p (at, once, (next, apart, rest)) enough =
    let here : is_at (ept t).next p ≡ true = rw next (ground arith) in rw (unlink_walk, here) refl
unlink_walk_lem (x ∷ xs) ys (suc fuel) ept t p (at, once, (next, apart, rest)) enough =
    let elsewhere : is_at (ept t).next p ≡ false =
      rw next (ground (arith, has-append x xs (p ∷ ys), apart, Bool-cases (has x xs))) in
    rw (unlink_walk, elsewhere, next)
      (unlink_walk_lem xs ys fuel ept x p (refl, apart, rest) (omega (arith, enough)))

pub unlinked-Chain :
    (xs ys : List ℕ) (ept : ℕ → MsgEndpoint) (t p : ℕ)
    → Chain ept (some t) (t ∷ xs ++ p ∷ ys)
    → Chain (set_next (set_next ept (last t xs) (ept p).next) p none) (some t) (t ∷ xs ++ ys)
unlinked-Chain [] ys ept t p (at, once, (next, apart, rest)) =
    let skipped =
      frame ept (ept p).next ys t (record (ept t) { next = (ept p).next }) rest
        (ground (arith, once)) in
    (
      refl,
      ground (arith, once),
      subst (λ h. Chain (set_next (set_next ept t (ept p).next) p none) h ys) (ground (arith, once))
          (frame (set_next ept t (ept p).next) (ept p).next ys p _ skipped apart),
    )
unlinked-Chain (x ∷ xs) ys ept t p (at, once, (next, apart, rest)) = (
  refl,
  ground (arith, has-append t xs ys, has-append t xs (p ∷ ys), once),
  subst (λ (f : MsgEndpoint). Chain after f.next (x ∷ xs ++ ys)) same
      (subst (λ h. Chain after h (x ∷ xs ++ ys)) (sym next)
        (unlinked-Chain xs ys ept x p (refl, apart, rest))),
)
  where
    after : ℕ → MsgEndpoint
    after = set_next (set_next ept (last x xs) (ept p).next) p none

    same : ept t ≡ after t
    same =
        ground (arith, last-has x xs, once, has-append t xs (p ∷ ys), Bool-cases (t == last x xs))

-- whether the first channel, if there is one, is read from
abbrev pub head_reads : (ℕ → MsgEndpoint) → List ℕ → Bool
head_reads ept [] = true
head_reads ept (x ∷ xs) = reads (ept x)

abbrev pub is_empty : List ℕ → Bool
is_empty [] = true
is_empty (x ∷ xs) = false

pub reader_loop_lem :
    (fuel : ℕ) (ept : ℕ → MsgEndpoint) (h : Option ℕ) (xs : List ℕ)
    → Chain ept h xs
    → 0 < fuel
    → reader_loop fuel ept h
      ≡ (if head_reads ept xs then (if is_empty xs then ok false else ok true) else out_of_fuel)
unfolding reader_loop
reader_loop_lem zero ept h xs c some_fuel = absurd (omega (arith, some_fuel))
reader_loop_lem (suc fuel) ept h [] c some_fuel = rw c refl
reader_loop_lem (suc fuel) ept h (x ∷ xs) (at, apart, rest) some_fuel =
    rw at (elim (Bool-cases (reads (ept x))) [
      | inl yes_ ↦ rw (reader_loop, yes_) refl
      | inr no_ ↦ stuck fuel no_
    ])
  where
    spin : (n : ℕ) → reads (ept x) ≡ false → reader_loop n ept (some x) ≡ out_of_fuel
    spin zero e = refl
    spin (suc n) e = rw (reader_loop, e) (spin n e)

    stuck :
        (n : ℕ)
        → reads (ept x) ≡ false
        → reader_loop (suc n) ept (some x) ≡ (if reads (ept x) then ok true else out_of_fuel)
    stuck n e = spin (suc n) e ∙ ground (arith, e)
