-- ===== src/Base/Window.antt =====
-- A ring of `n` slots under free-running indices: what stands between a read and a write index.
-- The indices of the program wrap at a multiple of `n`; a slot depends on their remainder alone.
use mathlib.Core.List.{List, [], ◌∷◌, ◌++◌}
use Prim.Native.Nat.{ℕ, zero, suc, ◌+◌, ◌-◌, ◌%◌, ◌≤◌, ◌<◌}
use mathlib.Core.Path.{◌≡◌, refl, ap, ap₂, sym, ◌∙◌}
use mathlib.Core.Logic.{◌≢◌}
use native.Mathlib.Nat.{mod-add-mod, add-zero, add-mod_right, mod-eq_of_lt, mod_self}
use native.Mathlib.Decide.{dec_le}
use native.Mathlib.Numerals.{add-one}
use native.Mathlib.Omega.{arith}
use v85x_openamp.Base.Arrays.{update, length}

slot-ne : (n s c : ℕ) → suc c < n → s % n ≢ (s + suc c) % n
slot-ne n s c h = grind arith

slot-suc : (n s t : ℕ) → s % n ≡ t % n → (s + 1) % n ≡ (t + 1) % n
slot-suc n s t e = sym (mod-add-mod s n 1) ∙ ap (λ k. (k + 1) % n) e ∙ mod-add-mod t n 1

module _ {ℓ} {A : Type ℓ} (n : ℕ) where
  -- the `c` slots from the free-running index `s` on
  abbrev pub window : (ℕ → A) → ℕ → ℕ → List A
  window f s zero = []
  window f s (suc c) = f (s % n) ∷ window f (s + 1) c

  pub length-window : (f : ℕ → A) (s c : ℕ) → length (window f s c) ≡ c
  length-window f s zero = refl
  length-window f s (suc c) = ap suc (length-window f (s + 1) c)

  -- indices with one remainder have one window
  pub window_of_mod-eq : (f : ℕ → A) (s t c : ℕ) → s % n ≡ t % n → window f s c ≡ window f t c
  window_of_mod-eq f s t zero e = refl
  window_of_mod-eq f s t (suc c) e =
      ap₂ ◌∷◌ (ap f e) (window_of_mod-eq f (s + 1) (t + 1) c (slot-suc n s t e))

  pub window-update_self :
      (f : ℕ → A) (s c i : ℕ) (v : A)
      → c < n
      → i ≡ (s + c) % n
      → window (update f i v) s (suc c) ≡ window f s c ++ (v ∷ [])
  window-update_self f s zero i v h e = ground (arith, add-zero s)
  window-update_self f s (suc c) i v h e =
      ap₂ ◌∷◌ (ground (arith, slot-ne n s c))
        (window-update_self f (s + 1) c i v (omega arith) (e ∙ ap (λ k. k % n) (omega arith)))

-- How far the index `a` is ahead of `b`, where indices are words below `m`.
abbrev pub distance : ℕ → ℕ → ℕ → ℕ
distance m a b = (a + m - b) % m

pub distance_ahead : (m a b : ℕ) → a < m → b ≤ a → distance m a b ≡ a - b
distance_ahead m a b ha h =
    let e : a + m - b ≡ (a - b) + m = omega arith in
    ap (λ i. i % m) e ∙ add-mod_right (a - b) m ∙ mod-eq_of_lt (omega arith)

pub distance_behind : (m a b : ℕ) → b < m → a < b → distance m a b ≡ a + m - b
distance_behind m a b hb h = mod-eq_of_lt (omega arith)

pub add-distance : (m a b : ℕ) → a < m → b < m → (b + distance m a b) % m ≡ a
add-distance m a b ha hb = elim (dec_le b a) [
  | yes h ↦
      ap (λ d. (b + d) % m) (distance_ahead m a b ha h)
      ∙ ap (λ i. i % m) (omega arith)
      ∙ mod-eq_of_lt ha
  | no h ↦
      ap (λ d. (b + d) % m) (distance_behind m a b hb (omega arith))
      ∙ ap (λ i. i % m) (omega arith)
      ∙ add-mod_right a m
      ∙ mod-eq_of_lt ha
]

pub suc_inside : (m a : ℕ) → a + 1 < m → (a + 1) % m ≡ a + 1
suc_inside m a h = mod-eq_of_lt h

pub suc_outside : (m a : ℕ) → a + 1 ≡ m → (a + 1) % m ≡ 0
suc_outside m a h = ap (λ i. i % m) h ∙ mod_self m

pub ruleset index_laws = (arith, distance_ahead, distance_behind, suc_inside, suc_outside)

-- Indices below `m` that wrap there, over a ring of `n` slots: `wrap` holds where `n` divides `m`.
module _ (n m : ℕ) (fits : n < m) (wrap : (i : ℕ) → i % m % n ≡ i % n) where
  pub distance-suc_write :
      (a b : ℕ)
      → a < m
      → b < m
      → distance m a b < n
      → distance m ((a + 1) % m) b ≡ distance m a b + 1
  distance-suc_write a b ha hb h = grind index_laws

  pub distance-suc_read :
      (a b : ℕ) → a < m → b < m → a ≢ b → distance m a b ≡ distance m a ((b + 1) % m) + 1
  distance-suc_read a b ha hb h = grind index_laws

  slot_of_write : (a b : ℕ) → a < m → b < m → a % n ≡ (b + distance m a b) % n
  slot_of_write a b ha hb =
      ap (λ i. i % n) (sym (add-distance m a b ha hb)) ∙ wrap (b + distance m a b)

  module _ {ℓ} {A : Type ℓ} (f : ℕ → A) (a b : ℕ) (ha : a < m) (hb : b < m) where
    -- a write at the write index makes one more entry, at the end
    pub window-push :
        (x : A)
        → distance m a b < n
        → window n (update f (a % n) x) b (distance m ((a + 1) % m) b)
          ≡ window n f b (distance m a b) ++ (x ∷ [])
    window-push x h =
        rw (distance-suc_write a b ha hb h, add-one)
          (window-update_self n f b (distance m a b) (a % n) x h (slot_of_write a b ha hb))

    -- a read at the read index takes the entry at the front
    pub window-pop :
        a ≢ b
        → window n f b (distance m a b)
          ≡ f (b % n) ∷ window n f ((b + 1) % m) (distance m a ((b + 1) % m))
    window-pop h =
        rw (distance-suc_read a b ha hb h, add-one)
          (ap (λ q. f (b % n) ∷ q)
            (window_of_mod-eq n f (b + 1) ((b + 1) % m) _ (sym (wrap (b + 1)))))
