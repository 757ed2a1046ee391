-- ===== src/Virtqueue/View.antt =====
-- What a `View` says of a session: which chains stand in the rings, and in which order.
use v85x_openamp.Base.{
  ℕ, zero, suc, ◌+◌, ◌%◌, ◌^◌, ◌≤◌, ◌<◌, ◌≡◌, refl, sym, ap, ◌∙◌, List, [], ◌∷◌, ◌++◌, arith,
  length, length-append, false, take, drop,
}
use v85x_openamp.Base.Bits.{mod-pow-mod-pow, pow-lt-pow}
use v85x_openamp.Base.Window.{window, distance, length-window}
use v85x_openamp.Virtqueue.State.{VringUsedElem, u16}
use v85x_openamp.Virtqueue.Owner.{Chain, head, heads, Owns, length_all, length-le-members}
use v85x_openamp.Virtqueue.Transfer.{Session, View}

abbrev pub chains_of : List (Chain × ℕ) → List Chain
chains_of [] = []
chains_of ((c, len) ∷ us) = c ∷ chains_of us

abbrev pub used_entries : List (Chain × ℕ) → List VringUsedElem
used_entries [] = []
used_entries ((c, len) ∷ us) = record { id = head c; len = len } ∷ used_entries us

-- The session holds what the view says.
pub record Transfers (k : ℕ) (s : Session) (v : View) : Type 0 where
  pub owns : Owns k s.driver_vq s.ring v.free (v.offered ++ (v.held ++ chains_of v.used))
  pub entries : s.device_vq.vq_nentries ≡ 2 ^ k
  pub idle : s.device_vq.vq_inuse ≡ false
  pub avail_u16 : s.ring.avail_idx < u16
  pub accept_u16 : s.device_vq.vq_available_idx < u16
  pub used_u16 : s.ring.used_idx < u16
  pub cons_u16 : s.driver_vq.vq_used_cons_idx < u16
  pub offered :
      window
        (2 ^ k)
        s.ring.avail_ring
        s.device_vq.vq_available_idx
        (distance u16 s.ring.avail_idx s.device_vq.vq_available_idx)
      ≡ heads v.offered
  pub used :
      window
        (2 ^ k)
        s.ring.used_ring
        s.driver_vq.vq_used_cons_idx
        (distance u16 s.ring.used_idx s.driver_vq.vq_used_cons_idx)
      ≡ used_entries v.used

pub cut :
    (n : ℕ) (xs : List ℕ) → n ≤ length xs → (xs ≡ take n xs ++ drop n xs) × (length (take n xs) ≡ n)
cut zero xs h = (refl, refl)
cut (suc n) [] h = absurd (omega arith)
cut (suc n) (x ∷ xs) h = let (e, l) = cut n xs (omega arith) in (ap (λ r. x ∷ r) e, ap suc l)

pub length-heads : (cs : List Chain) → length (heads cs) ≡ length cs
length-heads [] = refl
length-heads (c ∷ cs) = ap suc (length-heads cs)

pub length-used_entries : (us : List (Chain × ℕ)) → length (used_entries us) ≡ length (chains_of us)
length-used_entries [] = refl
length-used_entries (u ∷ us) = ap suc (length-used_entries us)

pub heads-append : (cs ds : List Chain) → heads (cs ++ ds) ≡ heads cs ++ heads ds
heads-append [] ds = refl
heads-append (c ∷ cs) ds = ap (λ r. head c ∷ r) (heads-append cs ds)

pub used_entries-append :
    (us ws : List (Chain × ℕ)) → used_entries (us ++ ws) ≡ used_entries us ++ used_entries ws
used_entries-append [] ws = refl
used_entries-append ((c, len) ∷ us) ws =
    ap (λ r. record { id = head c; len = len } ∷ r) (used_entries-append us ws)

pub chains_of-append :
    (us ws : List (Chain × ℕ)) → chains_of (us ++ ws) ≡ chains_of us ++ chains_of ws
chains_of-append [] ws = refl
chains_of-append ((c, len) ∷ us) ws = ap (λ r. c ∷ r) (chains_of-append us ws)

module _ (k : ℕ) (s : Session) (v : View) (t : Transfers k s v) where
  pub narrow : 2 ^ k < u16
  narrow = pow-lt-pow k 16 t.owns.width

  pub wrap : (i : ℕ) → i % u16 % 2 ^ k ≡ i % 2 ^ k
  wrap i = mod-pow-mod-pow k 16 i (omega (arith, t.owns.width))

  -- as many chains are out as descriptors at most
  pub chains_out :
      length v.free + length v.offered + length v.held + length (chains_of v.used) ≤ 2 ^ k
  chains_out = omega (
    arith,
    length_all t.owns,
    length-le-members s.ring.desc s.driver_vq.vq_descx (v.offered ++ (v.held ++ chains_of v.used))
        t.owns.chains,
    length-append v.offered (v.held ++ chains_of v.used),
    length-append v.held (chains_of v.used),
  )

  pub offered_count : distance u16 s.ring.avail_idx s.device_vq.vq_available_idx ≡ length v.offered
  offered_count =
      sym (length-window (2 ^ k) s.ring.avail_ring s.device_vq.vq_available_idx _)
      ∙ ap (λ l. length l) t.offered
      ∙ length-heads v.offered

  pub used_count :
      distance u16 s.ring.used_idx s.driver_vq.vq_used_cons_idx ≡ length (chains_of v.used)
  used_count =
      sym (length-window (2 ^ k) s.ring.used_ring s.driver_vq.vq_used_cons_idx _)
      ∙ ap (λ l. length l) t.used
      ∙ length-used_entries v.used
