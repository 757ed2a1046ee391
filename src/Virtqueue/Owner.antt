-- ===== src/Virtqueue/Owner.antt =====
-- Who holds each descriptor: the free chain, or one of the buffers that the driver has offered and
-- not taken back.
use v85x_openamp.Base.{
  ℕ, ◌+◌, ◌^◌, ◌≤◌, ◌<◌, ◌≡◌, refl, sym, ◌∙◌, List, [], ◌∷◌, ◌++◌, arith, length, length-append,
  ltb, if◌then◌else◌, bit_and, none, some, false,
}
use v85x_openamp.Virtqueue.State.{
  VringDesc, Vring, VqDescExtra, Virtqueue, desc_f_indirect, chain_end,
}
use v85x_openamp.Base.Count.{count, count-append, length_of_partition}
use v85x_openamp.Virtqueue.Chains.{LinkedTo, IsChain, IsChain-frame}

-- A buffer chain: the cookie that the driver gave, the address and length of its first buffer, and
-- its descriptors.
pub record Chain : Type 0 where
  pub cookie : ℕ
  pub addr : ℕ
  pub len : ℕ
  pub ids : List ℕ

abbrev pub first : List ℕ → ℕ
first [] = chain_end
first (i ∷ is) = i

abbrev pub head : Chain → ℕ
head c = first c.ids

abbrev pub heads : List Chain → List ℕ
heads [] = []
heads (c ∷ cs) = head c ∷ heads cs

-- the descriptors of all chains
abbrev pub members : List Chain → List ℕ
members [] = []
members (c ∷ cs) = c.ids ++ members cs

module _ (desc : ℕ → VringDesc) (descx : ℕ → VqDescExtra) where
  -- The tables hold the chain `c`.
  pub record ChainAt (c : Chain) : Type 0 where
    pub linked : IsChain desc c.ids
    pub direct : bit_and (desc (head c)).flags desc_f_indirect ≡ 0
    pub cookie : (descx (head c)).cookie ≡ some c.cookie
    pub ndescs : (descx (head c)).ndescs ≡ length c.ids
    pub addr : (desc (head c)).addr ≡ c.addr
    pub len : (desc (head c)).len ≡ c.len

  abbrev pub AllAt : List Chain → Type 0
  AllAt [] = Unit
  AllAt (c ∷ cs) = ChainAt c × AllAt cs

-- A ring of `2 ^ k` descriptors, of which `free` are free and each other one is in a chain of `busy`.
pub record Owns (k : ℕ) (vq : Virtqueue) (vr : Vring) (free : List ℕ) (busy : List Chain)
    : Type 0 where
  pub width : k < 16
  pub entries : vq.vq_nentries ≡ 2 ^ k
  pub idle : vq.vq_inuse ≡ false
  pub linked : LinkedTo vr.desc vq.vq_desc_head_idx free chain_end
  pub free_cnt : vq.vq_free_cnt ≡ length free
  pub chains : AllAt vr.desc vq.vq_descx busy
  pub partition : (i : ℕ) → count i free + count i (members busy) ≡ (if ltb i (2 ^ k) then 1 else 0)
  pub spare : (i : ℕ) → count i (heads busy) ≡ 0 → (vq.vq_descx i).cookie ≡ none

pub count-members_middle :
    (i : ℕ) (pre : List Chain) (c : Chain) (post : List Chain)
    → count i (members (pre ++ c ∷ post)) ≡ count i c.ids + count i (members (pre ++ post))
count-members_middle i [] c post = count-append i c.ids (members post)
count-members_middle i (d ∷ pre) c post = omega (
  arith,
  count-append i d.ids (members (pre ++ c ∷ post)),
  count-append i d.ids (members (pre ++ post)),
  count-members_middle i pre c post,
)

pub length-members_middle :
    (pre : List Chain) (c : Chain) (post : List Chain)
    → length (members (pre ++ c ∷ post)) ≡ length c.ids + length (members (pre ++ post))
length-members_middle [] c post = length-append c.ids (members post)
length-members_middle (d ∷ pre) c post = omega (
  arith,
  length-append d.ids (members (pre ++ c ∷ post)),
  length-append d.ids (members (pre ++ post)),
  length-members_middle pre c post,
)

pub count-heads_middle :
    (i : ℕ) (pre : List Chain) (c : Chain) (post : List Chain)
    → count i (heads (pre ++ c ∷ post)) ≡ count i (head c ∷ heads (pre ++ post))
count-heads_middle i [] c post = refl
count-heads_middle i (d ∷ pre) c post = omega (arith, count-heads_middle i pre c post)

module _ (desc : ℕ → VringDesc) (descx : ℕ → VqDescExtra) where
  first-mem : {c : Chain} → ChainAt desc descx c → 0 < count (head c) c.ids
  first-mem {c} at_ = go c.ids at_.linked
    where
      go : (is : List ℕ) → IsChain desc is → 0 < count (first is) is
      go [] h = absurd h
      go (i ∷ is) h = ground arith

  pub AllAt-remove :
      (pre : List Chain) (c : Chain) (post : List Chain)
      → AllAt desc descx (pre ++ c ∷ post)
      → ChainAt desc descx c × AllAt desc descx (pre ++ post)
  AllAt-remove [] c post h = h
  AllAt-remove (d ∷ pre) c post h =
      let (here, rest) = AllAt-remove pre c post h.1 in (here, (h.0, rest))

  pub AllAt-insert :
      (pre : List Chain) (c : Chain) (post : List Chain)
      → ChainAt desc descx c
      → AllAt desc descx (pre ++ post)
      → AllAt desc descx (pre ++ c ∷ post)
  AllAt-insert [] c post here rest = (here, rest)
  AllAt-insert (d ∷ pre) c post here rest = (rest.0, AllAt-insert pre c post here rest.1)

  -- A head is a member.
  pub count-heads-le :
      (i : ℕ) (cs : List Chain) → AllAt desc descx cs → count i (heads cs) ≤ count i (members cs)
  count-heads-le i [] h = omega arith
  count-heads-le i (c ∷ cs) h =
      ground (arith, first-mem h.0, count-append i c.ids (members cs), count-heads-le i cs h.1)

  -- Chains are kept by a change that spares their descriptors.
  pub AllAt-frame :
      (desc' : ℕ → VringDesc) (descx' : ℕ → VqDescExtra) (cs : List Chain)
      → ((i : ℕ) → 0 < count i (members cs) → (desc' i ≡ desc i) × (descx' i ≡ descx i))
      → AllAt desc descx cs
      → AllAt desc' descx' cs
  AllAt-frame desc' descx' [] same h = tt
  AllAt-frame desc' descx' (c ∷ cs) same h = (
    record {
      linked =
          IsChain-frame desc desc' c.ids
            (λ i p. (same i (omega (arith, count-append i c.ids (members cs)))).0) h.0.linked;
      direct = ground (arith, here, h.0.direct);
      cookie = ground (arith, here, h.0.cookie);
      ndescs = ground (arith, here, h.0.ndescs);
      addr = ground (arith, here, h.0.addr);
      len = ground (arith, here, h.0.len);
    },
    AllAt-frame desc' descx' cs (λ i p. same i (omega (arith, count-append i c.ids (members cs))))
        h.1,
  )
    where
      here : (desc' (head c) ≡ desc (head c)) × (descx' (head c) ≡ descx (head c))
      here = same (head c) (omega (arith, count-append (head c) c.ids (members cs), first-mem h.0))

module _ {k : ℕ} {vq : Virtqueue} {vr : Vring} {free : List ℕ} {busy : List Chain}
    (o : Owns k vq vr free busy) where
  pub count_all : (i : ℕ) → count i (free ++ members busy) ≡ (if ltb i (2 ^ k) then 1 else 0)
  count_all i = count-append i free (members busy) ∙ o.partition i

  pub length_all : length free + length (members busy) ≡ 2 ^ k
  length_all =
      sym (length-append free (members busy))
      ∙ length_of_partition (2 ^ k) (free ++ members busy) count_all

-- A chain may stand anywhere in the list.
pub Owns-move :
    {k : ℕ} {vq : Virtqueue} {vr : Vring} {free : List ℕ} (pre : List Chain) (c : Chain)
    (post pre' post' : List Chain)
    → pre ++ post ≡ pre' ++ post'
    → Owns k vq vr free (pre ++ c ∷ post)
    → Owns k vq vr free (pre' ++ c ∷ post')
Owns-move {k} {vq} {vr} {free} pre c post pre' post' e o = record {
  width = o.width;
  entries = o.entries;
  idle = o.idle;
  linked = o.linked;
  free_cnt = o.free_cnt;
  chains = AllAt-insert vr.desc vq.vq_descx pre' c post' parts.0 (rw (← e) parts.1);
  partition = λ i. ground (
    arith,
    o.partition i,
    count-members_middle i pre c post,
    count-members_middle i pre' c post',
    e,
  );
  spare = λ i h.
      o.spare i
        (ground (arith, h, count-heads_middle i pre c post, count-heads_middle i pre' c post', e));
}
  where
    parts : ChainAt vr.desc vq.vq_descx c × AllAt vr.desc vq.vq_descx (pre ++ post)
    parts = AllAt-remove vr.desc vq.vq_descx pre c post o.chains

-- There are no more chains than descriptors in them.
pub length-le-members :
    (desc : ℕ → VringDesc) (descx : ℕ → VqDescExtra) (cs : List Chain)
    → AllAt desc descx cs
    → length cs ≤ length (members cs)
length-le-members desc descx [] h = omega arith
length-le-members desc descx (c ∷ cs) h = ground (
  arith,
  length-append c.ids (members cs),
  ids_pos c.ids h.0.linked,
  length-le-members desc descx cs h.1,
)
  where
    ids_pos : (is : List ℕ) → IsChain desc is → 0 < length is
    ids_pos [] p = absurd p
    ids_pos (i ∷ is) p = omega arith
