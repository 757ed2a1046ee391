-- ===== src/Remoteproc/Elf/Masks.antt =====
-- elf_loader.c: the states of an image whose program headers are loaded, and what the masks make of them.
use v85x_openamp.Base.{
  ℕ, zero, suc, ◌+◌, ◌-◌, ◌<◌, ◌≡◌, refl, Bool, true, false, ◌&&◌, arith, ◌==◌, bit_and, bit_or,
}
use v85x_openamp.Remoteproc.Memory.{u32}
use v85x_openamp.Remoteproc.Elf.{ElfInfo, elf_phnum}
use v85x_openamp.Remoteproc.Elf.Load.{replace_phase, next_state}

-- a test of all numbers below a bound
abbrev pub all_below : ℕ → (ℕ → Bool) → Bool
all_below zero f = true
all_below (suc n) f = f n && all_below n f

pub all_below_lem : (n : ℕ) (f : ℕ → Bool) → all_below n f ≡ true → (i : ℕ) → i < n → f i ≡ true
all_below_lem zero f all i lt = absurd (omega (arith, lt))
all_below_lem (suc n) f all i lt =
    ground (arith, all, lt, all_below_lem n f (ground (arith, all)) i)

-- how far the headers of an image are loaded, once its program headers are
pub data Stage : Type 0 where
  wants_shdrs wants_shstrtab whole : Stage

abbrev pub stage_bits : Stage → ℕ
stage_bits wants_shdrs = 0x200
stage_bits wants_shstrtab = 0x400
stage_bits whole = 0x800

-- the state of an image at the segment `n`
abbrev pub at_stage : Stage → ℕ → ℕ
at_stage g n = 0x10000 + stage_bits g + n

abbrev pub at_segment : ℕ → ℕ
at_segment n = at_stage whole n

-- what the masks make of the states with the segment `n`
pub record Masks (g : Stage) (n : ℕ) : Type 0 where
  pub low : bit_and (at_stage g n) 0xff ≡ n
  pub own : bit_and n 0xff ≡ n
  pub phase : bit_and (at_stage g n) 0xff0000 ≡ 0x10000
  pub ready : bit_and (at_stage g n) 0x10000 ≡ 0x10000
  pub cleared : bit_and (at_stage g n) (u32 - 1 - 0xff) ≡ (0x10000 + stage_bits g)
  pub joined : bit_or (0x10000 + stage_bits g) n ≡ at_stage g n
  pub post : replace_phase (at_stage g n) 0x20000 ≡ (0x20000 + stage_bits g) + n
  pub complete : replace_phase (at_stage g n) 0x40000 ≡ (0x40000 + stage_bits g) + n
  pub post_cleared :
      bit_and ((0x20000 + stage_bits g) + n) (u32 - 1 - 0xff) ≡ (0x20000 + stage_bits g)
  pub post_joined : bit_or (0x20000 + stage_bits g) n ≡ (0x20000 + stage_bits g) + n
  pub complete_cleared :
      bit_and ((0x40000 + stage_bits g) + n) (u32 - 1 - 0xff) ≡ (0x40000 + stage_bits g)
  pub complete_joined : bit_or (0x40000 + stage_bits g) n ≡ (0x40000 + stage_bits g) + n

abbrev masks : Stage → ℕ → Bool
masks g n =
    (bit_and (at_stage g n) 0xff == n)
    && ((bit_and n 0xff == n)
        && ((bit_and (at_stage g n) 0xff0000 == 0x10000)
            && ((bit_and (at_stage g n) 0x10000 == 0x10000)
                && ((bit_and (at_stage g n) (u32 - 1 - 0xff) == (0x10000 + stage_bits g))
                    && ((bit_or (0x10000 + stage_bits g) n == at_stage g n)
                        && ((replace_phase (at_stage g n) 0x20000 == (0x20000 + stage_bits g) + n)
                            && ((replace_phase (at_stage g n) 0x40000
                                  == (0x40000 + stage_bits g) + n)
                                && ((bit_and ((0x20000 + stage_bits g) + n) (u32 - 1 - 0xff)
                                      == (0x20000 + stage_bits g))
                                    && ((bit_or (0x20000 + stage_bits g) n
                                          == (0x20000 + stage_bits g) + n)
                                        && ((bit_and ((0x40000 + stage_bits g) + n) (u32 - 1 - 0xff)
                                              == (0x40000 + stage_bits g))
                                            && (bit_or (0x40000 + stage_bits g) n
                                                == (0x40000 + stage_bits g) + n)))))))))))

masks_all : (g : Stage) → all_below 256 (masks g) ≡ true
masks_all wants_shdrs = refl
masks_all wants_shstrtab = refl
masks_all whole = refl

pub masks_lem : (g : Stage) (n : ℕ) → n < 256 → Masks g n
masks_lem g n lt =
    let e : masks g n ≡ true = all_below_lem 256 (masks g) (masks_all g) n lt in
    record {
      low = ground (arith, e);
      own = ground (arith, e);
      phase = ground (arith, e);
      ready = ground (arith, e);
      cleared = ground (arith, e);
      joined = ground (arith, e);
      post = ground (arith, e);
      complete = ground (arith, e);
      post_cleared = ground (arith, e);
      post_joined = ground (arith, e);
      complete_cleared = ground (arith, e);
      complete_joined = ground (arith, e);
    }

pub next_state_mid :
    (g : Stage) (info : ElfInfo) (found : Bool) (m k : ℕ)
    → info.load_state ≡ at_stage g m
    → m < 256
    → k < 256
    → (k == elf_phnum info.ehdr) ≡ false
    → next_state info found k ≡ at_stage g k
next_state_mid g info found m k at low low' ne =
    let a = masks_lem g m low in
    let b = masks_lem g k low' in rw (ne, at, a.cleared, b.own) b.joined

pub next_state_post :
    (g : Stage) (info : ElfInfo) (m k : ℕ)
    → info.load_state ≡ at_stage g m
    → m < 256
    → k < 256
    → (k == elf_phnum info.ehdr) ≡ true
    → next_state info true k ≡ (0x20000 + stage_bits g) + k
next_state_post g info m k at low low' last =
    let a = masks_lem g m low in
    let b = masks_lem g k low' in rw (last, at, a.post, a.post_cleared, b.own) b.post_joined

pub next_state_complete :
    (g : Stage) (info : ElfInfo) (m k : ℕ)
    → info.load_state ≡ at_stage g m
    → m < 256
    → k < 256
    → (k == elf_phnum info.ehdr) ≡ true
    → next_state info false k ≡ (0x40000 + stage_bits g) + k
next_state_complete g info m k at low low' last =
    let a = masks_lem g m low in
    let b = masks_lem g k low' in
    rw (last, at, a.complete, a.complete_cleared, b.own) b.complete_joined
