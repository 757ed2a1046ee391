-- ===== src/Board/Gpio.antt =====
-- arch/riscv/sun8i-v85x/sunxi_gpio.c: the pins of the board. The registers are a state with a read and
-- a write.
pub mod Words
pub mod Pins
use v85x_openamp.Base.{
  ℕ, zero, suc, ◌+◌, ◌-◌, ◌*◌, ◌/◌, ◌%◌, ◌^◌, Bool, true, false, not, if◌then◌else◌, ◌==◌, bit_and,
  bit_or,
}
use v85x_openamp.Virtqueue.State.{u32}

-- `enum gpio_pull_t`
pub data Pull : Type 0 where
  up down none_ : Pull

-- PORTA to PORTI
unfoldable pub port_base_get : ℕ → ℕ
port_base_get pin =
    let port = pin / 32 in
    if port == 0
    then 0x02000000
    else if port == 1
    then 0x02000030
    else if port == 2
    then 0x02000060
    else if port == 3
    then 0x02000090
    else if port == 4
    then 0x020000c0
    else if port == 5
    then 0x020000f0
    else if port == 6
    then 0x02000120
    else if port == 7
    then 0x02000150
    else if port == 8
    then 0x02000180
    else 0

unfoldable pub pin_num : ℕ → ℕ
pin_num pin = bit_and pin 31

-- GPIO_CFG0, GPIO_DAT and GPIO_PUL0
abbrev pub gpio_cfg0 : ℕ
gpio_cfg0 = 0x00

abbrev pub gpio_dat : ℕ
gpio_dat = 0x10

abbrev pub gpio_pul0 : ℕ
gpio_pul0 = 0x24

abbrev pub cfg_addr : ℕ → ℕ
cfg_addr pin = (port_base_get pin + gpio_cfg0 + pin_num pin / 8 * 4) % u32

abbrev pub dat_addr : ℕ → ℕ
dat_addr pin = (port_base_get pin + gpio_dat) % u32

abbrev pub pul_addr : ℕ → ℕ
pul_addr pin = (port_base_get pin + gpio_pul0 + pin_num pin / 16 * 4) % u32

-- `val & ~clear | set`
abbrev pub modify : ℕ → ℕ → ℕ → ℕ
modify val clear set = bit_or (bit_and val (2 ^ 32 - 1 - clear)) set

abbrev pub pull_bits : Pull → ℕ
pull_bits up = 1
pull_bits down = 2
pull_bits none_ = 0

module _ {R : Type 0} (read32 : ℕ → R → ℕ × R) (write32 : ℕ → ℕ → R → R) where
  -- `cfg` is the 32 bits of an int.
  unfoldable pub sunxi_gpio_init : ℕ → ℕ → R → R
  unfolding port_base_get pin_num
  sunxi_gpio_init pin cfg r =
      let shift = bit_and (pin_num pin) 7 * 4 in
      let (val, r') = read32 (cfg_addr pin) r in
      write32 (cfg_addr pin) (modify val (15 * 2 ^ shift % u32) (bit_and cfg 15 * 2 ^ shift % u32))
        r'

  unfoldable pub sunxi_gpio_set_value : ℕ → ℕ → R → R
  unfolding port_base_get pin_num
  sunxi_gpio_set_value pin value r =
      let (val, r') = read32 (dat_addr pin) r in
      let level : ℕ = if value == 0 then 0 else 1 in
      write32 (dat_addr pin)
        (modify val (1 * 2 ^ pin_num pin % u32) (level * 2 ^ pin_num pin % u32)) r'

  unfoldable pub sunxi_gpio_read : ℕ → R → ℕ × R
  unfolding port_base_get pin_num
  sunxi_gpio_read pin r =
      let (val, r') = read32 (dat_addr pin) r in
      ((if bit_and val (1 * 2 ^ pin_num pin % u32) == 0 then 0 else 1), r')

  unfoldable pub sunxi_gpio_set_pull : ℕ → Pull → R → R
  unfolding port_base_get pin_num
  sunxi_gpio_set_pull pin pull r =
      let shift = bit_and (pin_num pin) 15 * 2 in
      let (val, r') = read32 (pul_addr pin) r in
      let v = pull_bits pull * 2 ^ shift % u32 in write32 (pul_addr pin) (modify val v v) r'
