-- ===== src/Virtio.antt =====
-- A virtio device as its users see it: the dispatch table of include/openamp/virtio.h and the calls
-- that go through it, with virtio_create_virtqueues of openamp/openamp/virtio/virtio.c.
pub mod Rproc
pub mod Config
pub mod Queues
mod Tests
use v85x_openamp.Base.{ℕ, Bool, Option, none, some, List, ℤ, pos, negsuc}

-- `struct virtio_dispatch` over the state `V` of a device; `none` is a NULL pointer. The names of the
-- queues are not kept; a callback is known by whether it is set.
pub record Dispatch (V : Type 0) : Type 0 where
  pub create_virtqueues : Option (V → ℕ → (ℕ → Bool) → ℤ × V)
  pub delete_virtqueues : Option (V → V)
  pub get_status : Option (V → ℕ × V)
  pub set_status : Option (V → ℕ → V)
  pub get_features : Option (V → ℕ × V)
  pub set_features : Option (V → ℕ → V)
  pub negotiate_features : Option (V → ℕ → ℕ × V)
  pub read_config : Option (V → ℕ → ℕ → List ℕ × V)
  pub write_config : Option (V → ℕ → List ℕ → V)
  pub reset_device : Option (V → V)

-- -ENXIO
abbrev pub enxio : ℤ
enxio = negsuc 5

module _ {V : Type 0} where
  -- a call through a pointer that returns nothing
  abbrev pub call : Option (V → V) → V → ℤ × V
  call none v = (enxio, v)
  call (some f) v = (pos 0, f v)

  -- a call that stores its result where the return value is 0
  abbrev pub fetch {ℓ} : {A : Type ℓ} → Option (V → A × V) → V → ℤ × Option A × V
  fetch none v = (enxio, none, v)
  fetch (some f) v = let (a, v') = f v in (pos 0, some a, v')

  -- a pointer with its last argument
  abbrev pub given {ℓ κ} : {A : Type ℓ} {B : Type κ} → Option (V → A → B) → A → Option (V → B)
  given none a = none
  given (some f) a = some (λ v. f v a)

  module _ (func : Dispatch V) where
    unfoldable pub virtio_delete_virtqueues : V → V
    virtio_delete_virtqueues v = (call func.delete_virtqueues v).1

    unfoldable pub virtio_get_status : V → ℤ × Option ℕ × V
    virtio_get_status v = fetch func.get_status v

    unfoldable pub virtio_set_status : V → ℕ → ℤ × V
    virtio_set_status v status = call (given func.set_status status) v

    unfoldable pub virtio_get_features : V → ℤ × Option ℕ × V
    virtio_get_features v = fetch func.get_features v

    unfoldable pub virtio_set_features : V → ℕ → ℤ × V
    virtio_set_features v features = call (given func.set_features features) v

    unfoldable pub virtio_negotiate_features : V → ℕ → ℤ × Option ℕ × V
    virtio_negotiate_features v features = fetch (given func.negotiate_features features) v

    unfoldable pub virtio_read_config : V → ℕ → ℕ → ℤ × Option (List ℕ) × V
    virtio_read_config v offset len = fetch (given (given func.read_config offset) len) v

    unfoldable pub virtio_write_config : V → ℕ → List ℕ → ℤ × V
    virtio_write_config v offset src = call (given (given func.write_config offset) src) v

    unfoldable pub virtio_reset_device : V → ℤ × V
    virtio_reset_device v = call func.reset_device v

    -- For a device whose table has `create_virtqueues`; `otherwise` is the loop over virtqueue_create
    -- for one whose table has not.
    unfoldable pub virtio_create_virtqueues :
        (V → ℕ → (ℕ → Bool) → ℤ × V) → V → ℕ → (ℕ → Bool) → ℤ × V
    virtio_create_virtqueues otherwise v nvqs callbacks = elim func.create_virtqueues [
      | none ↦ otherwise v nvqs callbacks
      | some create ↦ create v nvqs callbacks
    ]
