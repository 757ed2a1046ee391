-- ===== src/Rpmsg/Tests.antt =====
-- The theorems on addresses and endpoints at a device with one endpoint.
use v85x_openamp.Base.{◌≡◌, refl, [], ◌∷◌, arith, true, none, some, pos}
use v85x_openamp.Rpmsg.State.{rpmsg_addr_any}
use v85x_openamp.Rpmsg.Endpoint.{rpmsg_get_ept_from_addr, rpmsg_create_ept, rpmsg_destroy_ept}
use v85x_openamp.Rpmsg.Valid.{IsValid}
use v85x_openamp.Rpmsg.Unique.{rpmsg_create_ept-IsValid, rpmsg_destroy_ept-IsValid}
use v85x_openamp.Rpmsg.Lookup.{rpmsg_get_ept_from_addr-finds, rpmsg_destroy_ept-gone}
use v85x_openamp.Rpmsg.Samples.{bits, a_device, a_device-IsValid, a_message}

rpmsg_create_ept-IsValid_example :
    IsValid bits
      (rpmsg_create_ept bits a_message
        (pos 40)
        a_device
        (some 6)
        true
        (some (98 ∷ []))
        rpmsg_addr_any
        rpmsg_addr_any
        (some 2)
        none).1
rpmsg_create_ept-IsValid_example =
    rpmsg_create_ept-IsValid bits a_message (pos 40) a_device 6 true (some (98 ∷ [])) rpmsg_addr_any
      rpmsg_addr_any (some 2) none 3 a_device-IsValid refl (λ e. (omega arith, refl))

rpmsg_destroy_ept-IsValid_example :
    IsValid bits (rpmsg_destroy_ept bits a_message (pos 40) a_device (some 5))
rpmsg_destroy_ept-IsValid_example =
    rpmsg_destroy_ept-IsValid bits a_message (pos 40) a_device 5 (omega arith) a_device-IsValid

rpmsg_get_ept_from_addr-finds_example : rpmsg_get_ept_from_addr bits a_device 1024 ≡ some 5
rpmsg_get_ept_from_addr-finds_example =
    rpmsg_get_ept_from_addr-finds bits a_device 5 a_device-IsValid (omega arith) (omega arith)
      (omega arith)

rpmsg_destroy_ept-gone_example :
    rpmsg_get_ept_from_addr bits (rpmsg_destroy_ept bits a_message (pos 40) a_device (some 5)) 1024
    ≡ none
rpmsg_destroy_ept-gone_example =
    rpmsg_destroy_ept-gone bits a_message (pos 40) a_device 5 a_device-IsValid (omega arith) refl
      (omega arith)
