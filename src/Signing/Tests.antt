-- ===== src/Signing/Tests.antt =====
-- The theorems about links at a concrete key.
use file_forge.Base.{◌≡◌, ◌≢◌, some, [], arith}
use file_forge.Base.Text.{Text, codes}
use file_forge.Base.Decimal.{decimal}
use file_forge.Signing.{ok, fail, expired, create_signed_link, verify_signed_link}
use file_forge.Signing.Links.{verify-create}
use file_forge.Signing.Forgery.{IsGenuine, verify-IsGenuine}
use file_forge.Signing.Sample.{whole, toy, whole-Exact, toy-Hex, file}

-- Made in second 1 for 900 seconds, and presented in second 901.
abbrev own_expires : Text
own_expires = decimal 901

abbrev own_signature : Text
own_signature = (create_signed_link whole toy file (codes "s") 900 1500).signature

one_second_late :
    verify_signed_link whole toy file (some own_expires) (some own_signature) (codes "s") 902000
    ≡ fail expired
unfolding create_signed_link
one_second_late =
    verify-create whole toy whole-Exact toy-Hex file (codes "s") 900 1500 902000 (omega arith)
      (omega arith)

accepted :
    verify_signed_link whole toy file (some own_expires) (some own_signature) (codes "s") 901999
    ≡ ok
unfolding create_signed_link
accepted =
    verify-create whole toy whole-Exact toy-Hex file (codes "s") 900 1500 901999 (omega arith)
      (omega arith)

verify-IsGenuine_example :
    (expires : Text) × (signature : Text) × (some own_expires ≡ some expires)
    × (some own_signature ≡ some signature)
    × (expires ≢ [])
    × (signature ≢ [])
    × IsGenuine whole toy file expires signature (codes "s") 901999
verify-IsGenuine_example =
    verify-IsGenuine whole toy toy-Hex file (codes "s") (some own_expires) (some own_signature)
      901999 accepted
