-- ===== src/Download/Tests.antt =====
-- Downloads of a stored file with a secret configured.
use file_forge.Base.{◌≡◌, ◌≢◌, some, [], ◌++◌, arith}
use file_forge.Base.Text.{Text, codes}
use file_forge.Signing.{create_signed_link, text_or_empty}
use file_forge.Signing.Forgery.{IsGenuine}
use file_forge.Signing.Sample.{whole, toy, whole-Exact, toy-Hex, file}
use file_forge.Storage.{resolve_key, exists}
use file_forge.Storage.Containment.{Under}
use file_forge.Storage.Memory.{
  memory, root, root-IsName, full, full-exists, full-size, full-open_file,
}
use file_forge.Download.{
  Deps, signed_link, create_link, send_existing, send_sized, send_opened, download,
}
use file_forge.Download.Guard.{IsServed, download_guarded}
use file_forge.Download.Links.{minted_link_opens}

abbrev deps : Deps whole toy memory root
deps = record {
  download_secret = codes "s";
  download_ttl_seconds = 900;
  to_lower_case = λ t. t;
  basename = λ t. t;
}

abbrev link_expires : Text
link_expires = whole.print (create_signed_link whole toy file (codes "s") 900 1500).expires

abbrev link_signature : Text
link_signature = (create_signed_link whole toy file (codes "s") 900 1500).signature

minted_link_opens_example :
    (create_link whole toy memory root deps (some file) 1500 full ≡ (
      signed_link
          (codes "/files/"
            ++ (file
                ++ (codes "?expires="
                    ++ (link_expires ++ (codes "&signature=" ++ link_signature)))))
          (create_signed_link whole toy file (codes "s") 900 1500),
      full,
    ))
    × (download whole toy memory root deps file
          (some link_expires)
          (some link_signature)
          901999
          full
        ≡ send_existing whole toy memory root deps file (exists memory root file full))
minted_link_opens_example =
    minted_link_opens whole toy memory root whole-Exact toy-Hex deps file full full 1500 901999
      (λ e. cc) (λ e. cc) full-exists (omega arith) (omega arith)

file_sent :
    IsServed whole toy memory root
      (send_existing whole toy memory root deps file (exists memory root file full)).0
unfolding send_existing send_sized send_opened
file_sent = rw full-exists (rw full-size (rw full-open_file tt))

file-IsServed :
    IsServed whole toy memory root
      (download whole toy memory root deps file
        (some link_expires)
        (some link_signature)
        901999
        full).0
file-IsServed = rw minted_link_opens_example.1 file_sent

download_guarded_example :
    Under root (resolve_key root file)
    × (codes "s" ≢ []
        → IsGenuine whole toy file
            (text_or_empty (some link_expires))
            (text_or_empty (some link_signature))
            (codes "s")
            901999)
download_guarded_example =
    download_guarded whole toy memory root toy-Hex deps file (some link_expires)
      (some link_signature) 901999 full (λ e. cc) root-IsName file-IsServed
