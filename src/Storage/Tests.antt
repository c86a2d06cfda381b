-- ===== src/Storage/Tests.antt =====
-- The storage theorems under /srv/files.
use file_forge.Base.{◌≡◌, none, some, ◌∷◌, ◌↔◌}
use file_forge.Base.Text.{codes}
use file_forge.Storage.{path_for, resolve_key}
use file_forge.Storage.Containment.{Under, path_for_iff}
use file_forge.Storage.Memory.{root, root-IsName, Files}

abbrev start : Files
start = record { stored = λ path. none; local = λ name. some 3 }

path_for_iff_example :
    (path_for root (codes "a/../b") ≡ some (codes "b" ∷ root))
    ↔ ((codes "b" ∷ root ≡ resolve_key root (codes "a/../b")) × Under root (codes "b" ∷ root))
path_for_iff_example = path_for_iff root (codes "a/../b") (codes "b" ∷ root) (λ e. cc) root-IsName
