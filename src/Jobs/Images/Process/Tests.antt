-- ===== src/Jobs/Images/Process/Tests.antt =====
-- An image job with a width, and an image library that fails on what is out of bounds.
use file_forge.Base.{ℕ, ◌≡◌, refl, true, [], ◌∷◌, leb, if◌then◌else◌, arith}
use file_forge.Base.Text.{codes}
use file_forge.Storage.Memory.{memory, root}
use file_forge.Jobs.{image_resize, JobPayload}
use file_forge.Jobs.Images.Bounds.{IsBounded}
use file_forge.Jobs.Images.Process.{
  Sharp, Transform, resized, to_format, cover_webp, resize_image, convert_image, thumbnail_image,
}
use file_forge.Jobs.Images.Process.Bounded.{images_bounded}
use file_forge.Jobs.Sample.{zod, sharp, keeper, report, present, extname}

-- Nothing comes of a square of less than 16 pixels or a quality of 0.
abbrev strict_pipe : ℕ → Transform → ℕ
strict_pipe source (resized o) = source
strict_pipe source (to_format f quality) = if leb 1 quality then source else 0
strict_pipe source (cover_webp n) = if leb 16 n then source else 0

strict_pipe-bounded :
    (source : ℕ) (t : Transform) → IsBounded t → sharp.pipe source t ≡ strict_pipe source t
strict_pipe-bounded source (resized o) b = refl
strict_pipe-bounded source (to_format f quality) b =
    let known : leb 1 quality ≡ true = ground (arith, b.1) in rw known refl
strict_pipe-bounded source (cover_webp n) b =
    let known : leb 16 n ≡ true = ground (arith, b.0) in rw known refl

abbrev strict_sharp : Sharp memory
strict_sharp = record { metadata = sharp.metadata; pipe = strict_pipe }

abbrev job : JobPayload
job = record {
  file_id = codes "f";
  operation = image_resize;
  options = (codes "width", codes "800") ∷ (codes "format", codes "png") ∷ [];
}

images_bounded_example :
    (resize_image zod memory sharp keeper report root extname [] job present
      ≡ resize_image zod memory strict_sharp keeper report root extname [] job present)
    × (convert_image zod memory sharp keeper report root extname [] job present
        ≡ convert_image zod memory strict_sharp keeper report root extname [] job present)
    × (thumbnail_image zod memory sharp keeper report root extname [] job present
        ≡ thumbnail_image zod memory strict_sharp keeper report root extname [] job present)
images_bounded_example =
    images_bounded zod memory sharp keeper report root extname [] strict_pipe strict_pipe-bounded
      job present
