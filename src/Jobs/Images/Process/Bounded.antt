-- ===== src/Jobs/Images/Process/Bounded.antt =====
-- Nothing but bounded transforms is ever run.
use mathlib.Core.Path.{fun_ext}
use file_forge.Base.{ℕ, ◌≡◌, refl, ap, Option, Option-cases, inl, inr}
use file_forge.Base.Text.{Text}
use file_forge.Storage.{Disk, FilePath}
use file_forge.Files.Records.{Redis}
use file_forge.Jobs.{JobPayload}
use file_forge.Jobs.Context.{as_outcome}
use file_forge.Jobs.Options.{Zod, options_or_raise}
use file_forge.Jobs.Images.{ResizeOptions, parse_resize, parse_convert, parse_thumbnail}
use file_forge.Jobs.Images.Bounds.{
  IsBounded, parse_resize-IsBounded, parse_convert-IsBounded, parse_thumbnail-IsBounded,
}
use file_forge.Jobs.Images.Process.{
  Here, Transform, resized, to_format, cover_webp, Sharp, run_piped, run_pipeline, resize_with,
  convert_with, thumbnail_with, resize_image, convert_image, thumbnail_image,
}

module _ (Z : Zod) (D : Disk) (S : Sharp D) (R : Redis)
    (report : ℕ → R.Store → Option (Unit {0}) × R.Store) (root : FilePath) (extname : Text → Text)
    (uuid : Text) (pipe : D.Source → Transform → D.Source)
    (agree : (source : D.Source) (t : Transform)
      → IsBounded t
      → S.pipe source t ≡ pipe source t) where
  abbrev T : Sharp D
  T = record { metadata = S.metadata; pipe = pipe }

  pipeline_same :
      (p : JobPayload) (t : Transform)
      → IsBounded t
      → (suffix ext : Text)
      → run_pipeline Z D S R report root extname uuid p t suffix ext
        ≡ run_pipeline Z D T R report root extname uuid p t suffix ext
  unfolding run_pipeline
  pipeline_same p t b suffix ext =
      ap (λ f. run_piped D R report root extname uuid p f suffix ext) (fun_ext (λ s. agree s t b))

  resize_same :
      (p : JobPayload) (o : ResizeOptions)
      → IsBounded (resized o)
      → resize_with Z D S R report root extname uuid p o
        ≡ resize_with Z D T R report root extname uuid p o
  unfolding resize_with
  resize_same p o b = simp (pipeline_same p (resized o) b)

  convert_same :
      (p : JobPayload) (o : Text × ℕ)
      → IsBounded (to_format o.0 o.1)
      → convert_with Z D S R report root extname uuid p o
        ≡ convert_with Z D T R report root extname uuid p o
  unfolding convert_with
  convert_same p (f, q) b = simp (pipeline_same p (to_format f q) b)

  thumbnail_same :
      (p : JobPayload) (n : ℕ)
      → IsBounded (cover_webp n)
      → thumbnail_with Z D S R report root extname uuid p n
        ≡ thumbnail_with Z D T R report root extname uuid p n
  unfolding thumbnail_with
  thumbnail_same p n b = simp (pipeline_same p (cover_webp n) b)

  -- Whatever options a job carries, the processors give sharp no transform but those within the
  -- bounds: sizes from 1 to 8000 with at least one of them given and a known fit, one of the four
  -- formats with a quality from 1 to 100, or a square of 16 to 512. On any world and payload they do
  -- the same with every sharp that differs on other transforms only.
  pub images_bounded :
      (p : JobPayload) (w : Here Z D S R report root extname uuid)
      → (resize_image Z D S R report root extname uuid p w
          ≡ resize_image Z D T R report root extname uuid p w)
        × (convert_image Z D S R report root extname uuid p w
            ≡ convert_image Z D T R report root extname uuid p w)
        × (thumbnail_image Z D S R report root extname uuid p w
            ≡ thumbnail_image Z D T R report root extname uuid p w)
  unfolding resize_image convert_image thumbnail_image options_or_raise
  images_bounded p w = (
    elim (Option-cases (parse_resize Z p.options)) [
      | inl bad ↦ rw bad refl
      | inr (o, good) ↦
          rw good (
            ap (λ f. as_outcome (f w))
              (resize_same p o (parse_resize-IsBounded Z p.options o good)))
    ],
    elim (Option-cases (parse_convert Z p.options)) [
      | inl bad ↦ rw bad refl
      | inr ((f, q), good) ↦ rw good (
          ap (λ f. as_outcome (f w))
            (convert_same p (f, q) (parse_convert-IsBounded Z p.options f q good)))
    ],
    elim (Option-cases (parse_thumbnail Z p.options)) [
      | inl bad ↦ rw bad refl
      | inr (n, good) ↦ rw good (
          ap (λ f. as_outcome (f w))
            (thumbnail_same p n (parse_thumbnail-IsBounded Z p.options n good)))
    ],
  )
