-- ===== src/Files/Records/Kept.antt =====
-- What was saved is read back.
use file_forge.Base.{ℕ, ◌≡◌, ◌≢◌, refl, ap, Bool, true, false, some, [], ◌∷◌, arith}
use file_forge.Base.Text.{Text}
use file_forge.Files.Records.{
  FileRecord, parsed, Redis, save, get, key_for, counter_key, Counter, uploads_total,
  jobs_queued_total, jobs_completed_total, jobs_failed_total, bytes_uploaded_total,
  files_cleaned_total, increment_counter, read_raw, read_parsed,
}

-- SET is read back by GET, INCRBY leaves other keys alone, and what JSON.stringify writes of a record
-- is parsed and accepted as that record.
pub record Keeps (R : Redis) : Type 0 where
  pub get-set_ex :
      (k v : Text) (ttl : ℕ) (s : R.Store)
      → (R.set_ex k v ttl s).0 ≡ some tt
      → R.get k (R.set_ex k v ttl s).1 ≡ some (some v)
  pub get-incrby :
      (j k : Text) (n : ℕ) (s : R.Store) → j ≢ k → R.get j (R.incrby k n s).1 ≡ R.get j s
  pub parse-stringify : (r : FileRecord) → R.parse (R.stringify r) ≡ parsed r

first_or_zero : Text → ℕ
first_or_zero [] = 0
first_or_zero (c ∷ s) = c

first_of_counter : (c : Counter) → first_or_zero (counter_key c) ≡ b'm'
unfolding counter_key first_or_zero
first_of_counter uploads_total = refl
first_of_counter jobs_queued_total = refl
first_of_counter jobs_completed_total = refl
first_of_counter jobs_failed_total = refl
first_of_counter bytes_uploaded_total = refl
first_of_counter files_cleaned_total = refl

keys_differ : (id : Text) (c : Counter) → key_for id ≢ counter_key c
unfolding key_for first_or_zero
keys_differ id c e = omega (arith, first_of_counter c, ap first_or_zero e)

module _ (R : Redis) (keeps : Keeps R) where
  pub get-increment :
      (id : Text) (counting : Bool) (c : Counter) (n : ℕ) (s : R.Store)
      → get R id (increment_counter R counting c n s) ≡ get R id s
  unfolding get increment_counter
  get-increment id false c n s = refl
  get-increment id true c n s =
      ap (read_raw R) (keeps.get-incrby (key_for id) (counter_key c) n s (keys_differ id c))

  pub get-save :
      (ttl : ℕ) (r : FileRecord) (s : R.Store)
      → (save R ttl r s).0 ≡ some tt
      → get R r.id (save R ttl r s).1 ≡ some (some r)
  unfolding get save read_raw read_parsed
  get-save ttl r s e =
      rw (keeps.get-set_ex (key_for r.id) (R.stringify r) ttl s e)
        (rw (keeps.parse-stringify r) refl)
