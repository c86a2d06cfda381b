-- ===== src/Metrics.antt =====
-- metrics.ts: reading the counters and the depth of the queue. What Redis and the queue answer is an
-- argument, as is the conversion of a text to a number.
pub mod Exposition
pub mod Status
use file_forge.Base.{ℕ, ◌≡◌, refl, ap, Option, none, some, List, [], ◌∷◌, map}
use file_forge.Base.Text.{Text}
use file_forge.Files.Records.{
  Counter, uploads_total, jobs_queued_total, jobs_completed_total, jobs_failed_total,
  bytes_uploaded_total, files_cleaned_total, counter_key,
}

-- The counters in the order in which they are read.
abbrev pub counter_names : List Counter
counter_names =
    uploads_total ∷ jobs_queued_total ∷ jobs_completed_total ∷ jobs_failed_total
    ∷ bytes_uploaded_total ∷ files_cleaned_total ∷ []

module _ {Number : Type 0} (zero_number : Number) (to_number : Text → Number) where
  -- `Number(values[index] ?? 0)`
  number_of : Option Text → Number
  number_of none = zero_number
  number_of (some t) = to_number t

  -- The names with the values at their places; a place that is missing counts as zero.
  paired : List Counter → List (Option Text) → List (Counter × Number)
  unfolding number_of
  paired [] values = []
  paired (name ∷ names) [] = (name, zero_number) ∷ paired names []
  paired (name ∷ names) (value ∷ values) = (name, number_of value) ∷ paired names values

  -- The answer of MGET: `none` without Redis, `some none` for a promise that rejects.
  pub read_counters : Option ((List Text) → Option (List (Option Text))) → List (Counter × Number)
  unfolding paired
  read_counters none = paired counter_names []
  read_counters (some mget) = elim (mget (map counter_key counter_names)) [
    | none ↦ paired counter_names []
    | some values ↦ paired counter_names values
  ]

  paired-names :
      (names : List Counter) (values : List (Option Text))
      → map (λ (p : Counter × Number). p.0) (paired names values) ≡ names
  unfolding paired
  paired-names [] values = refl
  paired-names (name ∷ names) [] = ap (λ l. name ∷ l) (paired-names names [])
  paired-names (name ∷ names) (value ∷ values) = ap (λ l. name ∷ l) (paired-names names values)

  -- Whatever Redis answers, each counter is reported once, in the fixed order.
  read_counters-names :
      (redis : Option ((List Text) → Option (List (Option Text))))
      → map (λ (p : Counter × Number). p.0) (read_counters redis) ≡ counter_names
  unfolding read_counters
  read_counters-names none = paired-names counter_names []
  read_counters-names (some mget) =
      elim (mget (map counter_key counter_names))
        as (λ x.
          map (λ (p : Counter × Number). p.0)
            (elim x as (λ _. List (Counter × Number)) [
              | none ↦ paired counter_names []
              | some values ↦ paired counter_names values
            ])
          ≡ counter_names) [
            | none ↦ paired-names counter_names []
            | some values ↦ paired-names counter_names values
          ]

pub record QueueDepth : Type 0 where
  pub waiting : ℕ
  pub active : ℕ
  pub completed : ℕ
  pub failed : ℕ
  pub delayed : ℕ

-- What `getJobCounts` answers; a count may be missing.
pub record JobCounts : Type 0 where
  pub waiting : Option ℕ
  pub active : Option ℕ
  pub completed : Option ℕ
  pub failed : Option ℕ
  pub delayed : Option ℕ

count_or_zero : Option ℕ → ℕ
count_or_zero none = 0
count_or_zero (some n) = n

-- `none` without a queue, `some none` for a promise that rejects.
pub read_queue_depth : Option (Option JobCounts) → Option QueueDepth
unfolding count_or_zero
read_queue_depth none = none
read_queue_depth (some none) = none
read_queue_depth (some (some counts)) = some (record {
  waiting = count_or_zero counts.waiting;
  active = count_or_zero counts.active;
  completed = count_or_zero counts.completed;
  failed = count_or_zero counts.failed;
  delayed = count_or_zero counts.delayed;
})
