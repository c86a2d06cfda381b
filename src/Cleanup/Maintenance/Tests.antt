-- ===== src/Cleanup/Maintenance/Tests.antt =====
-- A run of maintenance on a disk of two old files in one directory, the second of which cannot be
-- removed.
use file_forge.Base.{
  ℕ, zero, suc, ◌+◌, ◌≡◌, refl, true, false, Option, none, some, List, [], ◌∷◌, arith,
}
use file_forge.Base.Text.{Text, codes}
use file_forge.Cleanup.{
  Stats, Disk, cleanup_old_files, sweep_root, sweep_entries, sweep_entry, sweep_listed, sweep_files,
  sweep_file, sweep_counted, removed, failed, is_recent, nothing_yet,
}
use file_forge.Cleanup.Maintenance.{Tally, Sums, maintain, maintenance_balanced}
use file_forge.Files.Records.{Redis, not_json, increment_counter}

abbrev listing : List Text → List Text
listing [] = codes "images" ∷ []
listing (d ∷ more) = codes "first" ∷ codes "second" ∷ []

abbrev stat_at : List Text → Stats
stat_at (d ∷ []) = record { is_directory = true; is_file = false; mtime_ms = 0; size = 0 }
stat_at _ = record { is_directory = false; is_file = true; mtime_ms = 0; size = 7 }

-- The last file of the disk stays.
abbrev remove_from : ℕ → Option (Unit {0}) × ℕ
remove_from (suc (suc n)) = (some tt, suc n)
remove_from n = (none, n)

abbrev disk : Disk
disk = record {
  State = ℕ;
  readdir = λ path n. some (listing path);
  stat = λ path n. some (stat_at path);
  remove = λ path n. remove_from n;
}

one_less : (n m : ℕ) → remove_from n ≡ (some tt, m) → n ≡ m + 1
one_less zero m e = ground arith
one_less (suc zero) m e = ground arith
one_less (suc (suc n)) m e = ground arith

none_less : (n m : ℕ) → remove_from n ≡ (none, m) → m ≡ n
none_less zero m e = ground arith
none_less (suc zero) m e = ground arith
none_less (suc (suc n)) m e = ground arith

abbrev disk-Tally : Tally disk
disk-Tally = record {
  files = λ n. n;
  one_less = λ path stats n m found regular. one_less n m;
  none_less = λ path. none_less;
}

-- A Redis of one number.
abbrev counting : Redis
counting = record {
  Store = ℕ;
  get = λ k s. some none;
  set_ex = λ k v ttl s. (some tt, s);
  del = λ k s. (some tt, s);
  count_existing = λ k s. some 0;
  incrby = λ k n s. (some tt, s + n);
  stringify = λ r. [];
  parse = λ t. not_json;
}

abbrev counting-Sums : Sums counting
counting-Sums = record { value = λ k s. s; raised = λ k n s. refl }

maintenance_balanced_example : (1 + 1 ≡ 2) × (8 + 1 ≡ 7 + 2)
unfolding maintain cleanup_old_files sweep_root sweep_entries sweep_entry sweep_listed sweep_files
    sweep_file sweep_counted removed failed is_recent nothing_yet increment_counter
maintenance_balanced_example =
    maintenance_balanced disk counting disk-Tally counting-Sums 1 72000000 2 7
