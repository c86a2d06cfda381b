-- ===== src/Files/Records/Memory.antt =====
-- A Redis in memory, and records as texts that hold the length of each field, which meet what the
-- theorem about uploads assumes.
use file_forge.Base.{
  ℕ, ◌≡◌, ◌≢◌, refl, ap, Option, none, some, [], ◌∷◌, ◌++◌, length, take, drop, if◌then◌else◌,
  Bool-cases, inl, inr,
}
use file_forge.Base.Text.{Text, text_eq, text_eq_iff, text_eq_self}
use file_forge.Files.Records.{FileRecord, parsed, Redis, save, key_for}
use file_forge.Files.Records.Kept.{Keeps}

pack : Text → Text → Text
pack a rest = length a ∷ (a ++ rest)

field : Text → Text
field [] = []
field (n ∷ s) = take n s

behind : Text → Text
behind [] = []
behind (n ∷ s) = drop n s

take-length : (a rest : Text) → take (length a) (a ++ rest) ≡ a
take-length [] rest = refl
take-length (c ∷ a) rest = ap (λ t. c ∷ t) (take-length a rest)

drop-length : (a rest : Text) → drop (length a) (a ++ rest) ≡ rest
drop-length [] rest = refl
drop-length (c ∷ a) rest = drop-length a rest

field-pack : (a rest : Text) → field (pack a rest) ≡ a
unfolding field pack
field-pack a rest = take-length a rest

behind-pack : (a rest : Text) → behind (pack a rest) ≡ rest
unfolding behind pack
behind-pack a rest = drop-length a rest

first_or_zero : Text → ℕ
first_or_zero [] = 0
first_or_zero (c ∷ s) = c

pub stringify : FileRecord → Text
stringify r = pack r.id (
    pack r.storage_key (pack r.original_name (pack r.mime_type (pack r.uploaded_at (r.size ∷ [])))))

pub parse : Text → FileRecord
parse s =
    let s1 = behind s in
    let s2 = behind s1 in
    let s3 = behind s2 in
    let s4 = behind s3 in
    record {
      id = field s;
      storage_key = field s1;
      original_name = field s2;
      mime_type = field s3;
      size = first_or_zero (behind s4);
      uploaded_at = field s4;
    }

parse-stringify : (r : FileRecord) → parse (stringify r) ≡ r
unfolding parse stringify first_or_zero
parse-stringify r = simp (field-pack, behind-pack)

abbrev pub memory : Redis
memory = record {
  Store = Text → Option Text;
  get = λ k s. some (s k);
  set_ex = λ k v ttl s. (some tt, λ j. if text_eq j k then some v else s j);
  del = λ k s. (some tt, λ j. if text_eq j k then none else s j);
  count_existing = λ k s. some (elim (s k) [ none ↦ 0 | some v ↦ 1 ]);
  incrby = λ k n s. (some tt, λ j. if text_eq j k then some (n ∷ []) else s j);
  stringify = stringify;
  parse = λ raw. parsed (parse raw);
}

incrby_other :
    (j k : Text) (n : ℕ) (s : Text → Option Text)
    → j ≢ k
    → memory.get j (memory.incrby k n s).1 ≡ memory.get j s
incrby_other j k n s differ = elim (Bool-cases (text_eq j k)) [
  | inl same ↦ absurd (differ ((text_eq_iff j k).0 same))
  | inr other ↦ rw other refl
]

pub memory-Keeps : Keeps memory
memory-Keeps = record {
  get-set_ex = λ k v ttl s e. rw (text_eq_self k) refl;
  get-incrby = incrby_other;
  parse-stringify = λ r. ap (λ x. parsed x) (parse-stringify r);
}

pub save_lem :
    (ttl : ℕ) (r : FileRecord) (s : Text → Option Text)
    → save memory ttl r s ≡ memory.set_ex (key_for r.id) (memory.stringify r) ttl s
unfolding save
save_lem ttl r s = refl
