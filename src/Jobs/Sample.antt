-- ===== src/Jobs/Sample.antt =====
-- Concrete parameters for the tests of the processors.
use file_forge.Base.{ℕ, true, Option, none, some, List, [], ◌∷◌, if◌then◌else◌}
use file_forge.Base.Text.{Text, codes, text_eq}
use file_forge.Storage.Memory
use file_forge.Storage.Memory.{Files}
use file_forge.Files.Records.{FileRecord, parsed, Redis}
use file_forge.Jobs.{JobPayload, Operation}
use file_forge.Jobs.Options.{Zod}
use file_forge.Jobs.Images.Process.{Sharp}
use file_forge.Csv.Process.{CsvLibrary}
use file_forge.Csv.Transform.{Row, object}

abbrev pub zod : Zod
zod = record {
  natural = λ t. some 800;
  truthy = λ t. true;
  string = λ t. some t;
  strings = λ t. some (t ∷ []);
  first_issue = λ o. [];
}

-- Every image decodes, and no transform changes the length.
abbrev pub sharp : Sharp Memory.memory
sharp = record {
  metadata = λ source.
      some (record { width = some source; height = some source; format = some (codes "png") });
  pipe = λ source t. source;
}

abbrev pub one_row : List Row
one_row = object ((codes "a", codes "1") ∷ []) ∷ []

abbrev pub tables : CsvLibrary Memory.memory
tables = record {
  rows = λ delimiter source. some ((codes "a" ∷ []) ∷ (codes "1" ∷ []) ∷ []);
  records = λ options delimiter source. some one_row;
  stages = λ options delimiter. tt ∷ [];
  report_source = λ found. 2;
}

abbrev pub upload : FileRecord
upload = record {
  id = codes "f";
  storage_key = codes "uploads/1.csv";
  original_name = codes "t.csv";
  mime_type = codes "text/csv";
  size = 3;
  uploaded_at = [];
}

-- A Redis whose records all read as that upload.
abbrev pub keeper : Redis
keeper = record {
  Store = Text → Option Text;
  get = λ k s. some (s k);
  set_ex = λ k v ttl s. (some tt, λ j. if text_eq j k then some v else s j);
  del = λ k s. (some tt, λ j. if text_eq j k then none else s j);
  count_existing = λ k s. some (elim (s k) [ none ↦ 0 | some v ↦ 1 ]);
  incrby = λ k n s. (some tt, s);
  stringify = λ r. [];
  parse = λ raw. parsed upload;
}

abbrev pub report : ℕ → (Text → Option Text) → Option (Unit {0}) × (Text → Option Text)
report n s = (some tt, s)

abbrev pub payload : Operation → JobPayload
payload o = record { file_id = codes "f"; operation = o; options = [] }

-- Everything is there, or nothing but the files.
abbrev pub present : Files × (Text → Option Text)
present = (Memory.full, λ k. some [])

abbrev pub no_records : Files × (Text → Option Text)
no_records = (Memory.full, λ k. none)

abbrev pub extname : Text → Text
extname t = codes ".csv"
