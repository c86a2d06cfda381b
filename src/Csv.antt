-- ===== src/Csv.antt =====
-- jobs/csv.ts: the two row-by-row CSV operations. The parser and the stringifier are libraries; what
-- is modelled is what happens to each row that the parser hands over, and to the counters.
pub mod Validate
pub mod Transform
pub mod Process
use file_forge.Base.{ℕ}

abbrev pub max_rows : ℕ
max_rows = 5000000

abbrev pub max_examples : ℕ
max_examples = 5
