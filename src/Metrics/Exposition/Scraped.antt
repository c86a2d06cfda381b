-- ===== src/Metrics/Exposition/Scraped.antt =====
-- A scraper's reading of the text of GET /metrics.
use file_forge.Base.{
  ℕ, ◌≡◌, ◌≢◌, refl, ap, ◌∙◌, Bool, true, false, not, ◌&&◌, Option, none, some, List, [], ◌∷◌, ◌++◌,
  ◌==◌, if◌then◌else◌, arith, All, All-append, Bool-cases, inl, inr,
}
use mathlib.Core.List.{append_assoc}
use file_forge.Base.Text.{Text, codes, joined_lines}
use file_forge.Base.Decimal.{decimal, value, value-decimal, decimal-IsDigit}
use file_forge.Base.Split.{Lacks, Lacks-of_digits}
use file_forge.Files.Records.{Counter}
use file_forge.Metrics.{QueueDepth}
use file_forge.Metrics.Exposition.{
  Sample, full_name, lines_of, all_lines, queue_samples, samples, metrics_text,
}

-- The text up to the first `c`, and what stands behind it.
before : ℕ → Text → Text
before c [] = []
before c (d ∷ s) = let rest = before c s in if d == c then [] else d ∷ rest

behind : ℕ → Text → Text
behind c [] = []
behind c (d ∷ s) = let rest = behind c s in if d == c then s else rest

cons_line : ℕ → List Text → List Text
cons_line c [] = []
cons_line c (line ∷ lines) = if c == b'\n' then [] ∷ line ∷ lines else (c ∷ line) ∷ lines

split_lines : Text → List Text
unfolding cons_line
split_lines [] = [] ∷ []
split_lines (c ∷ s) = cons_line c (split_lines s)

-- A line that is no comment is a name, a space and a number.
sample_in : Text → List (Text × ℕ) → List (Text × ℕ)
unfolding before behind
sample_in [] found = found
sample_in (c ∷ s) found =
    if c == b'#' then found else (before b' ' (c ∷ s), value 0 (behind b' ' (c ∷ s))) ∷ found

all_samples : List Text → List (Text × ℕ)
unfolding sample_in
all_samples [] = []
all_samples (line ∷ lines) = sample_in line (all_samples lines)

pub scrape : Text → List (Text × ℕ)
unfolding split_lines all_samples
scrape text = all_samples (split_lines text)

split_some : (s : Text) → (line : Text) × (lines : List Text) × (split_lines s ≡ line ∷ lines)
unfolding split_lines cons_line
split_some [] = ([], [], refl)
split_some (c ∷ s) =
    let (line, lines, e) = split_some s in
    elim (Bool-cases (c == b'\n')) [
      | inl ends ↦ ([], line ∷ lines, rw e (rw ends refl))
      | inr goes ↦ (c ∷ line, lines, rw e (rw goes refl))
    ]

split_line :
    (x rest : Text) → Lacks b'\n' x → split_lines (x ++ (b'\n' ∷ rest)) ≡ x ∷ split_lines rest
unfolding split_lines cons_line
split_line [] rest h = let (line, lines, e) = split_some rest in rw e refl
split_line (c ∷ x) rest (n, h) =
    let goes : (c == b'\n') ≡ false = ground arith in rw (split_line x rest h) (rw goes refl)

split_joined :
    (x : Text) (xs : List Text)
    → All (Lacks b'\n') (x ∷ xs)
    → split_lines (joined_lines (x ∷ xs) ++ (b'\n' ∷ [])) ≡ (x ∷ xs) ++ ([] ∷ [])
unfolding joined_lines split_lines
split_joined x [] (h, hs) = split_line x [] h
split_joined x (y ∷ ys) (h, hs) = rw (append_assoc x (b'\n' ∷ joined_lines (y ∷ ys)) (b'\n' ∷ [])) (
    split_line x (joined_lines (y ∷ ys) ++ (b'\n' ∷ [])) h ∙ ap (λ l. x ∷ l) (split_joined y ys hs))

before-append : (c : ℕ) (x rest : Text) → Lacks c x → before c (x ++ (c ∷ rest)) ≡ x
unfolding before
before-append c [] rest h = ground arith
before-append c (d ∷ x) rest (n, h) =
    let goes : (d == c) ≡ false = ground arith in rw (goes, before-append c x rest h) refl

behind-append : (c : ℕ) (x rest : Text) → Lacks c x → behind c (x ++ (c ∷ rest)) ≡ rest
unfolding behind
behind-append c [] rest h = ground arith
behind-append c (d ∷ x) rest (n, h) =
    let goes : (d == c) ≡ false = ground arith in rw (goes, behind-append c x rest h) refl

-- Names without spaces and line ends, other texts without line ends.
abbrev IsPlain : Sample → Type 0
IsPlain s = Lacks b' ' s.name × Lacks b'\n' s.name × Lacks b'\n' s.kind × Lacks b'\n' s.help

abbrev read_as : Sample → Text × ℕ
read_as s = (full_name s.name, s.amount)

sample_in-line :
    (s : Sample) (found : List (Text × ℕ))
    → Lacks b' ' s.name
    → sample_in (full_name s.name ++ (b' ' ∷ decimal s.amount)) found ≡ read_as s ∷ found
unfolding full_name sample_in
sample_in-line s found h =
    let name = codes "file_forge_" ++ s.name in
    let plain : Lacks b' ' name =
      All-append (λ d. d ≢ b' ') (codes "file_forge_") s.name (omega arith) h in
    rw
      (
        before-append b' ' name (decimal s.amount) plain,
        behind-append b' ' name (decimal s.amount) plain,
        value-decimal s.amount,
      )
      refl

lines_of-Lacks : (s : Sample) → IsPlain s → All (Lacks b'\n') (lines_of s)
unfolding lines_of full_name
lines_of-Lacks s (_, name, kind, help) =
    let NotEnd : ℕ → Type 0 = λ d. d ≢ b'\n' in
    let full : Lacks b'\n' (full_name s.name) =
      All-append NotEnd (codes "file_forge_") s.name (omega arith) name in
    let digits : Lacks b'\n' (decimal s.amount) =
      Lacks-of_digits b'\n' (decimal s.amount) (λ d. omega arith) (decimal-IsDigit s.amount) in
    (
      All-append NotEnd (codes "# HELP ") (full_name s.name ++ (b' ' ∷ s.help)) (omega arith)
          (All-append NotEnd (full_name s.name) (b' ' ∷ s.help) full ((λ e. omega arith), help)),
      (
        All-append NotEnd (codes "# TYPE ") (full_name s.name ++ (b' ' ∷ s.kind)) (omega arith)
            (All-append NotEnd (full_name s.name) (b' ' ∷ s.kind) full ((λ e. omega arith), kind)),
        (
          All-append NotEnd (full_name s.name) (b' ' ∷ decimal s.amount) full
              ((λ e. omega arith), digits),
          tt,
        ),
      ),
    )

all_lines-Lacks : (ss : List Sample) → All IsPlain ss → All (Lacks b'\n') (all_lines ss)
unfolding all_lines
all_lines-Lacks [] h = tt
all_lines-Lacks (s ∷ ss) (h, hs) =
    All-append (Lacks b'\n') (lines_of s) (all_lines ss) (lines_of-Lacks s h)
      (all_lines-Lacks ss hs)

unfoldable pub read_samples : List Sample → List (Text × ℕ)
read_samples [] = []
read_samples (s ∷ ss) = read_as s ∷ read_samples ss

scraped :
    (ss : List Sample) → All IsPlain ss → all_samples (all_lines ss ++ ([] ∷ [])) ≡ read_samples ss
unfolding all_samples all_lines lines_of read_samples
scraped [] h = unfold sample_in in refl
scraped (s ∷ ss) (h, hs) =
    let rest : List (Text × ℕ) = all_samples (all_lines ss ++ ([] ∷ [])) in
    unfold sample_in in (sample_in-line s rest h.0 ∙ ap (λ l. read_as s ∷ l) (scraped ss hs))

abbrev lacks_test : ℕ → Text → Bool
lacks_test c [] = true
lacks_test c (d ∷ s) = not (d == c) && lacks_test c s

Lacks-of_test : (c : ℕ) (s : Text) → lacks_test c s ≡ true → Lacks c s
Lacks-of_test c [] e = tt
Lacks-of_test c (d ∷ s) e = ((λ same. ground (arith, e)), Lacks-of_test c s (ground (arith, e)))

abbrev plain_test : Sample → Bool
plain_test s =
    lacks_test b' ' s.name
    && lacks_test b'\n' s.name
    && (lacks_test b'\n' s.kind && lacks_test b'\n' s.help)

plain : (s : Sample) → plain_test s ≡ true → IsPlain s
plain s e = (
  Lacks-of_test b' ' s.name (ground (arith, e)),
  Lacks-of_test b'\n' s.name (ground (arith, e)),
  Lacks-of_test b'\n' s.kind (ground (arith, e)),
  Lacks-of_test b'\n' s.help (ground (arith, e)),
)

abbrev all_plain : List Sample → Bool
all_plain [] = true
all_plain (s ∷ ss) = plain_test s && all_plain ss

All-IsPlain : (ss : List Sample) → all_plain ss ≡ true → All IsPlain ss
All-IsPlain [] e = tt
All-IsPlain (s ∷ ss) e = (plain s (ground (arith, e)), All-IsPlain ss (ground (arith, e)))

samples-IsPlain :
    (counters : List (Counter × ℕ)) (q : Option QueueDepth) (heap uptime : ℕ)
    → All IsPlain (samples counters q heap uptime)
unfolding samples queue_samples
samples-IsPlain counters none heap uptime = All-IsPlain (samples counters none heap uptime) refl
samples-IsPlain counters (some q) heap uptime =
    All-IsPlain (samples counters (some q) heap uptime) refl

split_whole :
    (ss : List Sample)
    → ss ≢ []
    → All IsPlain ss
    → split_lines (joined_lines (all_lines ss) ++ (b'\n' ∷ [])) ≡ all_lines ss ++ ([] ∷ [])
unfolding all_lines lines_of
split_whole [] some_sample h = absurd (some_sample refl)
split_whole (s ∷ ss) some_sample h = split_joined _ _ (all_lines-Lacks (s ∷ ss) h)

-- A scraper that takes the text of GET /metrics line by line, passes over the comments and reads
-- every other line as a name, a space and a number gets the samples of the program: each counter and gauge
-- once, in its order, with its value.
pub scrape-metrics_text :
    (counters : List (Counter × ℕ)) (q : Option QueueDepth) (heap uptime : ℕ)
    → scrape (metrics_text counters q heap uptime) ≡ read_samples (samples counters q heap uptime)
unfolding scrape metrics_text samples
scrape-metrics_text counters q heap uptime =
    let plain = samples-IsPlain counters q heap uptime in
    let ss = samples counters q heap uptime in
    ap all_samples (split_whole ss (λ e. cc) plain) ∙ scraped ss plain
