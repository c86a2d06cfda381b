-- ===== src/RateLimit/Keys.antt =====
-- Which requests share a counter.
use file_forge.Base.{ℕ, ◌≡◌, [], ◌∷◌, ◌++◌, ap, arith}
use file_forge.Base.Text.{Text, codes}
use file_forge.Base.Decimal.{decimal, decimal-injective, decimal-IsDigit}
use file_forge.Base.Split.{Lacks, Lacks-of_digits, split_first, split_last}
use file_forge.RateLimit.{RateLimitOptions, Request, client_key, window_of, key_text, counter_key}

drop_one : Text → Text
drop_one [] = []
drop_one (c ∷ s) = s

drop_prefix : (p s t : Text) → p ++ s ≡ p ++ t → s ≡ t
unfolding drop_one
drop_prefix [] s t e = e
drop_prefix (c ∷ p) s t e = drop_prefix p s t (ap drop_one e)

-- Two requests are counted together only if bucket, client and window agree, for buckets whose
-- names hold no colon; a client's address may hold some, as IPv6 addresses do.
pub counter_key-injective :
    (o o' : RateLimitOptions) (r r' : Request) (now now' : ℕ)
    → Lacks b':' o.bucket
    → Lacks b':' o'.bucket
    → counter_key o r now ≡ counter_key o' r' now'
    → (o.bucket ≡ o'.bucket)
      × (client_key r ≡ client_key r')
      × (window_of o now ≡ window_of o' now')
unfolding counter_key key_text
counter_key-injective o o' r r' now now' h h' e =
    let digits =
      λ (n : ℕ). Lacks-of_digits b':' (decimal n) (λ d. omega arith) (decimal-IsDigit n) in
    let (same_bucket, behind) =
      split_first b':' o.bucket o'.bucket _ _ h h' (drop_prefix (codes "ratelimit:") _ _ e) in
    let (same_client, printed) =
      split_last b':' (client_key r) (client_key r') _ _ (digits (window_of o now))
        (digits (window_of o' now')) behind in
    (same_bucket, same_client, decimal-injective _ _ printed)
