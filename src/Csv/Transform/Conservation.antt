-- ===== src/Csv/Transform/Conservation.antt =====
-- No row is lost or invented between the counters and the output.
use file_forge.Base.{
  ◌+◌, ◌≡◌, refl, ap, Bool, not, ltb, ◌&&◌, List, [], ◌∷◌, arith, length, Bool-cases, inl, inr,
}
use file_forge.Csv.{max_rows}
use file_forge.Csv.Transform.{
  TransformOptions, Object, Row, fields, object, Progress, Reshaped, fails, skips, pushes,
  emit_object, with_columns, reshape_object, select_columns, reshape_row, reshape, Output, failed,
  written, then_push, reshape_all, is_nil,
}

-- One row is seen, and kept or dropped.
abbrev Accounts : Progress → Reshaped → Type 0
Accounts s (fails e) = Unit
Accounts s (skips s') = (s'.seen ≡ s.seen + 1) × (s'.kept ≡ s.kept) × (s'.dropped ≡ s.dropped + 1)
Accounts s (pushes s' out) =
    (s'.seen ≡ s.seen + 1) × (s'.kept ≡ s.kept + 1) × (s'.dropped ≡ s.dropped)

-- `t` is `s` with one more row seen.
abbrev OneSeen : Progress → Progress → Type 0
OneSeen s t = (t.seen ≡ s.seen + 1) × (t.kept ≡ s.kept) × (t.dropped ≡ s.dropped)

emit-Accounts :
    (o : TransformOptions) (p : Object × Bool) (s t : Progress)
    → OneSeen s t
    → Accounts s (emit_object o p t)
unfolding emit_object
emit-Accounts o (output, empty) s t h = elim (Bool-cases (o.drop_empty_rows && empty)) [
  | inl drop ↦ rw drop (omega arith)
  | inr keep ↦ rw keep (omega arith)
]

object-Accounts :
    (o : TransformOptions) (row : Object) (s t : Progress)
    → OneSeen s t
    → Accounts s (reshape_object o row t)
unfolding reshape_object with_columns
object-Accounts o row s t h = elim (Bool-cases (is_nil t.selected)) [
  | inr chosen ↦ rw chosen (emit-Accounts o _ s t h)
  | inl fresh ↦ elim (Bool-cases (not (is_nil o.columns) && is_nil (select_columns o row))) [
    | inl none_there ↦ rw (fresh, none_there) tt
    | inr some_there ↦
        rw (fresh, some_there)
          (emit-Accounts o _ s (record t { selected = select_columns o row }) h)
  ]
]

reshape-Accounts : (o : TransformOptions) (row : Row) (s : Progress) → Accounts s (reshape o row s)
unfolding reshape reshape_row
reshape-Accounts o row s = elim (Bool-cases (ltb max_rows (s.seen + 1))) [
  | inl full ↦ rw full tt
  | inr room ↦ rw room (one row)
]
  where
    one : (row : Row) → Accounts s (reshape_row o row (record s { seen = s.seen + 1 }))
    one (fields values) = (refl, refl, refl)
    one (object row) = object-Accounts o row s (record s { seen = s.seen + 1 }) (refl, refl, refl)

then_push-written :
    (row : Row) (x : Output) (s : Progress) (out : List Row)
    → then_push row x ≡ written s out
    → (rest : List Row) × (x ≡ written s rest) × (out ≡ row ∷ rest)
then_push-written row (failed e) s out q = cc
then_push-written row (written t rest) s out q = (rest, cc, cc)

-- The final counters against the rows that came in and went out.
pub record Conserves (s : Progress) (rows : List Row) (s' : Progress) (out : List Row)
    : Type 0 where
  pub all_seen : s'.seen ≡ s.seen + length rows
  pub all_kept : s'.kept ≡ s.kept + length out
  pub balanced : s'.kept + s'.dropped ≡ s.kept + s.dropped + length rows

-- When the transform of a file ends without an error, every row that came in was counted, every
-- row counted as kept was written, and every other one was counted as dropped.
pub reshape_all-Conserves :
    (o : TransformOptions) (rows : List Row) (s s' : Progress) (out : List Row)
    → reshape_all o rows s ≡ written s' out
    → Conserves s rows s' out
unfolding reshape_all
reshape_all-Conserves o [] s s' out e = ground arith
reshape_all-Conserves o (row ∷ rows) s s' out e =
    go (reshape_all-Conserves o rows) (reshape o row s) (reshape-Accounts o row s) e
  where
    go :
        ((t u : Progress) (ys : List Row)
          → reshape_all o rows t ≡ written u ys
          → Conserves t rows u ys)
        → (r : Reshaped) → Accounts s r
        → (elim r as (λ _. Output) [
          | fails x ↦ failed x
          | skips t ↦ reshape_all o rows t
          | pushes t y ↦ then_push y (reshape_all o rows t)
        ])
          ≡ written s' out
        → Conserves s (row ∷ rows) s' out
    go ih (fails x) a q = cc
    go ih (skips t) a q =
        let c = ih t s' out q in
        record {
          all_seen = omega (arith, c.all_seen);
          all_kept = omega (arith, c.all_kept);
          balanced = omega (arith, c.balanced);
        }
    go ih (pushes t y) a q =
        let (rest, ran, grown) = then_push-written y (reshape_all o rows t) s' out q in
        let c = ih t s' rest ran in
        record {
          all_seen = omega (arith, c.all_seen);
          all_kept = omega (arith, c.all_kept, ap length grown);
          balanced = omega (arith, c.balanced);
        }
