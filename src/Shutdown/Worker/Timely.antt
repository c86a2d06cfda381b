-- ===== src/Shutdown/Worker/Timely.antt =====
-- What the timer of the worker's shutdown is good for.
use file_forge.Base.{
  ℕ, zero, suc, ◌≤◌, ◌≡◌, refl, none, some, List, [], ◌∷◌, Bool, true, false, get_elem?, inl, inr,
  Option-cases,
}
use file_forge.Base.Runs.{Runs, Runs-keep, All-Unit, put, get_elem?-append}
use file_forge.Shutdown.Worker.{
  Resource, Closing, Process, exit, on_signal, on_settled, resumed, on_timeout, Occurrence,
  timed_out, Step, signal, settle, time_out, pass, due_at,
}

-- The shutdown at the place `i` has its timer, which is due at `due`.
record IsArmed (i due : ℕ) (cs : List Closing) : Type 0 where
  closing : Closing
  there : get_elem? cs i ≡ some closing
  set : due_at closing ≡ due

IsArmed-put :
    (cs : List Closing) (j i due : ℕ) (c c' : Closing)
    → get_elem? cs j ≡ some c
    → c'.started ≡ c.started
    → IsArmed i due cs
    → IsArmed i due (put j c' cs)
IsArmed-put [] j i due c c' e same h = h
IsArmed-put (d ∷ cs) zero zero due c c' e same h =
    let found = h.there in
    let mine : c ≡ h.closing = cc (e, found) in
    record { closing = c'; there = refl; set = rw (same, mine) h.set }
IsArmed-put (d ∷ cs) zero (suc i) due c c' e same h = record {
  closing = h.closing;
  there = h.there;
  set = h.set;
}
IsArmed-put (d ∷ cs) (suc j) zero due c c' e same h = record {
  closing = h.closing;
  there = h.there;
  set = h.set;
}
IsArmed-put (d ∷ cs) (suc j) (suc i) due c c' e same h =
    let rest =
      IsArmed-put cs j i due c c' e same
        (record { closing = h.closing; there = h.there; set = h.set }) in
    record { closing = rest.closing; there = rest.there; set = rest.set }

resumed-IsArmed :
    (i due j : ℕ) (c : Closing) (rest : List Resource) (ok : Bool) (p : Process)
    → get_elem? p.closings j ≡ some c
    → IsArmed i due p.closings
    → IsArmed i due (resumed j c rest ok p).closings
unfolding resumed exit
resumed-IsArmed i due j c [] ok p e h = h
resumed-IsArmed i due j c (r ∷ rest) false p e h = h
resumed-IsArmed i due j c (r ∷ []) true p e h = h
resumed-IsArmed i due j c (r ∷ s ∷ rest) true p e h = IsArmed-put p.closings j i due c _ e refl h

Step-IsArmed :
    (i due : ℕ) (o : Occurrence) (p q : Process)
    → Step o p q
    → Unit {0}
    → IsArmed i due p.closings
    → IsArmed i due q.closings
unfolding on_signal on_settled on_timeout exit
Step-IsArmed i due _ _ _ (signal p on) _ h = record {
  closing = h.closing;
  there = get_elem?-append p.closings _ i h.closing h.there;
  set = h.set;
}
Step-IsArmed i due _ _ _ (settle p j ok on) _ h = elim (Option-cases (get_elem? p.closings j)) [
  | inl e ↦ rw (e, on_settled) h
  | inr (c, e) ↦ rw (e, on_settled) (resumed-IsArmed i due j c c.awaited ok p e h)
]
Step-IsArmed i due _ _ _ (time_out p j c on e late) _ h = h
Step-IsArmed i due _ _ _ (pass p on) _ h = h

-- Nothing takes the timer of a shutdown off: whatever is settled, fails or never comes after the shutdown
-- has begun, and however many signals follow, once its 30 seconds have passed and the process is still
-- there its timer may fire, and then the process exits with the code 1.
pub timer_survives :
    (i : ℕ) (os : List Occurrence) (p q : Process) (c : Closing)
    → get_elem? p.closings i ≡ some c
    → Runs Step os p q
    → q.exit_code ≡ none
    → due_at c ≤ q.now
    → (r : Process) × Step (timed_out i) q r × (r.exit_code ≡ some 1)
unfolding on_timeout exit
timer_survives i os p q c there r on late =
    let h =
      Runs-keep Step (λ x. IsArmed i (due_at c) x.closings) (λ _. Unit {0})
        (Step-IsArmed i (due_at c)) os p q r (All-Unit os)
        (record { closing = c; there = there; set = refl }) in
    (on_timeout q, time_out q i h.closing on h.there (rw h.set late), refl)
