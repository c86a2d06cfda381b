-- ===== src/Shutdown/Worker/Orderly.antt =====
-- What the worker has closed when it exits.
use file_forge.Base.{
  ℕ, ◌≡◌, ◌≢◌, refl, Bool, true, false, Option, none, some, List, [], ◌∷◌, get_elem?, All,
  All-append, arith, inl, inr, Option-cases, ◌⊎◌,
}
use file_forge.Base.Runs.{Runs, Runs-keep, All-get, All-put, All-Unit}
use file_forge.Shutdown.Worker.{
  Resource, job_worker, maintenance_worker, maintenance_queue, connection, closing_order, IsIn,
  Closing, Process, running_at, exit, on_signal, on_settled, resumed, on_timeout, Occurrence, Step,
  signal, settle, time_out, pass,
}

-- What stands before it in the order is closed.
data IsBehind (closed : List Resource) : List Resource → Type 0 where
  at_job_worker : IsBehind closed closing_order
  at_maintenance_worker :
      IsIn job_worker closed
      → IsBehind closed (maintenance_worker ∷ maintenance_queue ∷ connection ∷ [])
  at_maintenance_queue :
      IsIn job_worker closed
      → IsIn maintenance_worker closed
      → IsBehind closed (maintenance_queue ∷ connection ∷ [])
  at_connection :
      IsIn job_worker closed
      → IsIn maintenance_worker closed
      → IsIn maintenance_queue closed
      → IsBehind closed (connection ∷ [])

one_more : (r s : Resource) (l : List Resource) → IsIn s l → IsIn s (r ∷ l)
one_more r s l m = inr m

newest : (r : Resource) (l : List Resource) → IsIn r (r ∷ l)
newest r l = inl refl

module _ (r : Resource) (closed : List Resource) where
  IsBehind-more : (rest : List Resource) → IsBehind closed rest → IsBehind (r ∷ closed) rest
  IsBehind-more rest at_job_worker = at_job_worker
  IsBehind-more rest (at_maintenance_worker a) = at_maintenance_worker (one_more r _ _ a)
  IsBehind-more rest (at_maintenance_queue a b) =
      at_maintenance_queue (one_more r _ _ a) (one_more r _ _ b)
  IsBehind-more rest (at_connection a b c) =
      at_connection (one_more r _ _ a) (one_more r _ _ b) (one_more r _ _ c)

IsBehind-next :
    (r s : Resource) (rest closed : List Resource)
    → IsBehind closed (r ∷ s ∷ rest)
    → IsBehind (r ∷ closed) (s ∷ rest)
IsBehind-next r s rest closed at_job_worker = at_maintenance_worker (newest _ _)
IsBehind-next r s rest closed (at_maintenance_worker a) =
    at_maintenance_queue (one_more r _ _ a) (newest _ _)
IsBehind-next r s rest closed (at_maintenance_queue a b) =
    at_connection (one_more r _ _ a) (one_more r _ _ b) (newest _ _)

IsBehind-last :
    (r : Resource) (closed : List Resource)
    → IsBehind closed (r ∷ [])
    → All (λ s. IsIn s (r ∷ closed)) closing_order
IsBehind-last r closed (at_connection a b c) =
    (one_more r _ _ a, (one_more r _ _ b, (one_more r _ _ c, (newest _ _, tt))))

abbrev pub AllClosed : List Resource → Type 0
AllClosed closed = All (λ r. IsIn r closed) closing_order

AllClosed-more : (r : Resource) (closed : List Resource) → AllClosed closed → AllClosed (r ∷ closed)
AllClosed-more r closed (a, (b, (c, (d, _)))) = (inr a, (inr b, (inr c, (inr d, tt))))

not_yet :
    (r s : Resource) (rest closed : List Resource) → IsBehind closed (r ∷ s ∷ rest) → connection ≢ r
not_yet r s rest closed at_job_worker = λ e. ground arith
not_yet r s rest closed (at_maintenance_worker a) = λ e. ground arith
not_yet r s rest closed (at_maintenance_queue a b) = λ e. ground arith

record IsOrderly (p : Process) : Type 0 where
  quit : IsIn connection p.closed → AllClosed p.closed
  behind : All (λ c. IsBehind p.closed c.awaited) p.closings
  over : p.exit_code ≡ some 0 → AllClosed p.closed

exit_one : {P : Type 0} → ◌≡◌ {A = Option ℕ} (some 1) (some 0) → P
exit_one e = ground arith

All-more :
    (r : Resource) (closed : List Resource) (cs : List Closing)
    → All (λ c. IsBehind closed c.awaited) cs
    → All (λ c. IsBehind (r ∷ closed) c.awaited) cs
All-more r closed [] h = tt
All-more r closed (c ∷ cs) (b, h) = (IsBehind-more r closed c.awaited b, All-more r closed cs h)

quit_more :
    (r s : Resource) (rest closed : List Resource)
    → IsBehind closed (r ∷ s ∷ rest)
    → (IsIn connection closed → AllClosed closed)
    → IsIn connection (r ∷ closed)
    → AllClosed (r ∷ closed)
quit_more r s rest closed b h (inl e) = absurd (not_yet r s rest closed b e)
quit_more r s rest closed b h (inr m) = AllClosed-more r closed (h m)

resumed-IsOrderly :
    (i : ℕ) (c : Closing) (rest : List Resource) (ok : Bool) (p : Process)
    → p.exit_code ≡ none
    → IsBehind p.closed rest
    → IsOrderly p
    → IsOrderly (resumed i c rest ok p)
unfolding resumed exit
resumed-IsOrderly i c [] ok p on b h = h
resumed-IsOrderly i c (r ∷ rest) false p on b h = record {
  quit = h.quit;
  behind = h.behind;
  over = exit_one;
}
resumed-IsOrderly i c (r ∷ []) true p on b h = record {
  quit = λ _. IsBehind-last r p.closed b;
  behind = All-more r p.closed p.closings h.behind;
  over = λ _. IsBehind-last r p.closed b;
}
resumed-IsOrderly i c (r ∷ s ∷ rest) true p on b h = record {
  quit = quit_more r s rest p.closed b h.quit;
  behind =
      All-put (λ c. IsBehind (r ∷ p.closed) c.awaited) p.closings i
        (record c { awaited = s ∷ rest }) (IsBehind-next r s rest p.closed b)
        (All-more r p.closed p.closings h.behind);
  over = λ e. ground arith;
}

Step-IsOrderly :
    (o : Occurrence) (p q : Process) → Step o p q → Unit {0} → IsOrderly p → IsOrderly q
unfolding on_signal on_settled on_timeout exit
Step-IsOrderly _ _ _ (signal p on) _ h = record {
  quit = h.quit;
  behind = All-append _ p.closings _ h.behind (at_job_worker, tt);
  over = h.over;
}
Step-IsOrderly _ _ _ (settle p i ok on) _ h = elim (Option-cases (get_elem? p.closings i)) [
  | inl e ↦ rw (e, on_settled) h
  | inr (c, e) ↦
      rw (e, on_settled)
        (resumed-IsOrderly i c c.awaited ok p on
          (All-get (λ c. IsBehind p.closed c.awaited) p.closings i c e h.behind) h)
]
Step-IsOrderly _ _ _ (time_out p i c on e due) _ h = record {
  quit = h.quit;
  behind = h.behind;
  over = exit_one;
}
Step-IsOrderly _ _ _ (pass p on) _ h = record { quit = h.quit; behind = h.behind; over = h.over }

Runs-IsOrderly :
    (now : ℕ) (os : List Occurrence) (p : Process) → Runs Step os (running_at now) p → IsOrderly p
unfolding running_at
Runs-IsOrderly now os p r =
    Runs-keep Step IsOrderly (λ o. Unit {0}) Step-IsOrderly os (running_at now) p r (All-Unit os)
      (record { quit = λ m. absurd m; behind = tt; over = λ e. ground arith })

-- In whatever order signals, settled promises and timers come, the connection to Redis is closed, and
-- the code 0 is given, only when both workers, the queue and the connection have been closed.
pub closed_before_exit :
    (now : ℕ) (os : List Occurrence) (p : Process)
    → Runs Step os (running_at now) p
    → IsIn connection p.closed ⊎ (p.exit_code ≡ some 0)
    → AllClosed p.closed
closed_before_exit now os p r (inl quit) = (Runs-IsOrderly now os p r).quit quit
closed_before_exit now os p r (inr e) = (Runs-IsOrderly now os p r).over e
