-- ===== src/Shutdown/Server/Drained.antt =====
-- What the API's process has left open when it exits.
use file_forge.Base.{
  ℕ, ◌≡◌, ◌≢◌, refl, Bool, true, false, Option, none, some, List, [], ◌∷◌, get_elem?, All,
  All-append, arith, inl, inr, Option-cases, ◌⊎◌,
}
use file_forge.Base.Runs.{Runs, Runs-keep, All-get, All-put, All-Unit}
use file_forge.Shutdown.Server.{
  Resource, Closing, Process, listening_at, exit, on_signal, on_connected, on_ended, called,
  on_server_closed, finish, resumed, resumed_if_called, on_settled, on_timeout, Occurrence, Step,
  signal, connect, end, server_close, settle, time_out, pass,
}

abbrev pub IsDrained : Process → Type 0
IsDrained p = (p.is_listening ≡ false) × (p.open_connections ≡ 0)

-- A shutdown has stopped the listening, and is called back only when the connections have ended.
abbrev pub IsWaiting : Process → Closing → Type 0
IsWaiting p c = (p.is_listening ≡ false) × ((c.called_back ≡ none) ⊎ (p.open_connections ≡ 0))

pub record IsSound (p : Process) : Type 0 where
  pub waiting : All (IsWaiting p) p.closings
  pub untouched : (p.closed ≡ []) ⊎ IsDrained p
  pub over : p.exit_code ≡ some 0 → IsDrained p

exit_one : {P : Type 0} → ◌≡◌ {A = Option ℕ} (some 1) (some 0) → P
exit_one e = ground arith

pub All-map :
    {A : Type 0} (P Q : A → Type 0) → ((x : A) → P x → Q x) → (xs : List A) → All P xs → All Q xs
All-map P Q f [] h = tt
All-map P Q f (x ∷ xs) (p, h) = (f x p, All-map P Q f xs h)

called-IsSound :
    (i : ℕ) (err : Bool) (c : Closing) (back : Option Bool) (p : Process)
    → IsDrained p
    → IsSound p
    → IsSound (called i err c back p)
unfolding called
called-IsSound i err c (some b) p d h = h
called-IsSound i err c none p d h = record {
  waiting = All-put (IsWaiting p) p.closings i _ (d.0, inr d.1) h.waiting;
  untouched = h.untouched;
  over = h.over;
}

finish-IsSound : (err : Bool) (p : Process) → IsDrained p → IsSound p → IsSound (finish err p)
unfolding finish exit
finish-IsSound true p d h = record { waiting = h.waiting; untouched = h.untouched; over = exit_one }
finish-IsSound false p d h = record { waiting = h.waiting; untouched = h.untouched; over = λ _. d }

closed-IsSound :
    (p : Process) (closed : List Resource)
    → IsDrained p
    → IsSound p
    → IsSound (record p { closed = closed })
closed-IsSound p closed d h = record { waiting = h.waiting; untouched = inr d; over = h.over }

resumed-IsSound :
    (i : ℕ) (c : Closing) (err : Bool) (rest : List Resource) (ok : Bool) (p : Process)
    → IsDrained p
    → IsSound p
    → IsSound (resumed i c err rest ok p)
unfolding resumed
resumed-IsSound i c err [] ok p d h = h
resumed-IsSound i c err (r ∷ rest) false p d h = finish-IsSound err p d h
resumed-IsSound i c err (r ∷ []) true p d h =
    finish-IsSound err _ d (closed-IsSound p (r ∷ p.closed) d h)
resumed-IsSound i c err (r ∷ s ∷ rest) true p d h = record {
  waiting = All-put (IsWaiting p) p.closings i _ (d.0, inr d.1) h.waiting;
  untouched = inr d;
  over = h.over;
}

if_called-IsSound :
    (i : ℕ) (c : Closing) (back : Option Bool) (ok : Bool) (p : Process)
    → c.called_back ≡ back
    → IsWaiting p c
    → IsSound p
    → IsSound (resumed_if_called i c back ok p)
unfolding resumed_if_called
if_called-IsSound i c none ok p e w h = h
if_called-IsSound i c (some err) ok p e (off, inl n) h = ground arith
if_called-IsSound i c (some err) ok p e (off, inr z) h =
    resumed-IsSound i c err c.awaited ok p (off, z) h

ended-IsWaiting : (p : Process) (c : Closing) → IsWaiting p c → IsWaiting (on_ended p) c
unfolding on_ended
ended-IsWaiting p c (off, inl n) = (off, inl n)
ended-IsWaiting p c (off, inr z) = (off, inr (omega (arith, z)))

Step-IsSound : (o : Occurrence) (p q : Process) → Step o p q → Unit {0} → IsSound p → IsSound q
unfolding on_signal on_connected on_ended on_server_closed on_settled on_timeout exit
Step-IsSound _ _ _ (signal p on) _ h = record {
  waiting =
      All-append (IsWaiting (on_signal p)) p.closings _
        (All-map (IsWaiting p) (IsWaiting (on_signal p)) (λ c w. (refl, w.1)) p.closings h.waiting)
        ((refl, inl refl), tt);
  untouched = elim h.untouched [ inl e ↦ inl e | inr d ↦ inr (refl, d.1) ];
  over = λ e. ground arith;
}
Step-IsSound _ _ _ (connect p on listening) _ h = record {
  waiting =
      All-map (IsWaiting p) (IsWaiting (on_connected p)) (λ c w. ground arith) p.closings h.waiting;
  untouched = elim h.untouched [ inl e ↦ inl e | inr d ↦ ground arith ];
  over = λ e. ground arith;
}
Step-IsSound _ _ _ (end p on some_open) _ h = record {
  waiting = All-map (IsWaiting p) (IsWaiting (on_ended p)) (ended-IsWaiting p) p.closings h.waiting;
  untouched = elim h.untouched [ inl e ↦ inl e | inr d ↦ inr (d.0, omega (arith, d.1)) ];
  over = λ e. ground arith;
}
Step-IsSound _ _ _ (server_close p i err on none_open) _ h =
    elim (Option-cases (get_elem? p.closings i)) [
      | inl e ↦ rw (e, on_server_closed) h
      | inr (c, e) ↦
          rw (e, on_server_closed)
            (called-IsSound i err c c.called_back p
              ((All-get (IsWaiting p) p.closings i c e h.waiting).0, none_open) h)
    ]
Step-IsSound _ _ _ (settle p i ok on) _ h = elim (Option-cases (get_elem? p.closings i)) [
  | inl e ↦ rw (e, on_settled) h
  | inr (c, e) ↦
      rw (e, on_settled)
        (if_called-IsSound i c c.called_back ok p refl
          (All-get (IsWaiting p) p.closings i c e h.waiting) h)
]
Step-IsSound _ _ _ (time_out p i c on e due) _ h = record {
  waiting = h.waiting;
  untouched = h.untouched;
  over = exit_one;
}
Step-IsSound _ _ _ (pass p on) _ h = record {
  waiting = h.waiting;
  untouched = h.untouched;
  over = h.over;
}

pub Runs-IsSound :
    (now : ℕ) (os : List Occurrence) (p : Process) → Runs Step os (listening_at now) p → IsSound p
unfolding listening_at
Runs-IsSound now os p r =
    Runs-keep Step IsSound (λ o. Unit {0}) Step-IsSound os (listening_at now) p r (All-Unit os)
      (record { waiting = tt; untouched = inl refl; over = λ e. ground arith })

-- The process exits with the code 0, and closes the queue and its connections to Redis, only when it has
-- stopped listening and every connection of a client has ended.
pub exits_drained :
    (now : ℕ) (os : List Occurrence) (p : Process)
    → Runs Step os (listening_at now) p
    → (p.exit_code ≡ some 0) ⊎ (p.closed ≢ [])
    → (p.is_listening ≡ false) × (p.open_connections ≡ 0)
exits_drained now os p r (inl e) = (Runs-IsSound now os p r).over e
exits_drained now os p r (inr some_closed) = elim (Runs-IsSound now os p r).untouched [
  | inl none_closed ↦ absurd (some_closed none_closed)
  | inr d ↦ d
]
