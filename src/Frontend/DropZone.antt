-- ===== src/Frontend/DropZone.antt =====
-- frontend/src/components/DropZone.tsx: how deep the pointer is in the drop target, whether it is
-- highlighted, and which files are handed on. The depth never falls below zero.
use file_forge.Base.{
  ℕ, suc, ◌+◌, ◌-◌, ◌<◌, ◌≡◌, refl, ◌∙◌, ap, Bool, true, false, List, [], ◌∷◌, ◌++◌, leb,
  if◌then◌else◌, arith,
}

pub record Zone (File : Type 0) : Type 0 where
  pub is_dragging : Bool
  pub depth : ℕ
  pub handed : List File  -- what onFile was called with, the last one first

pub data Gesture (File : Type 0) : Type 0 where
  drag_enter drag_leave drag_over : Gesture File
  dropped : Bool → List File → Gesture File  -- `disabled` at that time, and the files
  chosen : List File → Gesture File

module _ {File : Type 0} where
  pub at_start : Zone File
  at_start = record { is_dragging = false; depth = 0; handed = [] }

  hand_first : List File → List File → List File
  hand_first [] handed = handed
  hand_first (file ∷ files) handed = file ∷ handed

  -- A depth of at most zero is set to zero.
  leave : Zone File → Zone File
  leave z =
      if leb z.depth 1
      then record z { depth = 0; is_dragging = false }
      else record z { depth = z.depth - 1 }

  pub handle : Gesture File → Zone File → Zone File
  unfolding leave hand_first
  handle drag_enter z = record z { depth = z.depth + 1; is_dragging = true }
  handle drag_leave z = leave z
  handle drag_over z = z
  handle (dropped disabled files) z = record {
    is_dragging = false;
    depth = 0;
    handed = if disabled then z.handed else hand_first files z.handed;
  }
  handle (chosen files) z = record z { handed = hand_first files z.handed }

  pub run : List (Gesture File) → Zone File → Zone File
  unfolding handle
  run [] z = z
  run (g ∷ gs) z = run gs (handle g z)

  -- Highlighted exactly when the pointer is in the target or in something in it.
  abbrev pub IsTrue : Zone File → Type 0
  IsTrue z = (0 < z.depth → z.is_dragging ≡ true) × (z.depth ≡ 0 → z.is_dragging ≡ false)

  handle-IsTrue : (g : Gesture File) (z : Zone File) → IsTrue z → IsTrue (handle g z)
  unfolding handle leave
  handle-IsTrue drag_enter z h = ((λ d. refl), λ e. absurd (omega arith))
  handle-IsTrue drag_leave z h = ground (arith, h)
  handle-IsTrue drag_over z h = h
  handle-IsTrue (dropped disabled files) z h = ((λ d. absurd (omega arith)), λ e. refl)
  handle-IsTrue (chosen files) z h = h

  pub run-IsTrue : (gs : List (Gesture File)) (z : Zone File) → IsTrue z → IsTrue (run gs z)
  unfolding run
  run-IsTrue [] z h = h
  run-IsTrue (g ∷ gs) z h = run-IsTrue gs (handle g z) (handle-IsTrue g z h)

  -- What the pointer does between entering the target and leaving it: it enters parts of the target
  -- and leaves them again.
  pub data IsNested : List (Gesture File) → Type 0 where
    nothing : IsNested []
    hovers : {gs : List (Gesture File)} → IsNested gs → IsNested (drag_over ∷ gs)
    crosses :
        {gs hs : List (Gesture File)}
        → IsNested gs
        → IsNested hs
        → IsNested (drag_enter ∷ (gs ++ (drag_leave ∷ hs)))

  run-append : (gs hs : List (Gesture File)) (z : Zone File) → run (gs ++ hs) z ≡ run hs (run gs z)
  unfolding run
  run-append [] hs z = refl
  run-append (g ∷ gs) hs z = run-append gs hs (handle g z)

  abbrev pub lit : ℕ → List File → Zone File
  lit n files = record { is_dragging = true; depth = suc n; handed = files }

  enter_lit : (n : ℕ) (files : List File) → handle drag_enter (lit n files) ≡ lit (suc n) files
  unfolding handle
  enter_lit n files = ground arith

  leave_lit : (n : ℕ) (files : List File) → handle drag_leave (lit (suc n) files) ≡ lit n files
  unfolding handle leave
  leave_lit n files = ground arith

  run-nested :
      {gs : List (Gesture File)} (n : ℕ) (files : List File)
      → IsNested gs
      → run gs (lit n files) ≡ lit n files
  unfolding run handle
  run-nested n files nothing = refl
  run-nested n files (hovers g) = run-nested n files g
  run-nested n files (crosses {gs} {hs} g h) =
      ap (λ z. run (gs ++ (drag_leave ∷ hs)) z) (enter_lit n files)
      ∙ run-append gs (drag_leave ∷ hs) (lit (suc n) files)
      ∙ ap (λ z. run hs (handle drag_leave z)) (run-nested (suc n) files g)
      ∙ ap (λ z. run hs z) (leave_lit n files)
      ∙ run-nested n files h

  -- From a target that the pointer is not in: however often it crosses parts of the target on its
  -- way, the target is highlighted until it leaves, and is then as it was.
  pub nested_drag :
      (gs : List (Gesture File)) (files : List File)
      → IsNested gs
      → let outside : Zone File = record { is_dragging = false; depth = 0; handed = files } in
        (run (drag_enter ∷ gs) outside ≡ lit 0 files)
        × (run (drag_enter ∷ (gs ++ (drag_leave ∷ []))) outside ≡ outside)
  unfolding run handle leave
  nested_drag gs files g = (
    run-nested 0 files g,
    run-append gs (drag_leave ∷ []) (lit 0 files)
        ∙ ap (λ z. handle drag_leave z) (run-nested 0 files g),
  )
