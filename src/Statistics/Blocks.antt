-- ===== src/Statistics/Blocks.antt =====
-- The blocks of a summary hold exactly the rows of the observations, in their order, and no
-- generation twice in one block.
use gc_scope.Base.{
  ◌≢◌, ◌||◌, ℕ, ◌≡◌, refl, ◌∙◌, sym, false, List, [], ◌∷◌, ◌++◌, map, arith, ◌==◌, any, All,
  Bool-cases, inl, inr,
}
use gc_scope.Base.Int.{ℤ, eqb_ℤ_iff}
use gc_scope.Base.Float.{Float64}
use gc_scope.Cursor.Ring.{RingKey, RingObservation}
use gc_scope.Cursor.{Cursor, observations}
use gc_scope.Statistics.{
  GenerationSummary, InterpreterSummary, takes_row, push_row, row_of, summarize_from, summarize,
}
use mathlib.Core.List.{append_assoc, append-nil, map-append}

-- A row with the process and the interpreter of its block.
abbrev pub Row : Type 0 → Type 0
Row F = ℕ × ℤ × GenerationSummary F

module _ {F : Type 0} where
  abbrev rows_of_block : InterpreterSummary F → List (Row F)
  rows_of_block b = map (λ g. (b.pid, b.interpreter, g)) b.generations

  -- The rows of all blocks, first to last.
  abbrev pub rows : List (InterpreterSummary F) → List (Row F)
  rows [] = []
  rows (b ∷ bs) = rows_of_block b ++ rows bs

  abbrev pub Distinct : List (GenerationSummary F) → Type 0
  Distinct [] = Unit
  Distinct (g ∷ gs) =
      (any (λ (h : GenerationSummary F). h.generation == g.generation) gs ≡ false) × Distinct gs

  -- A block has a row, and none of its generations twice.
  abbrev pub IsBlock : InterpreterSummary F → Type 0
  IsBlock b = (b.generations ≢ []) × Distinct b.generations

  rows-push_row :
      (key : RingKey) (g : GenerationSummary F) (bs : List (InterpreterSummary F))
      → rows (push_row key g bs) ≡ rows bs ++ ((key.pid, key.interpreter, g) ∷ [])
  unfolding push_row
  rows-push_row key g [] = refl
  rows-push_row key g (b ∷ []) = elim (Bool-cases (takes_row key g b)) [
    | inl e ↦
        rw e
          (simp (map-append, append-nil) (ground (arith, eqb_ℤ_iff b.interpreter key.interpreter)))
    | inr e ↦ rw e (simp (append-nil))
  ]
  rows-push_row key g (b ∷ c ∷ bs) =
      rw (rows-push_row key g (c ∷ bs)) (sym (append_assoc (rows_of_block b) (rows (c ∷ bs)) _))

  any-snoc :
      (k : ℕ) (gs : List (GenerationSummary F)) (g : GenerationSummary F)
      → any (λ (h : GenerationSummary F). h.generation == k) (gs ++ (g ∷ []))
        ≡ (any (λ (h : GenerationSummary F). h.generation == k) gs || g.generation == k)
  any-snoc k [] g = ground arith
  any-snoc k (h ∷ gs) g = ground (arith, any-snoc k gs g)

  Distinct-snoc :
      (gs : List (GenerationSummary F)) (g : GenerationSummary F)
      → Distinct gs
      → any (λ (h : GenerationSummary F). h.generation == g.generation) gs ≡ false
      → Distinct (gs ++ (g ∷ []))
  Distinct-snoc [] g d n = (refl, tt)
  Distinct-snoc (h ∷ gs) g d n =
      (ground (arith, any-snoc h.generation gs g), Distinct-snoc gs g d.1 (ground arith))

  snoc-ne-nil : (gs : List (GenerationSummary F)) (g : GenerationSummary F) → (gs ++ (g ∷ [])) ≢ []
  snoc-ne-nil [] g e = cc
  snoc-ne-nil (h ∷ gs) g e = cc

  push_row-IsBlock :
      (key : RingKey) (g : GenerationSummary F) (bs : List (InterpreterSummary F))
      → key.generation ≡ g.generation
      → All IsBlock bs
      → All IsBlock (push_row key g bs)
  unfolding push_row
  push_row-IsBlock key g [] own h = ((λ e. cc, (refl, tt)), tt)
  push_row-IsBlock key g (b ∷ []) own h = elim (Bool-cases (takes_row key g b)) [
    | inl e ↦ rw e (
      (
        snoc-ne-nil b.generations g,
        Distinct-snoc b.generations g h.0.1 (rw (← own) (ground arith)),
      ),
      tt,
    )
    | inr e ↦ rw e (h.0, ((λ e. cc, (refl, tt)), tt))
  ]
  push_row-IsBlock key g (b ∷ c ∷ bs) own h = (h.0, push_row-IsBlock key g (c ∷ bs) own h.1)

module _ {F : Type 0} ⦃f : Float64 F⦄ where
  -- The row of an observation, with its process and interpreter.
  abbrev pub row : RingKey × RingObservation F → Row F
  row e = (e.0.pid, e.0.interpreter, row_of e.0 e.1)

  generation-row_of :
      (key : RingKey) (o : RingObservation F) → key.generation ≡ (row_of key o).generation
  unfolding row_of
  generation-row_of key o = refl

  rows-summarize_from :
      (bs : List (InterpreterSummary F)) (os : List (RingKey × RingObservation F))
      → rows (summarize_from bs os) ≡ rows bs ++ map row os
  unfolding summarize_from
  rows-summarize_from bs [] = sym (append-nil (rows bs))
  rows-summarize_from bs ((key, o) ∷ os) =
      rows-summarize_from (push_row key (row_of key o) bs) os
      ∙ rw (rows-push_row key (row_of key o) bs) (append_assoc (rows bs) _ _)

  summarize_from-IsBlock :
      (bs : List (InterpreterSummary F)) (os : List (RingKey × RingObservation F))
      → All IsBlock bs
      → All IsBlock (summarize_from bs os)
  unfolding summarize_from
  summarize_from-IsBlock bs [] h = h
  summarize_from-IsBlock bs ((key, o) ∷ os) h =
      summarize_from-IsBlock (push_row key (row_of key o) bs) os
        (push_row-IsBlock key (row_of key o) bs (generation-row_of key o) h)

  -- The summary's rows, block by block, are exactly the rows of the cursor's observations in their
  -- order, each under its own process and interpreter; every block has a row, and no generation
  -- appears twice in one.
  pub summarize-rows :
      (c : Cursor F) → (rows (summarize c) ≡ map row (observations c)) × All IsBlock (summarize c)
  unfolding summarize
  summarize-rows c =
      (rows-summarize_from [] (observations c), summarize_from-IsBlock [] (observations c) tt)
