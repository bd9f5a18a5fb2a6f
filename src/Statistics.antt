-- ===== src/Statistics.antt =====
-- src/monitor/statistics.rs: the end-of-run summary, one block per interpreter and one row per
-- generation, folded from the cursor's observations.
pub mod Blocks
pub mod Rows
mod Tests
use gc_scope.Base.{
  ℕ, Bool, true, false, not, ◌&&◌, Option, none, some, List, [], ◌∷◌, ◌++◌, ◌==◌, if◌then◌else◌,
  any, is_some,
}
use gc_scope.Base.Int.{ℤ, pos, sub_i64, eqb_ℤ, ltb_ℤ}
use gc_scope.Base.Float.{Float64}
use gc_scope.Cursor.Ring.{RingKey, RingObservation}
use gc_scope.Cursor.{Cursor, observations}
use gc_scope.Loss.{account}

pub record GenerationSummary (F : Type 0) : Type 0 where
  pub generation : ℕ
  pub collections : ℤ
  pub collected : ℤ
  pub uncollectable : ℤ
  pub records : ℕ
  pub observed : ℤ
  pub lost : ℤ
  pub coverage : F
  pub pause_total_ns : Option ℤ
  pub pause_measured_ns : Option ℤ
  pub scale_factor : Option F

pub record InterpreterSummary (F : Type 0) : Type 0 where
  pub pid : ℕ
  pub interpreter : ℤ
  pub generations : List (GenerationSummary F)

module _ {F : Type 0} where
  unfoldable pub has_timing : InterpreterSummary F → Bool
  has_timing b = any (λ (g : GenerationSummary F). is_some g.pause_measured_ns) b.generations

  -- The guard of the arm that extends the last block.
  abbrev pub takes_row : RingKey → GenerationSummary F → InterpreterSummary F → Bool
  takes_row key g b =
      b.pid == key.pid
      && (eqb_ℤ b.interpreter key.interpreter
          && not (any (λ (h : GenerationSummary F). h.generation == key.generation) b.generations))

  abbrev pub new_block : RingKey → GenerationSummary F → InterpreterSummary F
  new_block key g = record { pid = key.pid; interpreter = key.interpreter; generations = g ∷ [] }

  -- `match blocks.last_mut()`.
  unfoldable pub push_row :
      RingKey → GenerationSummary F → List (InterpreterSummary F) → List (InterpreterSummary F)
  push_row key g [] = new_block key g ∷ []
  push_row key g (b ∷ []) =
      if takes_row key g b
      then record b { generations = b.generations ++ (g ∷ []) } ∷ []
      else b ∷ new_block key g ∷ []
  push_row key g (b ∷ c ∷ bs) = b ∷ push_row key g (c ∷ bs)

module _ {F : Type 0} ⦃f : Float64 F⦄ where
  unfoldable pub pause_mean_ns : GenerationSummary F → Option F
  pause_mean_ns g = elim g.pause_total_ns [
    | none ↦ none
    | some total ↦
        if ltb_ℤ (pos 0) g.collections
        then some (f.div (f.of_i64 total) (f.of_i64 g.collections))
        else none
  ]

  -- The row of one ring.
  unfoldable pub row_of : RingKey → RingObservation F → GenerationSummary F
  unfolding account
  row_of key o =
      let a = account o in
      record {
        generation = key.generation;
        collections = a.exact_collections;
        collected = sub_i64 o.last.collected o.first.collected;
        uncollectable = sub_i64 o.last.uncollectable o.first.uncollectable;
        records = o.sampled;
        observed = a.observed_collections;
        lost = a.lost_collections;
        coverage = a.coverage;
        pause_total_ns = a.exact_pause_ns;
        pause_measured_ns = a.measured_pause_ns;
        scale_factor = a.scale_factor;
      }

  unfoldable pub summarize_from :
      List (InterpreterSummary F) → List (RingKey × RingObservation F) → List (InterpreterSummary F)
  unfolding push_row row_of
  summarize_from blocks [] = blocks
  summarize_from blocks ((key, o) ∷ rest) = summarize_from (push_row key (row_of key o) blocks) rest

  unfoldable pub summarize : Cursor F → List (InterpreterSummary F)
  unfolding summarize_from
  summarize c = summarize_from [] (observations c)
