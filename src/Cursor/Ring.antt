-- ===== src/Cursor/Ring.antt =====
-- src/monitor/cursor.rs: the key of a ring, the cumulative totals of a generation, and one ring's
-- accumulator, `RingObservation`.
use gc_scope.Base.{ℕ, ◌≡◌, ◌↔◌, Bool, true, false, ◌&&◌, ◌||◌, arith, ltb, if◌then◌else◌, ◌==◌}
use gc_scope.Base.Int.{ℤ, pos, max_ℤ, sub_i64, add_i64, ltb_ℤ, eqb_ℤ, eqb_ℤ_iff}
use gc_scope.Base.Word.{succ_u64}
use gc_scope.Base.Eq.{Eq}
use gc_scope.Base.Float.{Float64}
use gc_scope.GcStats.{
  GcStat, collections, collected, uncollectable, duration, ts_start, ts_stop, has_timing, has,
}

pub record RingKey : Type 0 where
  pub pid : ℕ
  pub interpreter : ℤ
  pub generation : ℕ

abbrev pub key_beq : RingKey → RingKey → Bool
key_beq a b = a.pid == b.pid && (eqb_ℤ a.interpreter b.interpreter && a.generation == b.generation)

pub key_beq_iff : (a b : RingKey) → (key_beq a b ≡ true) ↔ (a ≡ b)
key_beq_iff a b = (
  λ h. ground (arith, eqb_ℤ_iff a.interpreter b.interpreter),
  λ h. ground (arith, eqb_ℤ_iff a.interpreter b.interpreter),
)

instance abbrev pub key_eq : Eq RingKey
key_eq = record { beq = key_beq; beq_iff = key_beq_iff }

-- The derived order of the fields, first to last.
unfoldable pub key_lt : RingKey → RingKey → Bool
key_lt a b =
    if ltb a.pid b.pid
    then true
    else if a.pid == b.pid
    then (if ltb_ℤ a.interpreter b.interpreter
        then true
        else if eqb_ℤ a.interpreter b.interpreter
        then ltb a.generation b.generation
        else false)
    else false

module _ (F : Type 0) where
  pub record Lifetime : Type 0 where
    pub collections : ℤ
    pub collected : ℤ
    pub uncollectable : ℤ
    pub duration : F

  pub record RingObservation : Type 0 where
    pub first : Lifetime
    pub first_pause_ns : ℤ
    pub last : Lifetime
    pub sampled : ℕ
    pub measured_pause_ns : ℤ
    pub timed : Bool
    pub prices_pause : Bool

-- One Record's own pause, floored at zero.
unfoldable pub pause_ns : GcStat → ℤ
pause_ns r = max_ℤ (sub_i64 (ts_stop r) (ts_start r)) (pos 0)

module _ {F : Type 0} where
  unfoldable pub is_empty : RingObservation F → Bool
  is_empty o = o.sampled == 0

  -- Whether `counter` is past this ring's cursor.
  unfoldable pub admits : RingObservation F → ℤ → Bool
  unfolding is_empty
  admits o counter = is_empty o || ltb_ℤ o.last.collections counter

module _ {F : Type 0} ⦃f : Float64 F⦄ where
  -- `Lifetime::of`.
  unfoldable pub lifetime_of : GcStat → Lifetime F
  lifetime_of r = record {
    collections = collections r;
    collected = collected r;
    uncollectable = uncollectable r;
    duration = duration r;
  }

  abbrev pub lifetime_default : Lifetime F
  lifetime_default = record {
    collections = pos 0;
    collected = pos 0;
    uncollectable = pos 0;
    duration = f.zero;
  }

  abbrev pub observation_default : RingObservation F
  observation_default = record {
    first = lifetime_default;
    first_pause_ns = pos 0;
    last = lifetime_default;
    sampled = 0;
    measured_pause_ns = pos 0;
    timed = false;
    prices_pause = false;
  }

  abbrev opened : RingObservation F → GcStat → RingObservation F
  opened o r = record o {
    first = lifetime_of r;
    first_pause_ns = pause_ns r;
    timed = has_timing r;
    prices_pause = has r "duration";
  }

  unfoldable pub fold : RingObservation F → GcStat → RingObservation F
  unfolding is_empty lifetime_of
  fold o r =
      let o' = if is_empty o then opened o r else o in
      record o' {
        last = lifetime_of r;
        sampled = succ_u64 o'.sampled;
        measured_pause_ns = add_i64 o'.measured_pause_ns (pause_ns r);
      }
