-- ===== src/Loss.antt =====
-- src/monitor/loss.rs: what one ring did over its accounted span, against what was read of it.
pub mod Account
pub mod Pause
mod Tests
use gc_scope.Base.{ℕ, ◌-◌, Bool, true, false, not, Option, none, some, if◌then◌else◌}
use gc_scope.Base.Int.{
  ℤ, pos, negsuc, ◌+ℤ◌, leb_ℤ, ltb_ℤ, max_ℤ, add_i64, sub_i64, as_i64, i64_half,
}
use gc_scope.Base.Float.{Float64}
use gc_scope.Cursor.Ring.{Lifetime, RingObservation, is_empty}

pub record LossAccount (F : Type 0) : Type 0 where
  pub exact_collections : ℤ
  pub observed_collections : ℤ
  pub lost_collections : ℤ
  pub coverage : F
  pub exact_pause_ns : Option ℤ
  pub measured_pause_ns : Option ℤ
  pub lost_pause_ns : Option ℤ
  pub scale_factor : Option F

-- `i64::saturating_add`.
unfoldable pub saturating_add : ℤ → ℤ → ℤ
saturating_add a b =
    let s = a +ℤ b in
    if leb_ℤ (pos i64_half) s
    then pos (i64_half - 1)
    else if ltb_ℤ s (negsuc (i64_half - 1))
    then negsuc (i64_half - 1)
    else s

-- `i64::from(timed)`.
abbrev pub from_bool : Bool → ℤ
from_bool true = pos 1
from_bool false = pos 0

module _ {F : Type 0} ⦃f : Float64 F⦄ where
  unfoldable pub secs_to_ns : F → ℤ
  secs_to_ns secs = f.to_i64 (f.round (f.mul secs f.giga))

  -- `UNOBSERVED`.
  abbrev pub unobserved : LossAccount F
  unobserved = record {
    exact_collections = pos 0;
    observed_collections = pos 0;
    lost_collections = pos 0;
    coverage = f.one;
    exact_pause_ns = none;
    measured_pause_ns = none;
    lost_pause_ns = none;
    scale_factor = none;
  }

  -- The pause over the span by the target's own total, before it is floored.
  unfoldable pub spanned_pause : RingObservation F → ℤ
  unfolding saturating_add secs_to_ns
  spanned_pause o =
      let delta = f.sub o.last.duration o.first.duration in
      if f.is_finite delta
      then saturating_add (secs_to_ns delta) o.first_pause_ns
      else o.measured_pause_ns

  -- The counts of a span and its Coverage.
  unfoldable pub count_account : RingObservation F → LossAccount F
  count_account o =
      let exact = add_i64 (sub_i64 o.last.collections o.first.collections) (from_bool o.timed) in
      let observed = if o.timed then as_i64 o.sampled else pos 0 in
      let share = if o.timed then f.div (f.of_i64 observed) (f.of_i64 exact) else f.zero in
      record unobserved {
        exact_collections = exact;
        observed_collections = observed;
        lost_collections = sub_i64 exact observed;
        coverage = share;
      }

  -- The pauses of a timed span.
  unfoldable pub price_account : RingObservation F → LossAccount F → LossAccount F
  price_account o a =
      let measured = o.measured_pause_ns in
      let a' = record a { measured_pause_ns = some measured } in
      if o.prices_pause
      then (let exact = max_ℤ (spanned_pause o) measured in
          record a' {
            exact_pause_ns = some exact;
            lost_pause_ns = some (sub_i64 exact measured);
            scale_factor = some (f.div (f.of_i64 exact) (f.of_i64 measured));
          })
      else a'

  unfoldable pub account : RingObservation F → LossAccount F
  unfolding count_account price_account
  account o =
      if is_empty o
      then unobserved
      else if not o.timed
      then count_account o
      else price_account o (count_account o)
