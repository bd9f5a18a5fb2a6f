-- ===== src/Snapshot.antt =====
-- src/snapshot/collect.rs: the view of a region's entries and the figures of one snapshot. `none` of a
-- decoder is a panic.
pub mod Shown
pub mod Window
mod Tests
use gc_scope.Base.{
  ℕ, suc, Bool, true, false, not, ◌&&◌, Option, none, some, List, [], ◌∷◌, map, keep, ◌==◌, ltb,
  if◌then◌else◌, unwrap_or, ◌>>=◌,
}
use gc_scope.Base.Int.{ℤ, pos, ltb_ℤ, eqb_ℤ, sub_i64}
use gc_scope.Base.Float.{Float64}
use gc_scope.GcStats.{
  GcStat, GcItemLayout, has_field, is_complete, ts_start, ts_stop, collections, collected,
  uncollectable, candidates, heap_size, duration,
}
use gc_scope.Memory.{Machine, read_memory_h}
use gc_scope.OffsetTable.{
  OffsetTable, PerGen, GcStatsKind, no_stats, inline_array, ring_buffer, entry_byte_offset,
  stats_buffer_len, decode_gc_stats,
}
use gc_scope.Registry.{Outcome, failed, panic, done}
use gc_scope.Registry.Tables.{VersionedOffsets}
use gc_scope.Session.Defs.{PySession, offsets, or_fail}
use gc_scope.Session.Reads.{gc_stats_region_addr}

pub record GcEntry (F : Type 0) : Type 0 where
  pub generation : ℕ
  pub index : ℕ
  pub byte_offset : ℕ
  pub start_ts : ℤ
  pub stop_ts : ℤ
  pub collections : ℤ
  pub collected : ℤ
  pub uncollectable : ℤ
  pub candidates : ℤ
  pub duration : F
  pub heap_size : ℤ

pub record GcStatsSnapshot (F : Type 0) : Type 0 where
  pub stats_addr : ℕ
  pub stats_size : ℕ
  pub item_size : ℕ
  pub entries_per_gen : PerGen
  pub has_timestamps : Bool
  pub has_duration : Bool
  pub raw_stats_bytes : List ℕ
  pub entries : List (GcEntry F)

module _ {F : Type 0} ⦃f : Float64 F⦄ where
  unfoldable pub entry_of : OffsetTable → GcStat → GcEntry F
  entry_of table s = record {
    generation = s.generation;
    index = s.index;
    byte_offset = unwrap_or (entry_byte_offset table s.generation s.index) 0;
    start_ts = ts_start s;
    stop_ts = ts_stop s;
    collections = collections s;
    collected = collected s;
    uncollectable = uncollectable s;
    candidates = candidates s;
    duration = duration s;
    heap_size = heap_size s;
  }

  unfoldable pub parse_gc_entries : List ℕ → OffsetTable → Option (List (GcEntry F))
  unfolding entry_of
  parse_gc_entries raw table = do
    stats ← decode_gc_stats table raw (pos 0)
    some (map (entry_of table) (keep is_complete stats))

-- `min_by_key`, which keeps the first of equal ones, and `max_by_key`, which keeps the last.
unfoldable pub min_by_key : {A : Type 0} → (A → ℤ) → A → List A → A
min_by_key key best [] = best
min_by_key key best (x ∷ xs) = min_by_key key (if ltb_ℤ (key x) (key best) then x else best) xs

unfoldable pub max_by_key : {A : Type 0} → (A → ℤ) → A → List A → A
max_by_key key best [] = best
max_by_key key best (x ∷ xs) = max_by_key key (if ltb_ℤ (key x) (key best) then best else x) xs

-- A figure of each generation.
pub record Figures (F : Type 0) : Type 0 where
  pub young : Option F
  pub old0 : Option F
  pub old1 : Option F

module _ {F : Type 0} where
  -- One bucket of `entries_by_generation`.
  unfoldable pub bucket : ℕ → List (GcEntry F) → List (GcEntry F)
  bucket g [] = []
  bucket g (e ∷ es) =
      let rest = bucket g es in
      if eqb_ℤ e.collections (pos 0) then rest else if e.generation == g then e ∷ rest else rest

  -- Each generation's figure, of its bucket.
  unfoldable pub figures : (List (GcEntry F) → F) → Bool → List (GcEntry F) → Figures F
  unfolding bucket
  figures figure has entries =
      if has
      then record {
        young = some (figure (bucket 0 entries));
        old0 = some (figure (bucket 1 entries));
        old1 = some (figure (bucket 2 entries));
      }
      else record { young = none; old0 = none; old1 = none }

module _ {F : Type 0} ⦃f : Float64 F⦄ where
  -- The body of the loop of `avg_collection_time_per_gen`.
  unfoldable pub avg_of : List (GcEntry F) → F
  unfolding min_by_key max_by_key
  avg_of (e ∷ e' ∷ es) =
      let least = min_by_key (λ (s : GcEntry F). s.collections) e (e' ∷ es) in
      let most = max_by_key (λ (s : GcEntry F). s.collections) e (e' ∷ es) in
      let coll_delta = sub_i64 most.collections least.collections in
      let dur_delta = f.sub most.duration least.duration in
      if ltb_ℤ (pos 0) coll_delta then f.div dur_delta (f.of_i64 coll_delta) else f.zero
  avg_of _ = f.zero

  unfoldable pub avg_collection_time_per_gen : List (GcEntry F) → Bool → Figures F
  unfolding figures avg_of
  avg_collection_time_per_gen entries has_duration = figures avg_of has_duration entries

  -- The body of the loop of `collections_rate_from_entries`.
  unfoldable pub rate_of : List (GcEntry F) → F
  unfolding min_by_key max_by_key
  rate_of (e ∷ e' ∷ es) =
      let least = min_by_key (λ (s : GcEntry F). s.collections) e (e' ∷ es) in
      let most = max_by_key (λ (s : GcEntry F). s.collections) e (e' ∷ es) in
      let first = min_by_key (λ (s : GcEntry F). s.start_ts) e (e' ∷ es) in
      let last = max_by_key (λ (s : GcEntry F). s.stop_ts) e (e' ∷ es) in
      let coll_delta = sub_i64 most.collections least.collections in
      let ts_delta_ns = sub_i64 last.stop_ts first.start_ts in
      if ltb_ℤ (pos 0) ts_delta_ns && ltb_ℤ (pos 0) coll_delta
      then f.div (f.of_i64 coll_delta) (f.div (f.of_i64 ts_delta_ns) f.giga)
      else f.zero
  rate_of _ = f.zero

  unfoldable pub collections_rate_from_entries : List (GcEntry F) → Bool → Figures F
  unfolding figures rate_of
  collections_rate_from_entries entries has_timestamps = figures rate_of has_timestamps entries

-- How many bytes the region spans.
unfoldable pub stats_total_of : OffsetTable → Option VersionedOffsets → ℕ
stats_total_of table off = elim table.gc_stats_kind [
  | no_stats ↦ 0
  | inline_array ↦ unwrap_or (stats_buffer_len table) 0
  | ring_buffer ↦ unwrap_or (off >>= λ (o : VersionedOffsets). some o.gc_generation_stats_size) 0
]

-- Whether the layout has timestamps, and whether it has durations.
unfoldable pub presence : Option GcItemLayout → Bool × Bool
presence none = (false, false)
presence (some l) = (has_field l "ts_start" && has_field l "ts_stop", has_field l "duration")

module _ {F : Type 0} ⦃f : Float64 F⦄ {H : Type 0} (m : Machine H) where
  -- The bytes and the entries, which are read together.
  unfoldable pub read_entries :
      PySession H → OffsetTable → ℕ → ℕ → Bool → Outcome (List ℕ × List (GcEntry F))
  unfolding parse_gc_entries
  read_entries s table stats_addr stats_total collect =
      if collect && not (stats_addr == 0) && ltb 0 stats_total
      then or_fail (read_memory_h m s.handle stats_addr stats_total) (λ raw.
        elim (parse_gc_entries raw table) [ none ↦ panic | some entries ↦ done (raw, entries) ])
      else done ([], [])

  unfoldable pub collect_gc_stats :
      PySession H → OffsetTable → Option VersionedOffsets → ℕ → Bool → Outcome (GcStatsSnapshot F)
  unfolding stats_total_of presence read_entries
  collect_gc_stats s table off gc_addr collect =
      or_fail (gc_stats_region_addr m s gc_addr) (λ region.
        let stats_addr = unwrap_or region 0 in
        let stats_total = stats_total_of table off in
        elim (read_entries s table stats_addr stats_total collect) [
          | failed ↦ failed
          | panic ↦ panic
          | done (raw, entries) ↦ done (record {
            stats_addr = stats_addr;
            stats_size = stats_total;
            item_size = unwrap_or table.gc_item_size 0;
            entries_per_gen =
                unwrap_or table.gc_entries_per_gen (record { young = 0; old0 = 0; old1 = 0 });
            has_timestamps = (presence table.gc_layout).0;
            has_duration = (presence table.gc_layout).1;
            raw_stats_bytes = raw;
            entries = entries;
          })
        ])
