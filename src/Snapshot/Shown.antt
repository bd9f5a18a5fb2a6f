-- ===== src/Snapshot/Shown.antt =====
-- The entries of a snapshot against the bytes that they are decoded from, and the window of a figure.
use gc_scope.Base.{
  ℕ, zero, suc, Bool-cases, inl, inr, ◌⊎◌, false, [], ◌∷◌, String, arith, ◌+◌, ◌*◌, ◌≤◌, ◌<◌, ◌≡◌,
  refl, ap, true, some, List, ◌++◌, map, keep, ◌>>=◌, length, take, drop, unwrap_or, All,
  All-append,
}
use gc_scope.Base.Int.{ℤ, pos, ◌≤ℤ◌, ◌<ℤ◌}
use gc_scope.Base.Float.{Float64}
use gc_scope.GcStats.{
  GcStat, GcItemLayout, is_complete, has, has_timing, get, get_f64, ts_start, ts_stop, collections,
  collected, uncollectable, candidates, duration, heap_size,
}
use gc_scope.OffsetTable.{
  OffsetTable, PerGen, Decoding, entry_at, decode_gc_stats, entry_byte_offset,
}
use gc_scope.OffsetTable.Regions.{Contained}
use gc_scope.OffsetTable.Decode.{described, described_all, decode_gc_stats_described}
use gc_scope.Snapshot.{GcEntry, entry_of, parse_gc_entries}

-- A stat is cut out of the bytes at the offset of its entry.
abbrev pub IsCut : OffsetTable → ℕ → List ℕ → GcStat → Type 0
IsCut t item raw s =
    s.bytes ≡ take item (drop (unwrap_or (entry_byte_offset t s.generation s.index) 0) raw)

described-IsCut :
    (t : OffsetTable) (d : Decoding) (g index n : ℕ)
    → All (IsCut t d.item_size d.raw) (described t d g index n)
unfolding described entry_at
described-IsCut t d g index zero = tt
described-IsCut t d g index (suc n) = (refl, described-IsCut t d g (suc index) n)

described_all-IsCut :
    (t : OffsetTable) (d : Decoding) (entries : PerGen)
    → All (IsCut t d.item_size d.raw) (described_all t d entries)
unfolding described_all
described_all-IsCut t d entries =
    let P = IsCut t d.item_size d.raw in
    let old0 = described t d 1 0 entries.old0 in
    let old1 = described t d 2 0 entries.old1 in
    All-append P (described t d 0 0 entries.young) (old0 ++ old1)
      (described-IsCut t d 0 0 entries.young)
      (All-append P old0 old1 (described-IsCut t d 1 0 entries.old0)
        (described-IsCut t d 2 0 entries.old1))

-- A field of a stat by its name, 0 where the layout or the bytes have none.
abbrev pub field : GcStat → String → ℤ
field s name = unwrap_or (get s name) (pos 0)

-- A stat is of a collection that has ended, or its build publishes no times.
abbrev pub IsFinished : GcStat → Type 0
IsFinished s =
    (has s "ts_start" ≡ false)
    ⊎ (has s "ts_stop" ≡ false)
    ⊎ (field s "ts_start" <ℤ field s "ts_stop")

-- A stat is of a collection that has not ended, or is torn.
abbrev pub IsUnfinished : GcStat → Type 0
IsUnfinished s =
    (has s "ts_start" ≡ true) × (has s "ts_stop" ≡ true) × (field s "ts_stop" ≤ℤ field s "ts_start")

is_complete-IsFinished : (s : GcStat) → is_complete s ≡ true → IsFinished s
unfolding is_complete has_timing ts_start ts_stop
is_complete-IsFinished s h = elim (Bool-cases (has s "ts_start")) [
  | inr no_start ↦ inl no_start
  | inl start ↦ elim (Bool-cases (has s "ts_stop")) [
    | inr no_stop ↦ inr (inl no_stop)
    | inl stop ↦ inr (inr (ground (arith, h, start, stop)))
  ]
]

is_complete-IsUnfinished : (s : GcStat) → is_complete s ≡ false → IsUnfinished s
unfolding is_complete has_timing ts_start ts_stop
is_complete-IsUnfinished s h = elim (Bool-cases (has s "ts_start")) [
  | inr no_start ↦ absurd (ground (arith, h, no_start))
  | inl start ↦ elim (Bool-cases (has s "ts_stop")) [
    | inr no_stop ↦ absurd (ground (arith, h, start, no_stop))
    | inl stop ↦ (start, stop, ground (arith, h, start, stop))
  ]
]

module _ (F : Type 0) ⦃f : Float64 F⦄ where
  -- An entry shows a stat: each of its fields is the stat's field of that name, and the stat's bytes
  -- are those at its `byte_offset`.
  pub record IsShown (item : ℕ) (raw : List ℕ) (s : GcStat) (e : GcEntry F) : Type 0 where
    pub generation : e.generation ≡ s.generation
    pub index : e.index ≡ s.index
    pub bytes : s.bytes ≡ take item (drop e.byte_offset raw)
    pub start_ts : e.start_ts ≡ field s "ts_start"
    pub stop_ts : e.stop_ts ≡ field s "ts_stop"
    pub collections : e.collections ≡ field s "collections"
    pub collected : e.collected ≡ field s "collected"
    pub uncollectable : e.uncollectable ≡ field s "uncollectable"
    pub candidates : e.candidates ≡ field s "candidates"
    pub duration : e.duration ≡ unwrap_or (get_f64 s "duration") f.zero
    pub heap_size : e.heap_size ≡ field s "heap_size"

  -- Every finished stat is shown, in the order of the stats, and no other.
  pub data AllShown (item : ℕ) (raw : List ℕ) : List GcStat → List (GcEntry F) → Type 0 where
    no_stats : AllShown item raw [] []
    finished :
        {s : GcStat} {e : GcEntry F} {ss : List GcStat} {es : List (GcEntry F)}
        → IsFinished s
        → IsShown item raw s e
        → AllShown item raw ss es
        → AllShown item raw (s ∷ ss) (e ∷ es)
    unfinished :
        {s : GcStat} {ss : List GcStat} {es : List (GcEntry F)}
        → IsUnfinished s
        → AllShown item raw ss es
        → AllShown item raw (s ∷ ss) es

  entry_of-IsShown :
      (t : OffsetTable) (item : ℕ) (raw : List ℕ) (s : GcStat)
      → IsCut t item raw s
      → IsShown item raw s (entry_of t s)
  unfolding entry_of ts_start ts_stop collections collected uncollectable candidates duration
      heap_size
  entry_of-IsShown t item raw s cut = record {
    generation = refl;
    index = refl;
    bytes = cut;
    start_ts = refl;
    stop_ts = refl;
    collections = refl;
    collected = refl;
    uncollectable = refl;
    candidates = refl;
    duration = refl;
    heap_size = refl;
  }

  keep-AllShown :
      (t : OffsetTable) (item : ℕ) (raw : List ℕ) (stats : List GcStat)
      → All (IsCut t item raw) stats
      → AllShown item raw stats (map (entry_of t) (keep is_complete stats))
  keep-AllShown t item raw [] cut = no_stats
  keep-AllShown t item raw (s ∷ ss) (here, cut) =
      let rest = keep-AllShown t item raw ss cut in
      elim (Bool-cases (is_complete s)) [
        | inl whole ↦
            rw (whole, keep)
              (finished (is_complete-IsFinished s whole) (entry_of-IsShown t item raw s here) rest)
        | inr torn ↦ rw (torn, keep) (unfinished (is_complete-IsUnfinished s torn) rest)
      ]

  -- A region that was read whole is parsed without a panic. The stats of all its entries, in order,
  -- are shown where they are of a collection that has ended or of a build that does not have both
  -- times, and no other is; what is shown has the stat's fields, each by its name, and the offset
  -- of its bytes. The entry size is positive and the region fits a word.
  pub parse_gc_entries-AllShown :
      (t : OffsetTable) (raw : List ℕ) (item : ℕ) (entries bases : PerGen) (layout : GcItemLayout)
      → t.gc_item_size ≡ some item
      → t.gc_entries_per_gen ≡ some entries
      → t.gc_gen_base_offsets ≡ some bases
      → t.gc_layout ≡ some layout
      → 0 < item
      → Contained item entries bases
      → bases.old1 + entries.old1 * item ≤ length raw
      → (stats : List GcStat) × (shown : List (GcEntry F)) × (length stats
          ≡ entries.young + entries.old0 + entries.old1)
        × (decode_gc_stats t raw (pos 0) ≡ some stats)
        × (parse_gc_entries raw t ≡ some shown)
        × AllShown item raw stats shown
  unfolding parse_gc_entries
  parse_gc_entries-AllShown t raw item entries bases layout hi he hb hl positive c long =
      let d : Decoding = record { raw = raw; iid = pos 0; item_size = item; layout = layout } in
      let stats = described_all t d entries in
      let (is, _, len) =
        decode_gc_stats_described t raw (pos 0) item entries bases layout hi he hb hl positive c
          long in
      (
        stats,
        map (entry_of t) (keep is_complete stats),
        len,
        is,
        ap (λ o. o >>= λ stats. some (map (entry_of t) (keep is_complete stats))) is,
        keep-AllShown t item raw stats (described_all-IsCut t d entries),
      )
