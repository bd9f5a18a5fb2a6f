-- ===== src/Exporters/Tests.antt =====
-- A trace file of two polls, whose second names nothing again.
use gc_scope.Base.{ℕ, ◌≡◌, ◌<◌, refl, true, some, List, [], ◌∷◌, map, All, arith}
use gc_scope.Base.Int.{ℤ, pos, negsuc, ◌≤ℤ◌, wrap_i64, InI64-wrap_i64}
use gc_scope.Base.Text.{codes, decimal, decimal_int}
use gc_scope.Convert.{TraceEvent, process_meta, instant}
use gc_scope.Exporters.Timing.{IsTruncated, ts_us_truncates}
use gc_scope.Exporters.{ts_us, new_exporter, open_file, add_events, encode, close}
use gc_scope.Exporters.Converted.{IsOfTrack}
use gc_scope.Exporters.Run.{Reported, IsSpelledPoll, converted, converted-IsJson}
use gc_scope.Exporters.Json.{is_number, IsJson, decimal_int-is_number}
use gc_scope.Exporters.Metadata.{firsts}
use gc_scope.Exporters.Stream.{flat, document, add_batches, close-firsts}
use gc_scope.Fixtures.{ticks, poll, ring_stat}
use gc_scope.GcStats.{duration}

abbrev display : ℤ → List ℕ
display x = decimal_int (wrap_i64 x)

displays : (x : ℤ) → ticks.is_finite x ≡ true → is_number (display x) ≡ true
displays x finite = decimal_int-is_number (wrap_i64 x) (InI64-wrap_i64 x)

abbrev polls : List Reported
polls = (7, pos 5, poll) ∷ (7, pos 9, poll) ∷ []

fits : (g c a b d : ℕ) → g < 3 → IsOfTrack 7 (ring_stat (pos 0) g c a b d)
fits g c a b d h = record { is_pid = omega arith; is_iid = (omega arith, omega arith); is_gen = h }

spelled_poll : All (λ r. IsOfTrack 7 r × (ticks.is_finite (duration r) ≡ true)) poll
spelled_poll = (
  (fits 0 11 2000 2600 1000 (omega arith), refl),
  (
    (fits 0 10 1000 1400 400 (omega arith), refl),
    ((fits 0 12 3000 0 0 (omega arith), refl), ((fits 1 2 500 700 200 (omega arith), refl), tt)),
  ),
)

spelled : All (IsSpelledPoll ℤ) polls
spelled =
    (((omega arith, omega arith), spelled_poll), (((omega arith, omega arith), spelled_poll), tt))

converted-IsJson_example :
    (text : List ℕ) × ((close
        (add_batches display (map (converted ℤ) polls) (open_file new_exporter))).0
      ≡ some text)
    × IsJson text
converted-IsJson_example = converted-IsJson ℤ display displays polls new_exporter spelled

abbrev batches : List (List (TraceEvent ℤ))
batches =
    (process_meta 7 (codes "a") ∷ instant 7 (pos 1500) (codes "b") ∷ [])
    ∷ (process_meta 7 (codes "c") ∷ [])
    ∷ []

written :
    (close (add_batches display batches (open_file new_exporter))).0
    ≡ some (
        codes
          "[\n{\"ph\":\"M\",\"pid\":7,\"name\":\"process_name\",\"args\":{\"name\":\"a\"}},\n{\"name\":\"b\",\"ph\":\"I\",\"s\":\"p\",\"ts\":1,\"pid\":7}\n]")
unfolding close add_events open_file encode decimal decimal_int
written = refl

close-firsts_example :
    (close (add_batches display batches (open_file new_exporter))).0
    ≡ some (document display (firsts [] (flat batches)))
close-firsts_example = close-firsts display batches new_exporter

ts_us_truncates_example :
    IsTruncated (ts_us (negsuc 1499)) (negsuc 1499)
    × IsTruncated (ts_us (pos 1500)) (pos 1500)
    × (ts_us (negsuc 1499) ≤ℤ ts_us (pos 1500))
ts_us_truncates_example = ts_us_truncates (negsuc 1499) (pos 1500) (omega arith)
