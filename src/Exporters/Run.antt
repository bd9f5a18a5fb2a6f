-- ===== src/Exporters/Run.antt =====
-- The trace file of a run.
use gc_scope.Base.{ℕ, ◌≡◌, true, some, List, [], ◌∷◌, map, All, All-append}
use gc_scope.Base.Int.{ℤ, InI64}
use gc_scope.Base.Float.{Float64}
use gc_scope.GcStats.{GcStat, duration}
use gc_scope.Convert.{TraceEvent, convert_record}
use gc_scope.Exporters.Events.{IsPlainEvent}
use gc_scope.Context.{convert_all}
use gc_scope.Exporters.{ChromeTraceExporter, open_file, close}
use gc_scope.Exporters.Json.{is_number, IsJson}
use gc_scope.Exporters.Stream.{flat, add_batches}
use gc_scope.Exporters.Valid.{close-IsJson}
use gc_scope.Exporters.Converted.{IsOfTrack, convert_record-plain}

-- The Records that one poll reports: their process, when they were observed, and they.
abbrev pub Reported : Type 0
Reported = ℕ × ℤ × List GcStat

module _ (F : Type 0) ⦃f : Float64 F⦄ where
  -- Records whose process, interpreters and durations can be spelled.
  abbrev pub IsSpelledPoll : Reported → Type 0
  IsSpelledPoll (pid, at, records) =
      InI64 at × All (λ r. IsOfTrack pid r × (f.is_finite (duration r) ≡ true)) records

  abbrev pub converted : Reported → List (TraceEvent F)
  converted (pid, at, records) = convert_all pid at records

  convert_all-plain :
      (pid : ℕ) (at : ℤ) (records : List GcStat)
      → InI64 at
      → All (λ r. IsOfTrack pid r × (f.is_finite (duration r) ≡ true)) records
      → All (IsPlainEvent {F = F}) (convert_all pid at records)
  unfolding convert_all
  convert_all-plain pid at [] h k = tt
  convert_all-plain pid at (r ∷ records) h k =
      All-append IsPlainEvent (convert_record pid r at) (convert_all pid at records)
        (convert_record-plain F pid r at k.0.0 h k.0.1) (convert_all-plain pid at records h k.1)

  flat-plain :
      (polls : List Reported)
      → All IsSpelledPoll polls
      → All (IsPlainEvent {F = F}) (flat (map converted polls))
  flat-plain [] h = tt
  flat-plain ((pid, at, records) ∷ polls) h =
      All-append IsPlainEvent (convert_all pid at records) (flat (map converted polls))
        (convert_all-plain pid at records h.0.0 h.0.1) (flat-plain polls h.1)

  -- The trace file of any run is one JSON document: it is opened, given the events of the Records
  -- that each poll reports, and closed. Processes fit 32 bits, interpreters and times 64,
  -- generations are below 3, and the durations are finite; a finite float is displayed as a number.
  pub converted-IsJson :
      (display : F → List ℕ)
      → ((x : F) → f.is_finite x ≡ true → is_number (display x) ≡ true)
      → (polls : List Reported) (e : ChromeTraceExporter) → All IsSpelledPoll polls
      → (text : List ℕ) × ((close (add_batches display (map converted polls) (open_file e))).0
          ≡ some text)
        × IsJson text
  converted-IsJson display displays polls e h =
      close-IsJson display displays (map converted polls) e (flat-plain polls h)
