-- ===== src/Exporters.antt =====
-- src/monitor/exporters/timing.rs and src/monitor/exporters/chrome.rs: the Chrome trace encoder. The
-- file is the text written to it, and writes succeed. `display` is Rust's `Display` of an `f64`.
pub mod Json
pub mod Timing
pub mod Events
pub mod Metadata
pub mod Stream
pub mod Valid
pub mod Spelling
pub mod Converted
pub mod Run
mod Tests
use gc_scope.Base.{
  ℕ, zero, suc, ◌-◌, ◌/◌, Bool, true, false, not, Option, none, some, List, [], ◌∷◌, ◌++◌, ◌==◌,
  ◌&&◌, if◌then◌else◌, any,
}
use gc_scope.Base.Int.{ℤ, pos, negsuc, eqb_ℤ}
use gc_scope.Base.Text.{codes, decimal, decimal_int}
use gc_scope.Convert.{
  ArgValue, int, float, Arg, TraceEvent, process_meta, thread_meta, begin_span, end_span, instant,
  counter,
}

-- `ts_ns / 1000`, which truncates toward zero.
unfoldable pub ts_us : ℤ → ℤ
ts_us (pos n) = pos (n / 1000)
ts_us (negsuc n) = let q = suc n / 1000 in if q == 0 then pos 0 else negsuc (q - 1)

-- The pieces of a `format!`.
unfoldable pub format : List (List ℕ) → List ℕ
format [] = []
format (p ∷ ps) = p ++ format ps

module _ {F : Type 0} (display : F → List ℕ) where
  -- `Display` of an argument's value.
  unfoldable pub display_value : ArgValue F → List ℕ
  display_value (int v) = decimal_int v
  display_value (float x) = display x

  unfoldable pub arg_json : Arg F → List ℕ
  unfolding format display_value
  arg_json (key, value) = format (codes "\"" ∷ codes key ∷ codes "\":" ∷ display_value value ∷ [])

  unfoldable pub args_json : List (Arg F) → List ℕ
  unfolding arg_json
  args_json [] = []
  args_json (a ∷ []) = arg_json a
  args_json (a ∷ b ∷ args) = arg_json a ++ (b',' ∷ args_json (b ∷ args))

  -- The pieces of the `format!` of each event.
  unfoldable pub pieces : TraceEvent F → List (List ℕ)
  unfolding ts_us args_json
  pieces (process_meta pid name) =
      codes "{\"ph\":\"M\",\"pid\":"
      ∷ decimal pid
      ∷ codes ",\"name\":\"process_name\",\"args\":{\"name\":\""
      ∷ name
      ∷ codes "\"}}"
      ∷ []
  pieces (thread_meta pid tid name) =
      codes "{\"ph\":\"M\",\"pid\":"
      ∷ decimal pid
      ∷ codes ",\"tid\":"
      ∷ decimal_int tid
      ∷ codes ",\"name\":\"thread_name\",\"args\":{\"name\":\""
      ∷ name
      ∷ codes "\"}}"
      ∷ []
  pieces (begin_span pid tid ts_ns name cat args) =
      codes "{\"ph\":\"B\",\"pid\":"
      ∷ decimal pid
      ∷ codes ",\"tid\":"
      ∷ decimal_int tid
      ∷ codes ",\"ts\":"
      ∷ decimal_int (ts_us ts_ns)
      ∷ codes ",\"name\":\""
      ∷ name
      ∷ codes "\",\"cat\":\""
      ∷ cat
      ∷ codes "\",\"args\":{"
      ∷ args_json args
      ∷ codes "}}"
      ∷ []
  pieces (end_span pid tid ts_ns name cat) =
      codes "{\"ph\":\"E\",\"pid\":"
      ∷ decimal pid
      ∷ codes ",\"tid\":"
      ∷ decimal_int tid
      ∷ codes ",\"ts\":"
      ∷ decimal_int (ts_us ts_ns)
      ∷ codes ",\"name\":\""
      ∷ name
      ∷ codes "\",\"cat\":\""
      ∷ cat
      ∷ codes "\"}"
      ∷ []
  pieces (instant pid ts_ns name) =
      codes "{\"name\":\""
      ∷ name
      ∷ codes "\",\"ph\":\"I\",\"s\":\"p\",\"ts\":"
      ∷ decimal_int (ts_us ts_ns)
      ∷ codes ",\"pid\":"
      ∷ decimal pid
      ∷ codes "}"
      ∷ []
  pieces (counter pid tid ts_ns name args) =
      codes "{\"name\":\""
      ∷ name
      ∷ codes "\",\"ph\":\"C\",\"ts\":"
      ∷ decimal_int (ts_us ts_ns)
      ∷ codes ",\"pid\":"
      ∷ decimal pid
      ∷ codes ",\"tid\":"
      ∷ decimal_int tid
      ∷ codes ",\"args\":{"
      ∷ args_json args
      ∷ codes "}}"
      ∷ []

  unfoldable pub encode : TraceEvent F → List ℕ
  unfolding format pieces
  encode event = format (pieces event)

-- Sets of tracks.
unfoldable pub has_track : ℕ × ℤ → List (ℕ × ℤ) → Bool
has_track t s = any (λ u. u.0 == t.0 && eqb_ℤ u.1 t.1) s

unfoldable pub has_pid : ℕ → List ℕ → Bool
has_pid p s = any (λ q. q == p) s

pub record ChromeTraceExporter : Type 0 where
  pub file : Option (List ℕ)
  pub has_written : Bool
  pub pid_meta_done : List ℕ
  pub tid_meta_done : List (ℕ × ℤ)

abbrev pub new_exporter : ChromeTraceExporter
new_exporter = record { file = none; has_written = false; pid_meta_done = []; tid_meta_done = [] }

-- `open`, of a file that can be opened.
unfoldable pub open_file : ChromeTraceExporter → ChromeTraceExporter
open_file e = record e {
  file = some [];
  has_written = false;
  pid_meta_done = [];
  tid_meta_done = [];
}

-- What `write_event` writes.
unfoldable pub write_event : Bool → List ℕ → List ℕ
write_event true json = 91 ∷ 10 ∷ json
write_event false json = b',' ∷ 10 ∷ json

module _ {F : Type 0} where
  -- Whether metadata was written already. The sets take in what was not.
  unfoldable pub skip : TraceEvent F → ChromeTraceExporter → Bool × ChromeTraceExporter
  unfolding has_track has_pid
  skip (process_meta pid _) e =
      if has_pid pid e.pid_meta_done
      then (true, e)
      else (false, record e { pid_meta_done = pid ∷ e.pid_meta_done })
  skip (thread_meta pid tid _) e =
      if has_track (pid, tid) e.tid_meta_done
      then (true, e)
      else (false, record e { tid_meta_done = (pid, tid) ∷ e.tid_meta_done })
  skip (begin_span _ _ _ _ _ _) e = (false, e)
  skip (end_span _ _ _ _ _) e = (false, e)
  skip (instant _ _ _) e = (false, e)
  skip (counter _ _ _ _ _) e = (false, e)

module _ {F : Type 0} (display : F → List ℕ) where
  -- One turn of the loop over the events, with the text of the file.
  unfoldable pub add_event :
      TraceEvent F → List ℕ × ChromeTraceExporter → List ℕ × ChromeTraceExporter
  unfolding skip write_event
  add_event event (text, e) =
      let (skipped, e') = skip event e in
      if skipped then (text, e') else (
        text ++ write_event (not e'.has_written) (encode display event),
        record e' { has_written = true },
      )

  unfoldable pub add_all :
      List (TraceEvent F) → List ℕ × ChromeTraceExporter → List ℕ × ChromeTraceExporter
  unfolding add_event
  add_all [] s = s
  add_all (event ∷ events) s = add_all events (add_event event s)

  unfoldable pub add_events : List (TraceEvent F) → ChromeTraceExporter → ChromeTraceExporter
  unfolding add_all
  add_events events e = elim e.file [
    | none ↦ e
    | some text ↦ let (text', e') = add_all events (text, e) in record e' { file = some text' }
  ]

-- `close`: the file as it is left, where one was open.
unfoldable pub close : ChromeTraceExporter → Option (List ℕ) × ChromeTraceExporter
close e = elim e.file [
  | none ↦ (none, e)
  | some text ↦ (
    some (text ++ (if e.has_written then 10 ∷ 93 ∷ [] else 91 ∷ 93 ∷ 10 ∷ [])),
    record e { file = none },
  )
]
