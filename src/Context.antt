-- ===== src/Context.antt =====
-- src/monitor/context.rs: `MonitorContext`, which polls a process and tells the exporter. What a
-- session answers in one poll is the parameter `Tick`; the exporter is the log of what it is told,
-- the newest first.
pub mod Lifecycle
mod Tests
use gc_scope.Base.{
  ℕ, Bool, true, false, not, Option, none, some, List, [], ◌∷◌, ◌++◌, ◌==◌, if◌then◌else◌, any,
  keep,
}
use gc_scope.Base.Int.{ℤ}
use gc_scope.Base.Float.{Float64}
use gc_scope.GcStats.{GcStat}
use gc_scope.Cursor.{Cursor, new, admit, forget, dropped}
use gc_scope.Convert.{TraceEvent, convert_record}

pub data PollStatus : Type 0 where
  ok : PollStatus
  invalid_process : PollStatus

pub data Revalidated : Type 0 where
  fresh : Revalidated
  changed : Revalidated
  dead : Revalidated

-- What the exporter is told of a process: its lifecycle, or events.
pub data Told (F : Type 0) : Type 0 where
  started : ℕ → Told F
  died : ℕ → Told F
  events : List (TraceEvent F) → Told F

-- The answers of a process to one poll: whether it is attached, its reads and its revalidation.
pub record Tick : Type 0 where
  pub attaches : Bool
  pub read : Option (List GcStat)
  pub revalidates : Revalidated
  pub read_again : Option (List GcStat)
  pub observed_at_ns : ℤ

-- Sets of pids.
unfoldable pub contains : ℕ → List ℕ → Bool
contains p s = any (λ q. q == p) s

unfoldable pub insert_pid : ℕ → List ℕ → List ℕ
unfolding contains
insert_pid p s = if contains p s then s else p ∷ s

unfoldable pub remove_pid : ℕ → List ℕ → List ℕ
remove_pid p s = keep (λ q. not (q == p)) s

pub record MonitorContext (F : Type 0) : Type 0 where
  pub sessions : List ℕ
  pub cursor : Cursor F
  pub alive_pids : List ℕ
  pub overflowed_pids : List ℕ
  pub told : List (Told F)

module _ {F : Type 0} where
  abbrev pub new_context : MonitorContext F
  new_context = record {
    sessions = [];
    cursor = new;
    alive_pids = [];
    overflowed_pids = [];
    told = [];
  }

  -- A process that was alive has died.
  unfoldable pub note_death : ℕ → MonitorContext F → MonitorContext F
  unfolding contains remove_pid
  note_death p c =
      if contains p c.alive_pids
      then record c { alive_pids = remove_pid p c.alive_pids; told = died p ∷ c.told }
      else c

  -- The session, the cursor and the warning of a process are dropped.
  unfoldable pub drop_process : ℕ → MonitorContext F → MonitorContext F
  unfolding remove_pid
  drop_process p c = record c {
    sessions = remove_pid p c.sessions;
    cursor = forget p c.cursor;
    overflowed_pids = remove_pid p c.overflowed_pids;
  }

  unfoldable pub on_invalid : ℕ → MonitorContext F → MonitorContext F × PollStatus
  unfolding note_death
  on_invalid p c = (note_death p c, invalid_process)

  unfoldable pub mark_died : ℕ → MonitorContext F → MonitorContext F
  unfolding note_death drop_process
  mark_died p c = note_death p (drop_process p c)

  unfoldable pub note_start : ℕ → MonitorContext F → MonitorContext F
  unfolding contains insert_pid
  note_start p c =
      if contains p c.alive_pids
      then c
      else record c { alive_pids = insert_pid p c.alive_pids; told = started p ∷ c.told }

  unfoldable pub warn_if_interpreters_dropped : ℕ → MonitorContext F → MonitorContext F
  unfolding insert_pid
  warn_if_interpreters_dropped p c =
      if dropped c.cursor p == 0
      then c
      else record c { overflowed_pids = insert_pid p c.overflowed_pids }

module _ {F : Type 0} ⦃f : Float64 F⦄ where
  -- `flat_map`.
  unfoldable pub convert_all : ℕ → ℤ → List GcStat → List (TraceEvent F)
  convert_all p at [] = []
  convert_all p at (r ∷ rs) = convert_record p r at ++ convert_all p at rs

  unfoldable pub events_for :
      ℕ → List GcStat → ℤ → MonitorContext F → MonitorContext F × List (TraceEvent F)
  unfolding convert_all warn_if_interpreters_dropped
  events_for p stats at c =
      let (cursor, reported) = admit p stats c.cursor in
      (warn_if_interpreters_dropped p (record c { cursor = cursor }), convert_all p at reported)

  -- The end of a poll whose read succeeded.
  unfoldable pub report : Tick → ℕ → List GcStat → MonitorContext F → MonitorContext F × PollStatus
  unfolding note_start events_for
  report t p stats c =
      let (c', es) = events_for p stats t.observed_at_ns (note_start p c) in
      (record c' { told = events es ∷ c'.told }, ok)

  -- The part of a poll behind the attachment.
  unfoldable pub read_and_report : Tick → ℕ → MonitorContext F → MonitorContext F × PollStatus
  unfolding report on_invalid drop_process
  read_and_report t p c = elim t.read [
    | some stats ↦ report t p stats c
    | none ↦ elim t.revalidates [
      | fresh ↦ elim t.read_again [ some stats ↦ report t p stats c | none ↦ on_invalid p c ]
      | changed ↦ on_invalid p (drop_process p c)
      | dead ↦ on_invalid p c
    ]
  ]

  unfoldable pub poll : Tick → ℕ → MonitorContext F → MonitorContext F × PollStatus
  unfolding read_and_report contains insert_pid
  poll t p c =
      if contains p c.sessions
      then read_and_report t p c
      else if t.attaches
      then read_and_report t p (record c { sessions = insert_pid p c.sessions })
      else (c, invalid_process)
