-- ===== src/Memory.antt =====
-- src/memory/reader.rs: reads of a process's memory through a handle. `Machine` is what the system
-- and its libraries answer while one call of the program runs.
pub mod Bounds
pub mod Dump
pub mod Columns
mod Tests
use gc_scope.Base.{ℕ, Bool, Option, none, some, List, String, take, ◌>>=◌}
use gc_scope.Base.Word.{from_le_bytes}

-- A mapping of a process: its start, its size, whether it is executable, and its file.
pub record MapRange : Type 0 where
  pub start : ℕ
  pub size : ℕ
  pub is_exec : Bool
  pub filename : Option String

-- A handle is of type `H`. A successful `copy_address` returns as many bytes as were asked for.
pub record Machine (H : Type 0) : Type 0 where
  pub handle_of : ℕ → Option H
  pub copy_address : H → ℕ → ℕ → Option (List ℕ)
  pub child_processes : ℕ → Option (List ℕ)
  pub process_maps : ℕ → Option (List MapRange)
  pub read_file : String → Option (List ℕ)
  pub modified : String → Option ℕ
  pub command_line : ℕ → Option String

module _ {H : Type 0} (m : Machine H) where
  unfoldable pub open_handle : ℕ → Option H
  open_handle pid = m.handle_of pid

  unfoldable pub read_memory_h : H → ℕ → ℕ → Option (List ℕ)
  read_memory_h handle addr size = m.copy_address handle addr size

  unfoldable pub read_u64_h : H → ℕ → Option ℕ
  unfolding read_memory_h from_le_bytes
  read_u64_h handle addr = do
    bytes ← read_memory_h handle addr 8
    some (from_le_bytes (take 8 bytes))

  unfoldable pub read_memory : ℕ → ℕ → ℕ → Option (List ℕ)
  unfolding open_handle read_memory_h
  read_memory pid addr size = do handle ← open_handle pid; read_memory_h handle addr size

  unfoldable pub read_u64 : ℕ → ℕ → Option ℕ
  unfolding open_handle read_u64_h
  read_u64 pid addr = do handle ← open_handle pid; read_u64_h handle addr
