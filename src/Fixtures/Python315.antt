-- ===== src/Fixtures/Python315.antt =====
-- Data for the tests: a process of Python 3.15.0b1, whose version is stored behind the cookie of its
-- runtime, and what the accessors of its compiled layout return.
use gc_scope.Base.{ℕ, ◌+◌, some, [], ◌∷◌, ◌==◌, if◌then◌else◌}
use gc_scope.Fixtures.{to_le_bytes}
use gc_scope.Fixtures.Python312.{machine, images}
use gc_scope.GcStats.{GcItemLayout}
use gc_scope.Memory.{Machine}
use gc_scope.OffsetTable.{ring_buffer}
use gc_scope.Process.{Images, cookie}
use gc_scope.Registry.Tables.{GcStatsShape, VersionedOffsets}

abbrev pub layout : GcItemLayout
layout = record { item_size = 64; fields = ("ts_start", 0) ∷ ("ts_stop", 8) ∷ [] }

abbrev pub shape : GcStatsShape
shape = record { kind = ring_buffer; item_size = 64; layout = some layout }

abbrev pub offsets : VersionedOffsets
offsets = record {
  free_threaded = 0;
  expected_version = 0x030f00b1;
  runtime_interpreters_head = 0x328;
  interpreter_state_next = 0x10;
  interpreter_state_id = 0x18;
  interpreter_state_threads_head = 0x48;
  interpreter_state_gc = 0x1e00;
  thread_state_interp = 0x10;
  gc_collecting = 0x58;
  gc_frame = 0x60;
  gc_generation_stats = 0x20;
  gc_generation_stats_size = 1112;
  gc_runtime_size = 0;
  gc_stats_shape = shape;
  gc_inline_off = 0;
}

-- The cookie is at 4160, and every other word is the version.
abbrev pub beta_machine : Machine ℕ
beta_machine = record machine {
  copy_address =
      λ handle addr size. some (if addr == 4160 then cookie else to_le_bytes 8 0x030f00b1);
  read_file = λ path. some (0x7f ∷ 0x45 ∷ 0x4c ∷ 0x46 ∷ []);
}

abbrev pub beta_images : Images
beta_images = record images {
  find_section_in_elf = λ bytes base. some (base + 64);
  resolve_symbol = λ bytes base symbol. some 256;
}
