-- ===== src/Session/CacheTests.antt =====
-- Runs of `attach` on a process of Python 3.15.0b1: with no layout in the cache, and with the one
-- that the first run leaves there.
use gc_scope.Base.{ℕ, ◌≡◌, refl, some, [], ◌∷◌, All, inl, inr}
use gc_scope.Fixtures.Python315.{offsets, beta_machine, beta_images}
use gc_scope.Registry.{done, FallbackCache, read_offsets, has_verified_layout}
use gc_scope.Registry.Tables.{to_offset_table}
use gc_scope.Session.Attach.{attach}
use gc_scope.Memory.{open_handle, read_memory, read_u64_h}
use gc_scope.Version.Detect.{detect, three}
use gc_scope.Process.{
  find_python_modules, find_runtime_module, search_pid_and_children, try_find_runtime, section_of,
  validate_cookie, find_runtime,
}
use gc_scope.Base.Map.{lookup, insert}
use gc_scope.Session.Defs.{
  PySession, LayoutCache, LayoutSource, parsed, cached, Layouts, full, layout_in,
}
use gc_scope.Session.Layouts.{Holds}
use gc_scope.Version.{from_hex}
use gc_scope.Session.Attached.{AttachedWith, attach-Attached}

abbrev layouts : Layouts
layouts = record { read_struct = λ hex pid addr. some offsets; gc_candidates = [] }

abbrev no_layouts : LayoutCache
no_layouts = []

abbrev no_fallbacks : FallbackCache
no_fallbacks = []

-- A session with its layout from either source.
abbrev session : LayoutSource → PySession ℕ
session source = record {
  pid = 7;
  handle = 70;
  runtime_addr = 4160;
  version = record { major = 3; minor = 15; micro = 0; release_level = 0xB; serial = 1 };
  resolved = full offsets (to_offset_table [] offsets);
  stored_hex = some 0x030f00b1;
  exe_key = some ("bin/python3.12", 1000);
  cmdline = some "python app.py";
  layout_source = source;
}

abbrev kept : LayoutCache
kept = (("bin/python3.12", 1000), layout_in (session parsed)) ∷ []

first_run :
    attach beta_machine beta_images layouts 7 no_layouts no_fallbacks
    ≡ (done (session parsed), kept, no_fallbacks)
unfolding attach open_handle detect find_python_modules three read_memory find_runtime_module
    search_pid_and_children try_find_runtime section_of validate_cookie lookup read_offsets
    find_runtime has_verified_layout insert
first_run = refl

second_run :
    attach beta_machine beta_images layouts 7 kept no_fallbacks
    ≡ (done (session cached), kept, no_fallbacks)
unfolding attach open_handle detect find_python_modules three read_memory find_runtime_module
    search_pid_and_children try_find_runtime section_of validate_cookie lookup read_u64_h
second_run = refl

kept-Holds : All (Holds layouts) kept
unfolding from_hex has_verified_layout
kept-Holds = (
  inr (
    7,
    4160,
    0x030f00b1,
    record {
      hex = 0x030f00b1;
      offsets = offsets;
      chosen = (refl, inl refl);
      read = refl;
      made_of = refl;
      of_version = refl;
      marked = refl;
    },
  ),
  tt,
)

attach-Attached_example :
    AttachedWith beta_machine beta_images layouts 7 kept
      (attach beta_machine beta_images layouts 7 kept no_fallbacks)
attach-Attached_example =
    attach-Attached beta_machine beta_images layouts 7 kept no_fallbacks kept-Holds tt
