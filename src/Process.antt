-- ===== src/Process.antt =====
-- src/memory/process.rs, src/remote_debugging/check_interpreter.rs and the parts of
-- src/memory/binary.rs that need no parser: where the runtime of a process is. `Images` is what
-- goblin finds in the image of a module.
pub mod Runtime
pub mod Modules
pub mod Search
mod Tests
use gc_scope.Base.{
  ℕ, zero, suc, ◌+◌, ◌-◌, Bool, true, false, not, ◌&&◌, ◌||◌, Option, none, some, List, [], ◌∷◌,
  map, ltb, leb, ◌==◌, if◌then◌else◌, any, length, take, String, ◌>>=◌, unwrap_or, str_eq,
}
use gc_scope.Base.Word.{from_le_bytes, add_u64}
use gc_scope.Base.Text.{codes}
use gc_scope.Memory.{MapRange, Machine, read_memory, read_u64}
use gc_scope.OffsetTable.{OffsetTable}

pub data BinaryKind : Type 0 where
  elf : BinaryKind
  pe : BinaryKind
  mach_o : BinaryKind

-- The format that a magic number stands for.
unfoldable pub kind_of_magic : ℕ → Option BinaryKind
kind_of_magic magic =
    if magic == 0x464c457f
    then some elf
    else if magic == 0x00905a4d || magic == 0x905a4d00
    then some pe
    else if magic == 0xfeedface
        || magic == 0xcefaedfe
        || magic == 0xfeedfacf
        || magic == 0xcffaedfe
        || magic == 0xbebafeca
        || magic == 0xcafebabe
    then some mach_o
    else none

unfoldable pub classify_image : List ℕ → Option BinaryKind
unfolding kind_of_magic from_le_bytes
classify_image bytes =
    if ltb (length bytes) 4 then none else kind_of_magic (from_le_bytes (take 4 bytes))

-- Whether the text starts with the pattern, and whether it holds it.
unfoldable pub starts_with : List ℕ → List ℕ → Bool
starts_with [] text = true
starts_with (c ∷ cs) [] = false
starts_with (c ∷ cs) (d ∷ ds) = let rest = starts_with cs ds in if c == d then rest else false

unfoldable pub holds : List ℕ → List ℕ → Bool
unfolding starts_with
holds pattern [] = starts_with pattern []
holds pattern (c ∷ cs) =
    let rest = holds pattern cs in if starts_with pattern (c ∷ cs) then true else rest

abbrev pub to_lower : ℕ → ℕ
to_lower c = if leb b'A' c && leb c b'Z' then c + 32 else c

-- `path.to_lowercase().contains("python")`. No character outside ASCII has a lower case in which
-- one of these six letters stands.
unfoldable pub names_python : String → Bool
unfolding holds
names_python path = holds (codes "python") (map to_lower (codes path))

-- The loop over the mappings, with the modules found so far.
unfoldable pub modules_from : Bool → List (String × ℕ) → List MapRange → List (String × ℕ)
unfolding names_python
modules_from macos found [] = []
modules_from macos found (m ∷ ms) = elim m.filename [
  | none ↦ modules_from macos found ms
  | some path ↦
      if not (names_python path) || macos && not m.is_exec || any (λ f. str_eq f.0 path) found
      then modules_from macos found ms
      else (path, m.start) ∷ modules_from macos ((path, m.start) ∷ found) ms
]

unfoldable pub find_python_modules :
    {H : Type 0} → Machine H → Bool → ℕ → Option (List (String × ℕ))
unfolding modules_from
find_python_modules m macos pid = do maps ← m.process_maps pid; some (modules_from macos [] maps)

-- What goblin finds: the runtime's section in an image of each format, given the module's base, and
-- a symbol; and whether the target is macOS.
pub record Images : Type 0 where
  pub find_section_in_elf : List ℕ → ℕ → Option ℕ
  pub find_section_in_pe : List ℕ → ℕ → Option ℕ
  pub find_section_in_macho : List ℕ → ℕ → Option ℕ
  pub resolve_symbol : List ℕ → ℕ → String → Option ℕ
  pub ro_data_range : List ℕ → Option (ℕ × ℕ)
  pub macos : Bool

-- `COOKIE`.
abbrev pub cookie : List ℕ
cookie = codes "xdebugpy"

abbrev pub max_depth : ℕ
max_depth = 3

unfoldable pub bytes_eq : List ℕ → List ℕ → Bool
bytes_eq [] [] = true
bytes_eq (a ∷ as') (b ∷ bs) = let rest = bytes_eq as' bs in if a == b then rest else false
bytes_eq _ _ = false

-- The loop over the children.
unfoldable pub search_children : (ℕ → Option (ℕ × String)) → List ℕ → Option (ℕ × String)
search_children attempt [] = none
search_children attempt (c ∷ cs) =
    let rest = search_children attempt cs in
    elim (attempt c) [ some found ↦ some found | none ↦ rest ]

-- `maps_contains`.
unfoldable pub maps_contains : List MapRange → ℕ → Bool
maps_contains maps addr =
    any (λ (m : MapRange). leb m.start addr && ltb addr (add_u64 m.start m.size)) maps

-- The words of 8 bytes, in the machine's little-endian order.
unfoldable pub words_of : List ℕ → List ℕ
unfolding from_le_bytes
words_of (a ∷ b ∷ c ∷ d ∷ e ∷ f ∷ g ∷ h ∷ rest) =
    from_le_bytes (a ∷ b ∷ c ∷ d ∷ e ∷ f ∷ g ∷ h ∷ []) ∷ words_of rest
words_of _ = []

module _ {H : Type 0} (m : Machine H) where
  unfoldable pub get_child_pids : ℕ → List ℕ
  get_child_pids parent = unwrap_or (m.child_processes parent) []

  unfoldable pub validate_cookie : ℕ → ℕ → Option Bool
  unfolding bytes_eq
  validate_cookie pid addr = do
    bytes ← read_memory m pid addr (length cookie)
    some (bytes_eq bytes cookie)

  -- Whether the thread of a candidate points back to it.
  unfoldable pub points_back : ℕ → List MapRange → ℕ → ℕ → ℕ → Bool
  unfolding maps_contains
  points_back pid maps threads_head_offset thread_interp_offset candidate =
      if not (maps_contains maps candidate)
      then false
      else elim (read_u64 m pid (add_u64 candidate threads_head_offset)) [
        | none ↦ false
        | some tstate_ptr ↦
            if tstate_ptr == 0 || not (maps_contains maps tstate_ptr)
            then false
            else elim (read_u64 m pid (add_u64 tstate_ptr thread_interp_offset)) [
              | none ↦ false
              | some interp_ptr ↦ interp_ptr == candidate
            ]
      ]

  -- The loop over the words.
  unfoldable pub first_pointing_back : ℕ → List MapRange → ℕ → ℕ → List ℕ → Option ℕ
  unfolding points_back
  first_pointing_back pid maps th ti [] = none
  first_pointing_back pid maps th ti (w ∷ ws) =
      let rest = first_pointing_back pid maps th ti ws in
      if points_back pid maps th ti w then some w else rest

  unfoldable pub check_interpreter_addresses : ℕ → List ℕ → ℕ → ℕ → Option ℕ
  unfolding first_pointing_back
  check_interpreter_addresses pid words th ti = do
    maps ← m.process_maps pid
    first_pointing_back pid maps th ti words

  unfoldable pub check_runtime : ℕ → ℕ → ℕ → ℕ → ℕ → ℕ → Bool
  unfolding words_of
  check_runtime pid runtime_addr size head_offset th ti =
      unwrap_or
        (do
          expected ← read_u64 m pid (add_u64 runtime_addr head_offset)
          bytes ← read_memory m pid runtime_addr size
          found ← check_interpreter_addresses pid (words_of bytes) th ti
          some (found == expected))
        false

  module _ (i : Images) where
    -- The runtime's section in a module's image.
    unfoldable pub section_of : List ℕ → ℕ → Option ℕ
    unfolding classify_image
    section_of bytes base = elim (classify_image bytes) [
      | none ↦ none
      | some elf ↦ i.find_section_in_elf bytes base
      | some pe ↦ i.find_section_in_pe bytes base
      | some mach_o ↦ i.find_section_in_macho bytes base
    ]

    -- The loop over the modules. A cookie that cannot be read ends it with an error.
    unfoldable pub try_modules : ℕ → List (String × ℕ) → Option (ℕ × String)
    try_modules pid [] = none
    try_modules pid ((path, base) ∷ modules) =
        let rest = try_modules pid modules in
        elim (m.read_file path >>= λ bytes. section_of bytes base) [
          | none ↦ rest
          | some addr ↦ elim (validate_cookie pid addr) [
            | none ↦ none
            | some true ↦ some (addr, path)
            | some false ↦ rest
          ]
        ]

    unfoldable pub try_find_runtime : ℕ → Option (ℕ × String)
    unfolding try_modules
    try_find_runtime pid = do modules ← find_python_modules m i.macos pid; try_modules pid modules

    -- A child is searched with one level less left: `levels` is
    -- `MAX_DEPTH` less the depth.
    unfoldable pub search_levels : ℕ → ℕ → Option (ℕ × String)
    unfolding search_children get_child_pids
    search_levels zero pid = try_find_runtime pid
    search_levels (suc levels) pid = elim (try_find_runtime pid) [
      | some found ↦ some found
      | none ↦ elim (get_child_pids pid) [
        | [] ↦ try_find_runtime pid
        | c ∷ cs ↦ search_children (search_levels levels) (c ∷ cs)
      ]
    ]

    unfoldable pub search_pid_and_children : ℕ → Option (ℕ × String)
    unfolding search_levels
    search_pid_and_children pid = search_levels max_depth pid

    unfoldable pub find_runtime : ℕ → Option ℕ
    find_runtime pid = search_pid_and_children pid >>= λ found. some found.0

    unfoldable pub find_runtime_module : ℕ → Option (ℕ × String)
    find_runtime_module pid = search_pid_and_children pid

    -- The loop over the modules of a process that has no cookie.
    unfoldable pub try_symbols : ℕ → OffsetTable → List (String × ℕ) → Option (ℕ × String)
    try_symbols pid t [] = none
    try_symbols pid t ((path, base) ∷ modules) =
        let rest = try_symbols pid t modules in
        elim (m.read_file path >>= λ bytes. i.resolve_symbol bytes base "_PyRuntime") [
          | none ↦ rest
          | some addr ↦
              if check_runtime pid addr (add_u64 t.runtime_interpreters_head 64)
                t.runtime_interpreters_head t.interp_threads_head t.thread_interp
              then some (addr, path)
              else rest
        ]

    unfoldable pub find_runtime_pre_3_13 : ℕ → OffsetTable → Option (ℕ × String)
    unfolding try_symbols
    find_runtime_pre_3_13 pid t = do
      modules ← find_python_modules m i.macos pid
      try_symbols pid t modules
