-- ===== src/Process/Runtime.antt =====
-- What makes a runtime of a process with no cookie credible.
use gc_scope.Base.{
  ℕ, ◌≡◌, sym, ap, ◌∙◌, Bool, true, false, Option, none, some, List, [], ◌∷◌, ◌==◌, ==_iff,
  bind-some, Option-cases, Bool-cases, inl, inr, arith, unwrap_or,
}
use gc_scope.Base.Word.{add_u64}
use gc_scope.Memory.{MapRange, Machine, read_memory, read_u64}
use gc_scope.Process.{
  maps_contains, points_back, first_pointing_back, check_interpreter_addresses, check_runtime,
  words_of,
}
use mathlib.Core.List.{Memᴰ}

module _ {H : Type 0} (m : Machine H) where
  -- An interpreter of a process: it and its first thread are mapped, and the thread points back.
  pub record IsInterpreter (pid : ℕ) (maps : List MapRange) (th ti addr : ℕ) : Type 0 where
    pub thread : ℕ
    pub mapped : maps_contains maps addr ≡ true
    pub first_thread : read_u64 m pid (add_u64 addr th) ≡ some thread
    pub thread_is_set : (thread == 0) ≡ false
    pub thread_mapped : maps_contains maps thread ≡ true
    pub thread_points_back : read_u64 m pid (add_u64 thread ti) ≡ some addr

  points_back-IsInterpreter :
      (pid : ℕ) (maps : List MapRange) (th ti addr : ℕ)
      → points_back m pid maps th ti addr ≡ true
      → IsInterpreter pid maps th ti addr
  unfolding points_back
  points_back-IsInterpreter pid maps th ti addr h = elim (Bool-cases (maps_contains maps addr)) [
    | inr unmapped ↦ absurd (ground (arith, h, unmapped))
    | inl mapped ↦ elim (Option-cases (read_u64 m pid (add_u64 addr th))) [
      | inl unread ↦ absurd (ground (arith, h, mapped, unread))
      | inr (thread, first) ↦ elim (Option-cases (read_u64 m pid (add_u64 thread ti))) [
        | inl unread ↦ absurd (ground (arith, h, mapped, first, unread))
        | inr (back, points) ↦
            let is : back ≡ addr = ground (arith, h, mapped, first, points) in
            record {
              thread = thread;
              mapped = mapped;
              first_thread = first;
              thread_is_set = ground (arith, h, mapped, first);
              thread_mapped = ground (arith, h, mapped, first);
              thread_points_back = points ∙ ap some is;
            }
      ]
    ]
  ]

  first_pointing_back-some :
      (pid : ℕ) (maps : List MapRange) (th ti : ℕ) (words : List ℕ) (found : ℕ)
      → first_pointing_back m pid maps th ti words ≡ some found
      → Memᴰ found words × (points_back m pid maps th ti found ≡ true)
  unfolding first_pointing_back
  first_pointing_back-some pid maps th ti [] found h = absurd (ground arith)
  first_pointing_back-some pid maps th ti (w ∷ words) found h =
      elim (Bool-cases (points_back m pid maps th ti w)) [
        | inl points ↦
            let is : found ≡ w = ground (arith, h, points) in
            (Memᴰ.head is, ap (points_back m pid maps th ti) is ∙ points)
        | inr other ↦
            let rest =
              first_pointing_back-some pid maps th ti words found (ground (arith, h, other)) in
            (Memᴰ.tail rest.0, rest.1)
      ]

  -- The word at `interpreters_head` is an interpreter, and a word of the runtime's bytes.
  pub record IsCredible (pid runtime_addr size head_offset th ti : ℕ) : Type 0 where
    pub head : ℕ
    pub maps : List MapRange
    pub bytes : List ℕ
    pub at_head : read_u64 m pid (add_u64 runtime_addr head_offset) ≡ some head
    pub maps_read : m.process_maps pid ≡ some maps
    pub bytes_read : read_memory m pid runtime_addr size ≡ some bytes
    pub in_bytes : Memᴰ head (words_of bytes)
    pub interpreter : IsInterpreter pid maps th ti head

  unwrap_true : (o : Option Bool) → unwrap_or o false ≡ true → o ≡ some true
  unwrap_true none h = absurd (ground arith)
  unwrap_true (some b) h = ap some h

  -- An address is taken for the runtime of a process with no cookie only if the pointer at its
  -- `interpreters_head` is a word of its bytes and an interpreter: it is mapped, it points to a
  -- thread that is mapped, and the thread points back to it.
  pub check_runtime-IsCredible :
      (pid runtime_addr size head_offset th ti : ℕ)
      → check_runtime m pid runtime_addr size head_offset th ti ≡ true
      → IsCredible pid runtime_addr size head_offset th ti
  unfolding check_runtime check_interpreter_addresses
  check_runtime-IsCredible pid addr size off th ti h =
      let (expected, at_head, h1) =
        bind-some (read_u64 m pid (add_u64 addr off)) _ true (unwrap_true _ h) in
      let (bytes, read, h2) = bind-some (read_memory m pid addr size) _ true h1 in
      let (found, finds, h3) =
        bind-some (check_interpreter_addresses m pid (words_of bytes) th ti) _ true h2 in
      let (maps, mapped, first) = bind-some (m.process_maps pid) _ found finds in
      let s = first_pointing_back-some pid maps th ti (words_of bytes) found first in
      let same : found ≡ expected = (==_iff found expected).0 (ground (arith, h3)) in
      record {
        head = found;
        maps = maps;
        bytes = bytes;
        at_head = at_head ∙ ap some (sym same);
        maps_read = mapped;
        bytes_read = read;
        in_bytes = s.0;
        interpreter = points_back-IsInterpreter pid maps th ti found s.1;
      }
