-- ===== src/Fixtures/Python312.antt =====
-- Data for the tests: a process of Python 3.12 with two interpreters whose links form a cycle.
use gc_scope.Base.{
  ℕ, zero, suc, ◌+◌, ◌/◌, ◌<◌, ◌≡◌, true, none, some, List, [], ◌∷◌, ◌++◌, take, ◌==◌, str_eq,
  if◌then◌else◌, All, All-append, arith,
}
use mathlib.Core.Path.{subst}
use gc_scope.Fixtures.{to_le_bytes}
use gc_scope.Memory.{Machine, MapRange}
use gc_scope.Memory.Bounds.{CopiesBytes}
use gc_scope.Process.{Images}

-- The words of the process that are not 0: its version, the head of its interpreters, and the link,
-- the id, the thread and a count of collections of each.
abbrev pub words : List (ℕ × ℕ)
words =
    (256, 0x030c00f0)
    ∷ (4136, 8192)
    ∷ (8192, 12288)
    ∷ (8264, 16384)
    ∷ (16400, 8192)
    ∷ (8432, 5)
    ∷ (12288, 8192)
    ∷ (12296, 1)
    ∷ (12528, 9)
    ∷ []

abbrev pub word_at : ℕ → List (ℕ × ℕ) → ℕ
word_at addr [] = 0
word_at addr ((a, w) ∷ ws) = let rest = word_at addr ws in if a == addr then w else rest

abbrev pub bytes_from : ℕ → ℕ → List ℕ
bytes_from zero addr = []
bytes_from (suc n) addr = to_le_bytes 8 (word_at addr words) ++ bytes_from n (addr + 8)

abbrev pub mapping : MapRange
mapping = record { start = 4096; size = 16384; is_exec = true; filename = some "bin/python3.12" }

abbrev pub machine : Machine ℕ
machine = record {
  handle_of = λ pid. if pid == 7 then some 70 else none;
  copy_address = λ handle addr size. some (take size (bytes_from ((size + 7) / 8) addr));
  child_processes = λ pid. some [];
  process_maps = λ pid. some (mapping ∷ []);
  read_file = λ path. some [];
  modified = λ path. some 1000;
  command_line = λ pid. some "python app.py";
}

abbrev pub images : Images
images = record {
  find_section_in_elf = λ bytes base. none;
  find_section_in_pe = λ bytes base. none;
  find_section_in_macho = λ bytes base. none;
  resolve_symbol = λ bytes base symbol. some (if str_eq symbol "Py_Version" then 256 else 4096);
  ro_data_range = λ bytes. none;
  macos = true;
}

to_le_bytes-bounded : (n v : ℕ) → All (λ b. b < 256) (to_le_bytes n v)
to_le_bytes-bounded zero v = tt
to_le_bytes-bounded (suc n) v = (omega arith, to_le_bytes-bounded n (v / 256))

bytes_from-bounded : (n addr : ℕ) → All (λ b. b < 256) (bytes_from n addr)
bytes_from-bounded zero addr = tt
bytes_from-bounded (suc n) addr =
    All-append (λ b. b < 256) (to_le_bytes 8 (word_at addr words)) (bytes_from n (addr + 8))
      (to_le_bytes-bounded 8 (word_at addr words)) (bytes_from-bounded n (addr + 8))

take-All : (n : ℕ) (bytes : List ℕ) → All (λ b. b < 256) bytes → All (λ b. b < 256) (take n bytes)
take-All zero bytes h = tt
take-All (suc n) [] h = tt
take-All (suc n) (b ∷ bytes) h = (h.0, take-All n bytes h.1)

pub machine-CopiesBytes : CopiesBytes machine
machine-CopiesBytes handle addr size bytes h =
    let copied = bytes_from ((size + 7) / 8) addr in
    let is : take size copied ≡ bytes = cc h in
    subst (All (λ b. b < 256)) is (take-All size copied (bytes_from-bounded ((size + 7) / 8) addr))
