-- ===== src/Version/Detect.antt =====
-- `detect` and `read_version_from_process` of src/remote_debugging/version.rs. The process and its
-- files are parameters: `read_memory` reads bytes of the process, `read_file` a module's image,
-- `resolve_symbol` finds `Py_Version` in an image loaded at an address, and `ro_data_range` gives
-- the read-only data section of an image.
use gc_scope.Base.{
  ℕ, ◌≡◌, refl, ap, ◌⊎◌, inl, inr, Option, none, some, List, [], ◌∷◌, ◌>>=◌, ◌==◌, if◌then◌else◌,
  take, ◌++◌, All, arith, Option-cases, bind-some,
}
use gc_scope.Base.Word.{from_le_bytes}
use gc_scope.Version.{PythonVersion, from_hex}
use gc_scope.Version.Scan.{scan_image_for_version}

-- The first of two attempts that succeeds.
abbrev pub or_else {ℓ} : {A : Type ℓ} → Option A → Option A → Option A
or_else none y = y
or_else (some a) y = some a

-- Only a Python 3 counts.
unfoldable pub three : Option PythonVersion → Option PythonVersion
three none = none
three (some v) = if v.major == 3 then some v else none

-- The code that `detect` relies on, for paths of type `P`.
pub record Target (P : Type 0) : Type 0 where
  pub find_python_modules : Option (List (P × ℕ))
  pub read_memory : ℕ → ℕ → Option (List ℕ)
  pub read_file : P → Option (List ℕ)
  pub resolve_symbol : List ℕ → ℕ → Option ℕ
  pub ro_data_range : List ℕ → Option (ℕ × ℕ)

module _ {P : Type 0} (t : Target P) where
  unfoldable pub read_version_from_process : ℕ → Option PythonVersion
  unfolding from_hex from_le_bytes
  read_version_from_process addr =
      or_else (t.read_memory addr 8 >>= λ bytes. from_hex (from_le_bytes (take 8 bytes)))
        (t.read_memory addr 4 >>= λ bytes. from_hex (from_le_bytes (take 4 bytes)))

  -- One module in the first loop, by its symbol, and in the second, by its image.
  unfoldable pub by_symbol : P × ℕ → Option PythonVersion
  unfolding read_version_from_process
  by_symbol (path, base) = do
    bytes ← t.read_file path
    addr ← t.resolve_symbol bytes base
    three (read_version_from_process addr)

  unfoldable pub by_image : P × ℕ → Option PythonVersion
  by_image (path, _) = do
    bytes ← t.read_file path
    three (scan_image_for_version (t.ro_data_range bytes) bytes)

-- A loop over the modules that returns at the first that answers.
unfoldable pub first_answer {ℓ κ} : {A : Type ℓ} {B : Type κ} → (A → Option B) → List A → Option B
first_answer f [] = none
first_answer f (x ∷ xs) = or_else (f x) (first_answer f xs)

-- `none` is an error: no modules, or no version in them.
unfoldable pub detect : {P : Type 0} → Target P → Option PythonVersion
unfolding by_symbol by_image first_answer
detect t = do
  modules ← t.find_python_modules
  or_else (first_answer (by_symbol t) modules) (first_answer (by_image t) modules)

-- `x` is the first element of the list that `f` answers for, with `v`.
pub record First {A B : Type 0} (f : A → Option B) (xs : List A) (v : B) : Type 0 where
  pub earlier : List A
  pub here : A
  pub later : List A
  pub parts : xs ≡ earlier ++ (here ∷ later)
  pub silent : All (λ x. f x ≡ none) earlier
  pub answers : f here ≡ some v

first_answer-First :
    {A B : Type 0} (f : A → Option B) (xs : List A) (v : B)
    → first_answer f xs ≡ some v
    → First f xs v
unfolding first_answer
first_answer-First f [] v h = absurd (ground arith)
first_answer-First f (x ∷ xs) v h = elim (Option-cases (f x)) [
  | inl none_here ↦
      let rest = first_answer-First f xs v (ground (arith, h, none_here)) in
      record {
        earlier = x ∷ rest.earlier;
        here = rest.here;
        later = rest.later;
        parts = ap (λ t. x ∷ t) rest.parts;
        silent = (none_here, rest.silent);
        answers = rest.answers;
      }
  | inr (w, answer) ↦ record {
    earlier = [];
    here = x;
    later = xs;
    parts = refl;
    silent = tt;
    answers = ground (arith, h, answer);
  }
]

first_answer-none :
    {A B : Type 0} (f : A → Option B) (xs : List A)
    → first_answer f xs ≡ none
    → All (λ x. f x ≡ none) xs
unfolding first_answer
first_answer-none f [] h = tt
first_answer-none f (x ∷ xs) h = elim (Option-cases (f x)) [
  | inl none_here ↦ (none_here, first_answer-none f xs (ground (arith, h, none_here)))
  | inr (w, answer) ↦ absurd (ground (arith, h, answer))
]

three-major : (o : Option PythonVersion) (v : PythonVersion) → three o ≡ some v → v.major ≡ 3
unfolding three
three-major none v h = absurd (ground arith)
three-major (some w) v h = ground arith

module _ {P : Type 0} (t : Target P) where
  by_symbol-major : (m : P × ℕ) (v : PythonVersion) → by_symbol t m ≡ some v → v.major ≡ 3
  unfolding by_symbol
  by_symbol-major m v h =
      let (bytes, _, h1) = bind-some (t.read_file m.0) _ v h in
      let (addr, _, h2) = bind-some (t.resolve_symbol bytes m.1) _ v h1 in
      three-major (read_version_from_process t addr) v h2

  by_image-major : (m : P × ℕ) (v : PythonVersion) → by_image t m ≡ some v → v.major ≡ 3
  unfolding by_image
  by_image-major m v h =
      let (bytes, _, h1) = bind-some (t.read_file m.0) _ v h in
      three-major (scan_image_for_version (t.ro_data_range bytes) bytes) v h1

  -- What answers for the version of a process.
  abbrev pub Answered : List (P × ℕ) → PythonVersion → Type 0
  Answered modules v =
      First (by_symbol t) modules v
      ⊎ (All (λ m. by_symbol t m ≡ none) modules × First (by_image t) modules v)

  -- A detected version is a Python 3, and is the answer of the first module whose `Py_Version`
  -- symbol leads to one; only if no module's symbol does, it is the literal of the first module
  -- whose image holds one.
  pub detect_answers :
      (v : PythonVersion)
      → detect t ≡ some v
      → (v.major ≡ 3)
        × ((modules : List (P × ℕ)) × (t.find_python_modules ≡ some modules) × Answered modules v)
  unfolding detect
  detect_answers v h =
      let (modules, found, h1) = bind-some t.find_python_modules _ v h in
      elim (Option-cases (first_answer (by_symbol t) modules)) [
        | inl none_here ↦
            let image = first_answer-First (by_image t) modules v (ground (arith, h1, none_here)) in
            (
              by_image-major image.here v image.answers,
              (modules, found, inr (first_answer-none (by_symbol t) modules none_here, image)),
            )
        | inr (w, answer) ↦
            let symbol = first_answer-First (by_symbol t) modules v (ground (arith, h1, answer)) in
            (by_symbol-major symbol.here v symbol.answers, (modules, found, inl symbol))
      ]
