-- ===== src/Version/Scan.antt =====
-- The scanner of src/remote_debugging/version.rs for the `PY_VERSION` literal in an image, and the
-- two phases of `detect`.
pub mod Sound
pub mod Charset
pub mod Finds
use gc_scope.Base.{
  ℕ, ◌+◌, ◌-◌, Bool, true, false, not, ◌||◌, Option, none, some, List, [], ◌∷◌, ◌>>=◌, ltb, ◌==◌,
  if◌then◌else◌, length, take, drop,
}
use gc_scope.Base.Word.{u64_mod, from_le_bytes}
use gc_scope.Version.{PythonVersion, from_hex, is_version_char, is_terminator, parse_exact}
use Prim.Native.Nat.{min}

-- The version characters that the text starts with, and what is behind them.
unfoldable pub run : List ℕ → List ℕ
run [] = []
run (b ∷ bs) = let rest = run bs in if is_version_char b then b ∷ rest else []

unfoldable pub behind : List ℕ → List ℕ
behind [] = []
behind (b ∷ bs) = let rest = behind bs in if is_version_char b then rest else b ∷ bs

-- `bytes.get(end).copied().unwrap_or(0)`.
unfoldable pub next_byte : List ℕ → ℕ
next_byte [] = 0
next_byte (b ∷ bs) = b

-- The literal that starts here. A run of version characters is ASCII, so it always is a `str`.
unfoldable pub literal_at : List ℕ → Option PythonVersion
unfolding run behind next_byte
literal_at text = do
  v ← parse_exact (run text)
  if is_terminator (next_byte (behind text)) then some v else none

-- The loop, one byte at a time, with whether the byte before is a version character.
unfoldable pub scan_from : Bool → List ℕ → Option PythonVersion
unfolding literal_at next_byte
scan_from inside [] = none
scan_from inside (b ∷ bs) =
    let rest = scan_from (is_version_char b) bs in
    if not (b == b'3') || not (next_byte bs == b'.') || inside
    then rest
    else elim (literal_at (b ∷ bs)) [ none ↦ rest | some v ↦ some v ]

unfoldable pub scan_for_version_string : List ℕ → Option PythonVersion
unfolding scan_from
scan_for_version_string bytes = scan_from false bytes

-- `read_only_data` with the section's offset and size, which the binary's headers give.
unfoldable pub read_only_data : Option (ℕ × ℕ) → List ℕ → Option (List ℕ)
read_only_data range bytes = do
  at ← range
  let end = min (min (at.0 + at.1) (u64_mod - 1)) (length bytes)
  if ltb at.0 end then some (take (end - at.0) (drop at.0 bytes)) else none

unfoldable pub scan_image_for_version : Option (ℕ × ℕ) → List ℕ → Option PythonVersion
unfolding read_only_data scan_for_version_string
scan_image_for_version range bytes = elim (read_only_data range bytes) [
  | none ↦ scan_for_version_string bytes
  | some ro ↦ elim (scan_for_version_string ro) [
    | none ↦ scan_for_version_string bytes
    | some v ↦ some v
  ]
]
