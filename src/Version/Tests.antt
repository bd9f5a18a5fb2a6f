-- ===== src/Version/Tests.antt =====
-- Runs of the version grammar, the scanner and the detection.
use gc_scope.Base.{
  ℕ, ◌≡◌, refl, Option, none, some, List, [], ◌∷◌, ◌++◌, arith, inr, true, false, if◌then◌else◌,
  ◌==◌, drop,
}
use gc_scope.Version.{
  PythonVersion, print, print_u8, print_level, parse_exact, is_version_char, is_terminator,
}
use gc_scope.Version.Grammar.{IsVersion, parse_exact-print}
use gc_scope.Version.Ranges.{parse_exact-IsVersion}
use gc_scope.Version.Scan.{next_byte, literal_at, scan_for_version_string}
use gc_scope.Version.Scan.Sound.{Holds, ends_inside, scan_for_version_string-Holds}
use gc_scope.Version.Scan.Finds.{NoneStarts, literal_at-Starts, scan_for_version_string-print}
use gc_scope.Version.{from_hex, to_hex}
use gc_scope.Version.Hex.{from_hex-to_hex}
use gc_scope.Version.Detect.{Target, three, detect, Answered, detect_answers}

abbrev beta : PythonVersion
beta = record { major = 3; minor = 14; micro = 0; release_level = 0xB; serial = 1 }

abbrev released : PythonVersion
released = record { major = 3; minor = 10; micro = 16; release_level = 0xF; serial = 0 }

beta-IsVersion : IsVersion beta
beta-IsVersion = record {
  major_u8 = omega arith;
  minor_u8 = omega arith;
  micro_u8 = omega arith;
  level = inr (omega arith, omega arith);
  serial_nibble = omega arith;
}

-- `3.14.0b1`, `3.10.16+`, and a build tag behind a literal with a letter before it.
abbrev beta_text : List ℕ
beta_text = b'3' ∷ b'.' ∷ b'1' ∷ b'4' ∷ b'.' ∷ b'0' ∷ b'b' ∷ b'1' ∷ []

abbrev image : List ℕ
image = b'v' ∷ b'1' ∷ b'3' ∷ b'.' ∷ 0 ∷ b'3' ∷ b'.' ∷ b'1' ∷ b'0' ∷ b'.' ∷ b'1' ∷ b'6' ∷ b'+' ∷ []

beta_prints : print beta ≡ beta_text
unfolding print print_u8 print_level
beta_prints = refl

parse_exact-print_example : parse_exact (print beta) ≡ some beta
parse_exact-print_example = parse_exact-print beta beta-IsVersion

beta_reads : parse_exact beta_text ≡ some beta
unfolding parse_exact
beta_reads = refl

parse_exact-IsVersion_example : IsVersion beta
parse_exact-IsVersion_example = parse_exact-IsVersion beta_text beta beta_reads

image_scans : scan_for_version_string image ≡ some released
unfolding scan_for_version_string is_version_char parse_exact is_terminator
image_scans = refl

scan_for_version_string-Holds_example : Holds false image released
scan_for_version_string-Holds_example = scan_for_version_string-Holds image released image_scans

-- A `3.` at which no literal starts stands before one.
abbrev banner : List ℕ
banner = b'3' ∷ b'.' ∷ b'x' ∷ b' ' ∷ []

abbrev following : List ℕ
following = print beta ++ (b'+' ∷ (b'x' ∷ []))

banner-NoneStarts : NoneStarts false banner following
unfolding is_version_char parse_exact is_terminator literal_at
banner-NoneStarts = (
  literal_at-Starts false (banner ++ following) refl,
  (
    literal_at-Starts true (drop 1 banner ++ following) refl,
    (
      literal_at-Starts true (drop 2 banner ++ following) refl,
      (literal_at-Starts false (drop 3 banner ++ following) refl, tt),
    ),
  ),
)

scan_for_version_string-print_example : scan_for_version_string (banner ++ following) ≡ some beta
unfolding ends_inside is_version_char is_terminator next_byte
scan_for_version_string-print_example =
    scan_for_version_string-print banner (b'+' ∷ (b'x' ∷ [])) beta beta-IsVersion refl
      banner-NoneStarts refl refl

-- A process with two modules: the image of the first holds a literal, and the second resolves the
-- symbol.
abbrev hex_bytes : List ℕ
hex_bytes = 0xb1 ∷ 0 ∷ 14 ∷ 3 ∷ 0 ∷ 0 ∷ 0 ∷ 0 ∷ []

abbrev at_symbol : ℕ → ℕ → Option (List ℕ)
at_symbol addr len = some hex_bytes

abbrev second_resolves : List ℕ → ℕ → Option ℕ
second_resolves bytes base = if base == 2 then some 4096 else none

abbrev target : Target ℕ
target = record {
  find_python_modules = some ((10, 1) ∷ (11, 2) ∷ []);
  read_memory = at_symbol;
  read_file = λ path. some image;
  resolve_symbol = second_resolves;
  ro_data_range = λ bytes. none;
}

target_detected : detect target ≡ some beta
unfolding detect three
target_detected = refl

detect_answers_example :
    (beta.major ≡ 3)
    × ((modules : List (ℕ × ℕ)) × (target.find_python_modules ≡ some modules)
        × Answered target modules beta)
detect_answers_example = detect_answers target beta target_detected

from_hex-to_hex_example : from_hex (to_hex beta) ≡ some beta
from_hex-to_hex_example = from_hex-to_hex beta (record {
  major_u8 = omega arith;
  minor_u8 = omega arith;
  micro_u8 = omega arith;
  level_nibble = omega arith;
  serial_nibble = omega arith;
})
