-- ===== src/Version.antt =====
-- src/remote_debugging/version.rs: the version of a Python, as `PY_VERSION_HEX` and as text, and
-- where it is found in a process. Text is a list of codes; a byte string is a list of bytes.
pub mod Grammar
pub mod Ranges
pub mod Hex
pub mod Scan
pub mod Detect
mod Tests
use gc_scope.Base.{
  ℕ, ◌+◌, ◌-◌, ◌*◌, ◌/◌, ◌%◌, ◌^◌, Bool, true, false, not, ◌&&◌, ◌||◌, Option, none, some, List, [],
  ◌∷◌, ◌++◌, ◌>>=◌, ltb, leb, ◌==◌, if◌then◌else◌, length, take, drop,
}
use gc_scope.Base.Word.{u64_mod, from_le_bytes}
use Prim.Native.Nat.{min}

pub record PythonVersion : Type 0 where
  pub major : ℕ
  pub minor : ℕ
  pub micro : ℕ
  pub release_level : ℕ
  pub serial : ℕ

unfoldable pub from_hex : ℕ → Option PythonVersion
from_hex v =
    let major = v / 2 ^ 24 % 256 in
    let minor = v / 2 ^ 16 % 256 in
    if major == 0 && minor == 0
    then none
    else some (record {
      major = major;
      minor = minor;
      micro = v / 2 ^ 8 % 256;
      release_level = v / 16 % 16;
      serial = v % 16;
    })

-- The five fields have 8, 8, 8, 4 and 4 bits, which do not overlap.
unfoldable pub to_hex : PythonVersion → ℕ
to_hex v = v.major * 2 ^ 24 + v.minor * 2 ^ 16 + v.micro * 2 ^ 8 + v.release_level * 16 + v.serial

-- `{}` of a `u8`.
unfoldable pub print_u8 : ℕ → List ℕ
print_u8 n =
    if ltb n 10
    then (b'0' + n) ∷ []
    else if ltb n 100
    then (b'0' + n / 10) ∷ (b'0' + n % 10) ∷ []
    else (b'0' + n / 100) ∷ (b'0' + n / 10 % 10) ∷ (b'0' + n % 10) ∷ []

-- `{:x}` of a nibble.
unfoldable pub print_hex : ℕ → List ℕ
print_hex n = if ltb n 10 then (b'0' + n) ∷ [] else (b'a' + (n - 10)) ∷ []

-- What follows the three numbers.
unfoldable pub print_level : ℕ → ℕ → List ℕ
unfolding print_u8 print_hex
print_level level serial =
    if level == 0xF
    then []
    else if level == 0xA
    then b'a' ∷ print_u8 serial
    else if level == 0xB
    then b'b' ∷ print_u8 serial
    else if level == 0xC
    then b'r' ∷ b'c' ∷ print_u8 serial
    else b'-' ∷ (print_hex level ++ print_u8 serial)

-- `Display`.
unfoldable pub print : PythonVersion → List ℕ
unfolding print_u8 print_level
print v =
    print_u8 v.major
    ++ (b'.'
        ∷ (print_u8 v.minor ++ (b'.' ∷ (print_u8 v.micro ++ print_level v.release_level v.serial))))

unfoldable pub is_digit : ℕ → Bool
is_digit c = leb b'0' c && leb c b'9'

unfoldable pub is_version_char : ℕ → Bool
unfolding is_digit
is_version_char b = is_digit b || b == b'.' || b == b'a' || b == b'b' || b == b'c' || b == b'r'

unfoldable pub is_terminator : ℕ → Bool
is_terminator b =
    b == 0 || b == b' ' || b == b'(' || b == 10 || b == 13 || b == 9 || b == b'"' || b == b'+'

-- The loop of `parse_digits`, from the number read so far and whether a digit was read: the number
-- and the characters left. A number past a `u8` is refused.
unfoldable pub digits_from : ℕ → Bool → List ℕ → Option (ℕ × List ℕ)
unfolding is_digit
digits_from n started [] = if started then some (n, []) else none
digits_from n started (c ∷ cs) =
    let rest = digits_from (n * 10 + (c - b'0')) true cs in
    if is_digit c
    then (if leb (n * 10) 255 && leb (n * 10 + (c - b'0')) 255 then rest else none)
    else if started
    then some (n, c ∷ cs)
    else none

unfoldable pub parse_digits : List ℕ → Option (ℕ × List ℕ)
unfolding digits_from
parse_digits cs = digits_from 0 false cs

-- `chars.next()?.1 != '.'` and the like: the characters behind the one expected.
unfoldable pub expect : ℕ → List ℕ → Option (List ℕ)
expect x [] = none
expect x (c ∷ cs) = if c == x then some cs else none

-- A serial behind its release level.
unfoldable pub parse_serial : ℕ → List ℕ → Option (ℕ × ℕ × List ℕ)
unfolding parse_digits
parse_serial level cs = do s ← parse_digits cs; some (level, s.0, s.1)

-- The release level and the serial, and the characters left.
unfoldable pub parse_level : List ℕ → Option (ℕ × ℕ × List ℕ)
unfolding parse_serial expect
parse_level [] = some (0xF, 0, [])
parse_level (c ∷ cs) =
    if c == b'a' || c == b'b'
    then parse_serial (if c == b'a' then 0xA else 0xB) cs
    else if c == b'r'
    then (expect b'c' cs >>= parse_serial 0xC)
    else some (0xF, 0, c ∷ cs)

abbrev is_nil : List ℕ → Bool
is_nil [] = true
is_nil (c ∷ cs) = false

unfoldable pub parse_exact : List ℕ → Option PythonVersion
unfolding parse_digits expect parse_level
parse_exact chars = do
  major ← parse_digits chars
  after_major ← expect b'.' major.1
  minor ← parse_digits after_major
  after_minor ← expect b'.' minor.1
  micro ← parse_digits after_minor
  level ← parse_level micro.1
  if not (is_nil level.2) || ltb 0xF level.1
      then none
      else some (record {
        major = major.0;
        minor = minor.0;
        micro = micro.0;
        release_level = level.0;
        serial = level.1;
      })
