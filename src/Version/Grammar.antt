-- ===== src/Version/Grammar.antt =====
-- The version grammar reads what `Display` prints, and nothing outside the ranges of
-- `PY_VERSION_HEX`.
use gc_scope.Base.{
  ℕ, ◌≤◌, ◌≡◌, refl, Bool, false, ◌⊎◌, inl, inr, some, List, [], ◌∷◌, ◌++◌, ltb, arith, ◌≡◌,
}
use gc_scope.Version.{
  PythonVersion, print_u8, print_level, print, is_digit, digits_from, parse_digits, expect,
  parse_serial, parse_level, parse_exact,
}

-- A released version or a pre-release, as `PY_VERSION_HEX` can hold it.
pub record IsVersion (v : PythonVersion) : Type 0 where
  pub major_u8 : v.major ≤ 255
  pub minor_u8 : v.minor ≤ 255
  pub micro_u8 : v.micro ≤ 255
  pub level :
      (v.release_level ≡ 0xF × v.serial ≡ 0) ⊎ ((0xA ≤ v.release_level) × (v.release_level ≤ 0xC))
  pub serial_nibble : v.serial ≤ 0xF

-- Whether the text goes on with a digit.
unfoldable pub starts_digit : List ℕ → Bool
starts_digit [] = false
starts_digit (c ∷ cs) = is_digit c

pub parse_digits-print_u8 :
    (n : ℕ) (rest : List ℕ)
    → n ≤ 255
    → starts_digit rest ≡ false
    → parse_digits (print_u8 n ++ rest) ≡ some (n, rest)
unfolding parse_digits digits_from print_u8 is_digit starts_digit
parse_digits-print_u8 n [] h nd = ground arith
parse_digits-print_u8 n (c ∷ cs) h nd = ground arith

parse_digits-print_u8_end : (n : ℕ) → n ≤ 255 → parse_digits (print_u8 n) ≡ some (n, [])
unfolding parse_digits digits_from print_u8 is_digit
parse_digits-print_u8_end n h = ground arith

print_level-starts_digit : (level serial : ℕ) → starts_digit (print_level level serial) ≡ false
unfolding print_level is_digit starts_digit
print_level-starts_digit level serial = ground arith

dot-starts_digit : (cs : List ℕ) → starts_digit (b'.' ∷ cs) ≡ false
unfolding starts_digit is_digit
dot-starts_digit cs = refl

parse_level-print_level :
    (v : PythonVersion)
    → IsVersion v
    → parse_level (print_level v.release_level v.serial) ≡ some (v.release_level, v.serial, [])
unfolding parse_level print_level parse_serial expect
parse_level-print_level v h =
    let small = h.serial_nibble in
    let serial = parse_digits-print_u8_end v.serial (omega arith) in
    elim h.level [
      | inl final ↦ ground (arith, final.0, final.1)
      | inr pre ↦ ground (arith, pre.0, pre.1, serial)
    ]

-- Every version that a `PY_VERSION_HEX` can hold, a release or an alpha, beta or candidate, prints
-- as text that the grammar reads back as the same version.
pub parse_exact-print : (v : PythonVersion) → IsVersion v → parse_exact (print v) ≡ some v
unfolding parse_exact print expect
parse_exact-print v h =
    let micro_tail = print_level v.release_level v.serial in
    let minor_tail = b'.' ∷ (print_u8 v.micro ++ micro_tail) in
    let major_tail = b'.' ∷ (print_u8 v.minor ++ minor_tail) in
    let major = parse_digits-print_u8 v.major major_tail h.major_u8 (dot-starts_digit _) in
    let minor = parse_digits-print_u8 v.minor minor_tail h.minor_u8 (dot-starts_digit _) in
    let micro =
      parse_digits-print_u8 v.micro micro_tail h.micro_u8
        (print_level-starts_digit v.release_level v.serial) in
    let level = parse_level-print_level v h in
    let nibble : ltb 0xF v.serial ≡ false = ground (arith, h.serial_nibble) in
    rw major (rw minor (rw micro (rw level (rw nibble refl))))
