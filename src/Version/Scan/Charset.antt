-- ===== src/Version/Scan/Charset.antt =====
-- A printed version is a run of version characters.
use gc_scope.Base.{
  ℕ, ◌+◌, ◌/◌, ◌%◌, ◌≤◌, ◌≡◌, refl, Bool, true, false, List, [], ◌∷◌, ◌++◌, ltb, ◌==◌,
  if◌then◌else◌, arith, All, All-append, inl, inr,
}
use gc_scope.Version.{
  PythonVersion, is_digit, print, print_u8, print_level, print_hex, is_version_char, is_terminator,
}
use gc_scope.Version.Grammar.{IsVersion}

abbrev pub InCharset : List ℕ → Type 0
InCharset text = All (λ b. is_version_char b ≡ true) text

if-InCharset :
    (b : Bool) (x y : List ℕ)
    → (b ≡ true → InCharset x)
    → (b ≡ false → InCharset y)
    → InCharset (if b then x else y)
if-InCharset true x y hx hy = hx refl
if-InCharset false x y hx hy = hy refl

digit_in_charset : (k : ℕ) → k ≤ 9 → is_version_char (b'0' + k) ≡ true
unfolding is_version_char is_digit
digit_in_charset k h = ground arith

print_u8-InCharset : (n : ℕ) → n ≤ 255 → InCharset (print_u8 n)
unfolding print_u8
print_u8-InCharset n h =
    let units = digit_in_charset (n % 10) (omega arith) in
    let two_digits = (b'0' + n / 10) ∷ (b'0' + n % 10) ∷ [] in
    let three_digits = (b'0' + n / 100) ∷ (b'0' + n / 10 % 10) ∷ (b'0' + n % 10) ∷ [] in
    if-InCharset (ltb n 10) ((b'0' + n) ∷ []) (if ltb n 100 then two_digits else three_digits)
      (λ one. (digit_in_charset n (ground (arith, one)), tt))
      (λ more.
        if-InCharset (ltb n 100) two_digits three_digits
          (λ two. (digit_in_charset (n / 10) (ground (arith, two)), (units, tt)))
          (λ three. (
            digit_in_charset (n / 100) (omega arith),
            (digit_in_charset (n / 10 % 10) (omega arith), (units, tt)),
          )))

print_level-InCharset :
    (v : PythonVersion) → IsVersion v → InCharset (print_level v.release_level v.serial)
unfolding print_level is_version_char
print_level-InCharset v h =
    let level = v.release_level in
    let small = h.serial_nibble in
    let digits = print_u8 v.serial in
    let serial = print_u8-InCharset v.serial (omega arith) in
    let other = b'-' ∷ (print_hex level ++ digits) in
    let candidate = if level == 0xC then b'r' ∷ (b'c' ∷ digits) else other in
    let beta = if level == 0xB then b'b' ∷ digits else candidate in
    let alpha = if level == 0xA then b'a' ∷ digits else beta in
    if-InCharset (level == 0xF) [] alpha (λ final. tt)
      (λ not_final.
        if-InCharset (level == 0xA) (b'a' ∷ digits) beta (λ _. (refl, serial))
          (λ not_alpha.
            if-InCharset (level == 0xB) (b'b' ∷ digits) candidate (λ _. (refl, serial))
              (λ not_beta.
                if-InCharset (level == 0xC) (b'r' ∷ (b'c' ∷ digits)) other
                  (λ _. (refl, (refl, serial)))
                  (λ not_candidate. absurd (elim h.level [
                    | inl final ↦ ground (arith, not_final, final.0)
                    | inr range ↦
                        ground (arith, range.0, range.1, not_alpha, not_beta, not_candidate)
                  ])))))

pub print-InCharset : (v : PythonVersion) → IsVersion v → InCharset (print v)
unfolding print is_version_char
print-InCharset v h =
    let level = print_level-InCharset v h in
    let micro = print_u8-InCharset v.micro h.micro_u8 in
    let minor = print_u8-InCharset v.minor h.minor_u8 in
    let major = print_u8-InCharset v.major h.major_u8 in
    All-append _ (print_u8 v.major) _ major (
      refl,
      All-append _ (print_u8 v.minor) _ minor (refl, All-append _ (print_u8 v.micro) _ micro level),
    )

pub terminator_not_in_charset : (b : ℕ) → is_terminator b ≡ true → is_version_char b ≡ false
unfolding is_terminator is_version_char is_digit
terminator_not_in_charset b h = ground arith
