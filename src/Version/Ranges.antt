-- ===== src/Version/Ranges.antt =====
-- What the version grammar and `from_hex` return fits `PY_VERSION_HEX`.
use gc_scope.Base.{
  ℕ, ◌+◌, ◌-◌, ◌*◌, ◌≤◌, ◌≡◌, Bool, true, false, ◌||◌, ◌⊎◌, inl, inr, some, List, [], ◌∷◌,
  bind-some, Bool-cases, ◌==◌, if◌then◌else◌, arith,
}
use gc_scope.Version.{
  PythonVersion, digits_from, parse_digits, expect, parse_serial, parse_level, parse_exact,
}
use gc_scope.Version.Grammar.{IsVersion}

digits_from-le :
    (n : ℕ) (started : Bool) (cs : List ℕ) (r : ℕ × List ℕ)
    → n ≤ 255
    → digits_from n started cs ≡ some r
    → r.0 ≤ 255
unfolding digits_from
digits_from-le n started [] r h e = ground arith
digits_from-le n started (c ∷ cs) r h e =
    ground (arith, digits_from-le (n * 10 + (c - b'0')) true cs r)

parse_digits-le : (cs : List ℕ) (r : ℕ × List ℕ) → parse_digits cs ≡ some r → r.0 ≤ 255
unfolding parse_digits
parse_digits-le cs r e = digits_from-le 0 false cs r (omega arith) e

parse_serial-level :
    (level : ℕ) (cs : List ℕ) (r : ℕ × ℕ × List ℕ) → parse_serial level cs ≡ some r → r.0 ≡ level
unfolding parse_serial
parse_serial-level level cs r e =
    let (s, is_s, e1) = bind-some (parse_digits cs) _ r e in ground (arith, e1)

-- A final release has serial 0, and no other level but those of a pre-release is read.
parse_level-level :
    (cs : List ℕ) (r : ℕ × ℕ × List ℕ)
    → parse_level cs ≡ some r
    → ((r.0 ≡ 0xF) × (r.1 ≡ 0)) ⊎ ((0xA ≤ r.0) × (r.0 ≤ 0xC))
unfolding parse_level
parse_level-level [] r e = inl (ground arith, ground arith)
parse_level-level (c ∷ cs) r e =
    let letter : ℕ = if c == b'a' then 0xA else 0xB in
    elim (Bool-cases (c == b'a' || c == b'b')) [
      | inl is_letter ↦
          let at = parse_serial-level letter cs r (ground (arith, e, is_letter)) in
          let range : (0xA ≤ letter) × (letter ≤ 0xC) = (ground arith, ground arith) in
          inr (omega (arith, at, range.0), omega (arith, at, range.1))
      | inr no_letter ↦ elim (Bool-cases (c == b'r')) [
        | inl is_r ↦
            let (cs', is_cs, e1) =
              bind-some (expect b'c' cs) (parse_serial 0xC) r
                (ground (arith, e, no_letter, is_r)) in
            let at = parse_serial-level 0xC cs' r e1 in inr (omega arith, omega arith)
        | inr no_r ↦ inl (ground (arith, e, no_letter, no_r), ground (arith, e, no_letter, no_r))
      ]
    ]

-- Whatever text the grammar reads, the version fits a `PY_VERSION_HEX` and is a release, which
-- has no serial, or an alpha, beta or candidate.
pub parse_exact-IsVersion :
    (text : List ℕ) (v : PythonVersion) → parse_exact text ≡ some v → IsVersion v
unfolding parse_exact
parse_exact-IsVersion text v e =
    let (major, is_major, e1) = bind-some (parse_digits text) _ v e in
    let (after_major, _, e2) = bind-some (expect b'.' major.1) _ v e1 in
    let (minor, is_minor, e3) = bind-some (parse_digits after_major) _ v e2 in
    let (after_minor, _, e4) = bind-some (expect b'.' minor.1) _ v e3 in
    let (micro, is_micro, e5) = bind-some (parse_digits after_minor) _ v e4 in
    let (level, is_level, e6) = bind-some (parse_level micro.1) _ v e5 in
    let major_le = parse_digits-le text major is_major in
    let minor_le = parse_digits-le after_major minor is_minor in
    let micro_le = parse_digits-le after_minor micro is_micro in
    let levels = parse_level-level micro.1 level is_level in
    record {
      major_u8 = ground (arith, e6, major_le);
      minor_u8 = ground (arith, e6, minor_le);
      micro_u8 = ground (arith, e6, micro_le);
      level = ground (arith, e6, levels);
      serial_nibble = ground (arith, e6);
    }
