-- ===== src/Version/Scan/Finds.antt =====
-- The scanner finds a literal that stands in the image as a token of its own.
use gc_scope.Base.{
  ℕ, none, not, ◌||◌, Option-cases, Bool-cases, ◌≡◌, refl, sym, ap, ◌∙◌, Bool, true, false, some,
  List, [], ◌∷◌, ◌++◌, ◌==◌, arith, inl, inr,
}
use gc_scope.Version.{PythonVersion, print, print_u8, print_level, is_version_char, is_terminator}
use gc_scope.Version.Grammar.{IsVersion, parse_exact-print}
use gc_scope.Version.Scan.{run, behind, next_byte, literal_at, scan_from, scan_for_version_string}
use gc_scope.Version.Scan.Sound.{ends_inside, IsLiteral, run-behind, literal_at-IsLiteral}
use gc_scope.Version.Scan.Charset.{InCharset, print-InCharset, terminator_not_in_charset}

-- A run of version characters ends at the first other byte, or at the end.
run-append :
    (text after : List ℕ)
    → InCharset text
    → is_terminator (next_byte after) ≡ true
    → run (text ++ after) ≡ text
unfolding run next_byte
run-append [] [] h end = refl
run-append [] (b ∷ bs) h end = rw (terminator_not_in_charset b end) refl
run-append (c ∷ cs) after h end = rw (h.0) (ap (λ t. c ∷ t) (run-append cs after h.1 end))

behind-append :
    (text after : List ℕ)
    → InCharset text
    → is_terminator (next_byte after) ≡ true
    → behind (text ++ after) ≡ after
unfolding behind next_byte
behind-append [] [] h end = refl
behind-append [] (b ∷ bs) h end = rw (terminator_not_in_charset b end) refl
behind-append (c ∷ cs) after h end = rw (h.0) (behind-append cs after h.1 end)

-- A literal is read where it starts.
pub literal_at-append :
    (v : PythonVersion) (literal after : List ℕ)
    → IsLiteral v literal after
    → literal_at (literal ++ after) ≡ some v
unfolding literal_at
literal_at-append v literal after h = rw (run-append literal after h.in_charset h.terminated) (
    rw (behind-append literal after h.in_charset h.terminated)
      (rw (h.reads) (rw (h.terminated) refl)))

-- A literal of Python 3 starts a text, behind no version character.
pub record Starts (inside : Bool) (text : List ℕ) : Type 0 where
  pub clear : inside ≡ false
  pub tail : List ℕ
  pub three : text ≡ b'3' ∷ (b'.' ∷ tail)
  pub version : PythonVersion
  pub literal : List ℕ
  pub after : List ℕ
  pub parts : text ≡ literal ++ after
  pub is_literal : IsLiteral version literal after

-- No literal starts at a byte of `before`, where `text` follows.
abbrev pub NoneStarts : Bool → List ℕ → List ℕ → Type 0
NoneStarts inside [] text = Unit
NoneStarts inside (b ∷ bs) text =
    (¬ Starts inside (b ∷ (bs ++ text))) × NoneStarts (is_version_char b) bs text

-- Where none is read, none starts.
pub literal_at-Starts :
    (inside : Bool) (text : List ℕ) → literal_at text ≡ none → ¬ Starts inside text
literal_at-Starts inside text fails s =
    let reads = literal_at-append s.version s.literal s.after s.is_literal in
    let at : literal_at text ≡ some s.version = ap literal_at s.parts ∙ reads in
    absurd (cc (fails, at))

anchored :
    (inside : Bool) (b : ℕ) (bs : List ℕ) (v : PythonVersion)
    → (not (b == b'3') || not (next_byte bs == b'.') || inside) ≡ false
    → literal_at (b ∷ bs) ≡ some v
    → Starts inside (b ∷ bs)
unfolding next_byte
anchored inside b [] v anchor reads = absurd (ground (arith, anchor))
anchored inside b (c ∷ bs) v anchor reads = record {
  clear = ground (arith, anchor);
  tail = bs;
  three = ground (arith, anchor);
  version = v;
  literal = run (b ∷ (c ∷ bs));
  after = behind (b ∷ (c ∷ bs));
  parts = run-behind (b ∷ (c ∷ bs));
  is_literal = literal_at-IsLiteral (b ∷ (c ∷ bs)) v reads;
}

-- Bytes at which no literal starts are passed over, with any `3.` among them.
scan_from-append :
    (inside : Bool) (before text : List ℕ)
    → NoneStarts inside before text
    → scan_from inside (before ++ text) ≡ scan_from (ends_inside inside before) text
unfolding scan_from ends_inside
scan_from-append inside [] text h = refl
scan_from-append inside (b ∷ bs) text h =
    let rest = scan_from-append (is_version_char b) bs text h.1 in
    let skips = not (b == b'3') || not (next_byte (bs ++ text) == b'.') || inside in
    elim (Bool-cases skips) [
      | inl skip ↦ ground (arith, skip, rest)
      | inr anchor ↦ elim (Option-cases (literal_at (b ∷ (bs ++ text)))) [
        | inl fails ↦ ground (arith, anchor, fails, rest)
        | inr (v, reads) ↦ absurd (h.0 (anchored inside b (bs ++ text) v anchor reads))
      ]
    ]

-- A literal that starts with `3.` is found where it starts.
scan_from-literal :
    (bs : List ℕ) (v : PythonVersion)
    → next_byte bs ≡ b'.'
    → literal_at (b'3' ∷ bs) ≡ some v
    → scan_from false (b'3' ∷ bs) ≡ some v
unfolding scan_from
scan_from-literal bs v dot reads = rw dot (rw reads refl)

print_u8_three : (n : ℕ) → n ≡ 3 → print_u8 n ≡ b'3' ∷ []
unfolding print_u8
print_u8_three n h = ground (arith, h)

print_three :
    (v : PythonVersion) (rest : List ℕ)
    → v.major ≡ 3
    → (tail : List ℕ) × (print v ++ rest ≡ b'3' ∷ (b'.' ∷ tail))
unfolding print
print_three v rest three =
    let micro = print_u8 v.micro ++ print_level v.release_level v.serial in
    let minor = print_u8 v.minor ++ (b'.' ∷ micro) in
    (
      minor ++ rest,
      ap (λ (d : List ℕ). (d ++ (b'.' ∷ minor)) ++ rest) (print_u8_three v.major three),
    )

-- The first version literal of Python 3 that stands as a token of its own is found: the print of a
-- version that a `PY_VERSION_HEX` can hold, behind no version character, and followed by a
-- terminator, whatever comes then, or by the end of the image. No other literal of Python 3 starts
-- before it as a token, but a `3.` that starts none may.
pub scan_for_version_string-print :
    (before after : List ℕ) (v : PythonVersion)
    → IsVersion v
    → v.major ≡ 3
    → NoneStarts false before (print v ++ after)
    → ends_inside false before ≡ false
    → is_terminator (next_byte after) ≡ true
    → scan_for_version_string (before ++ (print v ++ after)) ≡ some v
unfolding scan_for_version_string next_byte
scan_for_version_string-print before after v h three first clear stop =
    let text = print v ++ after in
    let literal : IsLiteral v (print v) after = record {
      reads = parse_exact-print v h;
      in_charset = print-InCharset v h;
      terminated = stop;
    } in
    let (tail, starts) = print_three v after three in
    let at : literal_at (b'3' ∷ (b'.' ∷ tail)) ≡ some v =
      ap literal_at (sym starts) ∙ literal_at-append v (print v) after literal in
    let found = scan_from-literal (b'.' ∷ tail) v refl at in
    let step = scan_from-append false before text first in
    step ∙ (ap (λ i. scan_from i text) clear ∙ (ap (scan_from false) starts ∙ found))
