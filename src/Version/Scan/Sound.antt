-- ===== src/Version/Scan/Sound.antt =====
-- What the scanner returns stands in the image as a whole token.
use gc_scope.Base.{
  ℕ, ◌≡◌, refl, ap, Bool, true, false, not, ◌||◌, some, List, [], ◌∷◌, ◌++◌, ◌==◌, arith, All,
  Bool-cases, Option-cases, inl, inr,
}
use gc_scope.Version.{PythonVersion, is_version_char, is_terminator, parse_exact}
use gc_scope.Version.Scan.{run, behind, next_byte, literal_at, scan_from, scan_for_version_string}

-- Whether the text, behind a byte that is a version character or is not, ends in one.
unfoldable pub ends_inside : Bool → List ℕ → Bool
ends_inside inside [] = inside
ends_inside inside (b ∷ bs) = ends_inside (is_version_char b) bs

-- `text` is the literal `v` and what follows it.
pub record IsLiteral (v : PythonVersion) (literal after : List ℕ) : Type 0 where
  pub reads : parse_exact literal ≡ some v
  pub in_charset : All (λ b. is_version_char b ≡ true) literal
  pub terminated : is_terminator (next_byte after) ≡ true

-- An image holds the literal, behind no version character.
pub record Holds (inside : Bool) (image : List ℕ) (v : PythonVersion) : Type 0 where
  pub before : List ℕ
  pub literal : List ℕ
  pub after : List ℕ
  pub parts : image ≡ before ++ (literal ++ after)
  pub clear : ends_inside inside before ≡ false
  pub is_literal : IsLiteral v literal after

pub run-behind : (text : List ℕ) → text ≡ run text ++ behind text
unfolding run behind
run-behind [] = refl
run-behind (b ∷ bs) = ground (arith, run-behind bs)

run-All : (text : List ℕ) → All (λ b. is_version_char b ≡ true) (run text)
unfolding run
run-All [] = tt
run-All (b ∷ bs) = elim (Bool-cases (is_version_char b)) [
  | inl is ↦ rw is (is, run-All bs)
  | inr not_one ↦ rw not_one tt
]

pub literal_at-IsLiteral :
    (text : List ℕ) (v : PythonVersion)
    → literal_at text ≡ some v
    → IsLiteral v (run text) (behind text)
unfolding literal_at
literal_at-IsLiteral text v h = record {
  reads = ground arith;
  in_charset = run-All text;
  terminated = ground arith;
}

later-Holds :
    (inside : Bool) (b : ℕ) (bs : List ℕ) (v : PythonVersion)
    → Holds (is_version_char b) bs v
    → Holds inside (b ∷ bs) v
unfolding ends_inside
later-Holds inside b bs v h = record {
  before = b ∷ h.before;
  literal = h.literal;
  after = h.after;
  parts = ap (λ t. b ∷ t) h.parts;
  clear = h.clear;
  is_literal = h.is_literal;
}

here-Holds : (text : List ℕ) (v : PythonVersion) → literal_at text ≡ some v → Holds false text v
unfolding ends_inside
here-Holds text v h = record {
  before = [];
  literal = run text;
  after = behind text;
  parts = run-behind text;
  clear = refl;
  is_literal = literal_at-IsLiteral text v h;
}

scan_from-Holds :
    (inside : Bool) (image : List ℕ) (v : PythonVersion)
    → scan_from inside image ≡ some v
    → Holds inside image v
unfolding scan_from
scan_from-Holds inside [] v h = absurd (ground arith)
scan_from-Holds true (b ∷ bs) v h =
    later-Holds true b bs v (scan_from-Holds (is_version_char b) bs v (ground (arith, h)))
scan_from-Holds false (b ∷ bs) v h =
    elim (Bool-cases (not (b == b'3') || not (next_byte bs == b'.') || false)) [
      | inl skip ↦
          later-Holds false b bs v
            (scan_from-Holds (is_version_char b) bs v (ground (arith, h, skip)))
      | inr start ↦ elim (Option-cases (literal_at (b ∷ bs))) [
        | inl fails ↦
            later-Holds false b bs v
              (scan_from-Holds (is_version_char b) bs v (ground (arith, h, start, fails)))
        | inr (w, reads) ↦ here-Holds (b ∷ bs) v (ground (arith, h, start, reads))
      ]
    ]

-- A version that the scanner reports stands in the image as a whole token: a text that the grammar
-- reads as that version, behind no version character, and followed by a terminator or by the end
-- of the image.
pub scan_for_version_string-Holds :
    (image : List ℕ) (v : PythonVersion)
    → scan_for_version_string image ≡ some v
    → Holds false image v
unfolding scan_for_version_string
scan_for_version_string-Holds image v h = scan_from-Holds false image v h
