-- ===== src/Exporters/Json.antt =====
-- JSON as a grammar of text, for what the Chrome encoder writes.
use gc_scope.Base.{
  ℕ, zero, suc, ◌+◌, ◌/◌, ◌%◌, ◌^◌, ◌<◌, ◌≡◌, refl, sym, Bool, true, false, not, ◌&&◌, List, [],
  ◌∷◌, ◌++◌, ◌==◌, ltb, leb, if◌then◌else◌, All, All-append, arith, Bool-cases, inl, inr,
}
use mathlib.Core.Path.{subst}
use native.Mathlib.Nat.{pow-suc}
use gc_scope.Base.Int.{ℤ, pos, negsuc, InI64}
use gc_scope.Base.Text.{digits, decimal, decimal_int}

abbrev pub is_digit : ℕ → Bool
is_digit c = leb b'0' c && leb c b'9'

unfoldable pub is_fraction : List ℕ → Bool
is_fraction [] = true
is_fraction (c ∷ cs) = let rest = is_fraction cs in is_digit c && rest

-- A point and at least one digit.
unfoldable pub is_tail : ℕ → List ℕ → Bool
unfolding is_fraction
is_tail c [] = false
is_tail c (d ∷ ds) = c == b'.' && is_digit d && is_fraction ds

-- What may follow the first digit, which is not 0.
unfoldable pub is_rest : List ℕ → Bool
unfolding is_tail
is_rest [] = true
is_rest (c ∷ cs) = let rest = is_rest cs in if is_digit c then rest else is_tail c cs

-- A number with no sign and no exponent; it has no leading zero.
unfoldable pub is_unsigned : List ℕ → Bool
unfolding is_rest
is_unsigned [] = false
is_unsigned (c ∷ []) = is_digit c
is_unsigned (c ∷ d ∷ ds) = if c == b'0' then is_tail d ds else is_digit c && is_rest (d ∷ ds)

unfoldable pub is_number : List ℕ → Bool
unfolding is_unsigned
is_number [] = false
is_number (c ∷ cs) = if c == b'-' then is_unsigned cs else is_unsigned (c ∷ cs)

-- Characters that a string holds as they are.
abbrev pub is_plain : ℕ → Bool
is_plain c = leb 32 c && not (c == b'"') && not (c == 92)

unfoldable pub all_plain : List ℕ → Bool
all_plain [] = true
all_plain (c ∷ cs) = let rest = all_plain cs in is_plain c && rest

pub data Part : Type 0 where
  value : Part
  members : Part
  elements : Part

-- A text that starts with a part of JSON, and what follows it.
pub data Reads : Part → List ℕ → List ℕ → Type 0 where
  number : (t : List ℕ) {rest : List ℕ} → is_number t ≡ true → Reads value (t ++ rest) rest
  text :
      (t : List ℕ) {rest : List ℕ}
      → all_plain t ≡ true
      → Reads value (b'"' ∷ (t ++ (b'"' ∷ rest))) rest
  empty_object : {rest : List ℕ} → Reads value (123 ∷ 125 ∷ rest) rest
  object : {t rest : List ℕ} → Reads members t (125 ∷ rest) → Reads value (123 ∷ t) rest
  empty_array : {rest : List ℕ} → Reads value (91 ∷ 93 ∷ rest) rest
  array : {t rest : List ℕ} → Reads elements t (93 ∷ rest) → Reads value (91 ∷ t) rest
  line_before : {t rest : List ℕ} → Reads value t rest → Reads value (10 ∷ t) rest
  line_after : {t rest : List ℕ} → Reads value t (10 ∷ rest) → Reads value t rest
  member :
      (key : List ℕ) {t rest : List ℕ}
      → all_plain key ≡ true
      → Reads value t rest
      → Reads members (b'"' ∷ (key ++ (b'"' ∷ b':' ∷ t))) rest
  more_members :
      (key : List ℕ) {t u rest : List ℕ}
      → all_plain key ≡ true
      → Reads value t (b',' ∷ u)
      → Reads members u rest
      → Reads members (b'"' ∷ (key ++ (b'"' ∷ b':' ∷ t))) rest
  element : {t rest : List ℕ} → Reads value t rest → Reads elements t rest
  more_elements :
      {t u rest : List ℕ} → Reads value t (b',' ∷ u) → Reads elements u rest → Reads elements t rest

-- A whole text is a JSON document.
abbrev pub IsJson : List ℕ → Type 0
IsJson t = Reads value t []

-- Digits with no leading zero.
pub record Leads (t : List ℕ) : Type 0 where
  pub first : ℕ
  pub rest : List ℕ
  pub is : t ≡ first ∷ rest
  pub nonzero : (first == b'0') ≡ false
  pub digit : is_digit first ≡ true
  pub digits_only : All (λ c. is_digit c ≡ true) rest

digits-Leads : (fuel n : ℕ) → 0 < n → n < 10 ^ fuel → Leads (digits fuel n)
unfolding digits
digits-Leads zero n h lt = absurd (omega (arith, h, lt))
digits-Leads (suc fuel) n h lt = elim (Bool-cases (ltb n 10)) [
  | inl small ↦
      let is : digits (suc fuel) n ≡ (b'0' + n) ∷ [] = ground (arith, small) in
      record {
        first = b'0' + n;
        rest = [];
        is = is;
        nonzero = ground (arith, h, small);
        digit = ground (arith, small);
        digits_only = tt;
      }
  | inr large ↦
      let p = pow-suc 10 fuel in
      let d = digits-Leads fuel (n / 10) (ground (arith, large)) (omega (arith, lt, p)) in
      let last = b'0' + n % 10 in
      let is : digits (suc fuel) n ≡ d.first ∷ (d.rest ++ (last ∷ [])) =
        ground (arith, large, d.is) in
      record {
        first = d.first;
        rest = d.rest ++ (last ∷ []);
        is = is;
        nonzero = d.nonzero;
        digit = d.digit;
        digits_only = All-append _ d.rest (last ∷ []) d.digits_only (ground arith, tt);
      }
]

All-is_rest : (t : List ℕ) → All (λ c. is_digit c ≡ true) t → is_rest t ≡ true
unfolding is_rest
All-is_rest [] h = refl
All-is_rest (c ∷ t) h = ground (arith, h.0, All-is_rest t h.1)

digits-is_unsigned :
    (c : ℕ) (cs : List ℕ)
    → (c == b'0') ≡ false
    → is_digit c ≡ true
    → All (λ c. is_digit c ≡ true) cs
    → is_unsigned (c ∷ cs) ≡ true
unfolding is_unsigned
digits-is_unsigned c [] nz d h = d
digits-is_unsigned c (x ∷ cs) nz d h = ground (arith, nz, d, All-is_rest (x ∷ cs) h)

Leads-is_unsigned : (t : List ℕ) → Leads t → is_unsigned t ≡ true
Leads-is_unsigned t d =
    subst (λ u. is_unsigned u ≡ true) (sym d.is)
      (digits-is_unsigned d.first d.rest d.nonzero d.digit d.digits_only)

unsigned-is_number : (t : List ℕ) → is_unsigned t ≡ true → is_number t ≡ true
unfolding is_number is_unsigned
unsigned-is_number [] h = h
unsigned-is_number (c ∷ []) h = ground (arith, h)
unsigned-is_number (c ∷ d ∷ ds) h = ground (arith, h)

decimal-is_unsigned : (n : ℕ) → n < 10 ^ 20 → is_unsigned (decimal n) ≡ true
unfolding decimal digits is_unsigned
decimal-is_unsigned zero lt = refl
decimal-is_unsigned (suc n) lt =
    Leads-is_unsigned (digits 20 (suc n)) (digits-Leads 20 (suc n) (omega arith) lt)

-- What fits 64 bits is printed as a number.
pub decimal-is_number : (n : ℕ) → n < 10 ^ 20 → is_number (decimal n) ≡ true
decimal-is_number n lt = unsigned-is_number (decimal n) (decimal-is_unsigned n lt)

pub decimal_int-is_number : (z : ℤ) → InI64 z → is_number (decimal_int z) ≡ true
unfolding decimal_int is_number
decimal_int-is_number (pos n) h = decimal-is_number n (omega (arith, h.1))
decimal_int-is_number (negsuc n) h = decimal-is_unsigned (suc n) (omega (arith, h.0))
