-- ===== src/Memory/Columns.antt =====
-- The hex columns of a dump are read back.
use gc_scope.Base.{
  ℕ, zero, suc, ◌+◌, ◌-◌, ◌*◌, ◌/◌, ◌%◌, ◌<◌, ◌≡◌, refl, sym, ap, ◌∙◌, false, List, [], ◌∷◌, ◌++◌,
  ◌==◌, ltb, if◌then◌else◌, length, take, drop, All, arith,
}
use mathlib.Core.List.{append-nil, append_assoc}
use gc_scope.Memory.Dump.{hex_digit, hex_byte, join_hex, spaces, pad_right, hex_columns}

abbrev pub digit_value : ℕ → ℕ
digit_value c = if ltb c b'a' then c - b'0' else c - b'a' + 10

-- The bytes of a text of hex digits in pairs, with spaces between.
unfoldable pub read_hex : List ℕ → List ℕ
read_hex [] = []
read_hex (c ∷ []) = []
read_hex (c ∷ d ∷ cs) =
    let skipped = read_hex (d ∷ cs) in
    let rest = read_hex cs in
    if c == b' ' then skipped else (digit_value c * 16 + digit_value d) ∷ rest

digit_value-hex_digit : (n : ℕ) → n < 16 → digit_value (hex_digit n) ≡ n
digit_value-hex_digit n h = ground (arith, h)

hex_digit-seen : (n : ℕ) → n < 16 → (hex_digit n == b' ') ≡ false
hex_digit-seen n h = ground (arith, h)

read_hex-byte :
    (b : ℕ) (rest : List ℕ) → b < 256 → read_hex (hex_byte b ++ rest) ≡ b ∷ read_hex rest
unfolding read_hex
read_hex-byte b rest h =
    let high = digit_value-hex_digit (b / 16) (omega (arith, h)) in
    let low = digit_value-hex_digit (b % 16) (omega arith) in
    let seen = hex_digit-seen (b / 16) (omega (arith, h)) in ground (arith, seen, high, low)

read_hex-space : (rest : List ℕ) → read_hex (b' ' ∷ rest) ≡ read_hex rest
unfolding read_hex
read_hex-space [] = refl
read_hex-space (c ∷ rest) = refl

read_hex-spaces : (n : ℕ) (rest : List ℕ) → read_hex (spaces n ++ rest) ≡ read_hex rest
unfolding spaces
read_hex-spaces zero rest = refl
read_hex-spaces (suc n) rest = read_hex-space (spaces n ++ rest) ∙ read_hex-spaces n rest

read_hex-join_hex :
    (bs rest : List ℕ)
    → All (λ b. b < 256) bs
    → read_hex (join_hex bs ++ rest) ≡ bs ++ read_hex rest
unfolding join_hex
read_hex-join_hex [] rest h = refl
read_hex-join_hex (b ∷ []) rest h = read_hex-byte b rest h.0
read_hex-join_hex (b ∷ c ∷ bs) rest h =
    read_hex-byte b (b' ' ∷ (join_hex (c ∷ bs) ++ rest)) h.0
    ∙ ap (λ t. b ∷ t)
        (read_hex-space (join_hex (c ∷ bs) ++ rest) ∙ read_hex-join_hex (c ∷ bs) rest h.1)

take-drop : (n : ℕ) (xs : List ℕ) → take n xs ++ drop n xs ≡ xs
take-drop zero xs = refl
take-drop (suc n) [] = refl
take-drop (suc n) (x ∷ xs) = ap (λ t. x ∷ t) (take-drop n xs)

take-All : (n : ℕ) (xs : List ℕ) → All (λ b. b < 256) xs → All (λ b. b < 256) (take n xs)
take-All zero xs h = tt
take-All (suc n) [] h = tt
take-All (suc n) (x ∷ xs) h = (h.0, take-All n xs h.1)

drop-All : (n : ℕ) (xs : List ℕ) → All (λ b. b < 256) xs → All (λ b. b < 256) (drop n xs)
drop-All zero xs h = h
drop-All (suc n) [] h = tt
drop-All (suc n) (x ∷ xs) h = drop-All n xs h.1

-- The second group of a row, behind the first.
abbrev second_group : List ℕ → List ℕ
second_group s = if length (join_hex s) == 0 then [] else b' ' ∷ b' ' ∷ join_hex s

read_hex-second_group : (s : List ℕ) → All (λ b. b < 256) s → read_hex (second_group s) ≡ s
unfolding join_hex read_hex
read_hex-second_group [] h = refl
read_hex-second_group (b ∷ []) h =
    read_hex-space (b' ' ∷ hex_byte b) ∙ read_hex-space (hex_byte b) ∙ read_hex-byte b [] h.0
read_hex-second_group (b ∷ c ∷ s) h =
    let text = join_hex (b ∷ c ∷ s) in
    let more : second_group (b ∷ c ∷ s) ≡ b' ' ∷ b' ' ∷ text = ground arith in
    ap read_hex more
    ∙ read_hex-space (b' ' ∷ text)
    ∙ read_hex-space text
    ∙ ap read_hex (sym (append-nil text))
    ∙ read_hex-join_hex (b ∷ c ∷ s) [] h
    ∙ append-nil (b ∷ c ∷ s)

-- The hex columns of a row, read as pairs of digits, are the bytes of the row, in their order,
-- however many it has and however far its first group is padded.
pub read_hex-hex_columns :
    (chunk : List ℕ) → All (λ b. b < 256) chunk → read_hex (hex_columns chunk) ≡ chunk
unfolding hex_columns pad_right
read_hex-hex_columns chunk h =
    let first = take 8 chunk in
    let second = drop 8 chunk in
    let text = join_hex first in
    let gap = spaces (23 - length text) in
    ap read_hex (append_assoc text gap (second_group second))
    ∙ read_hex-join_hex first (gap ++ second_group second) (take-All 8 chunk h)
    ∙ ap (λ t. first ++ t)
        (read_hex-spaces (23 - length text) (second_group second)
          ∙ read_hex-second_group second (drop-All 8 chunk h))
    ∙ take-drop 8 chunk
