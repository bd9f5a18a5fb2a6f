-- ===== src/Memory/Dump.antt =====
-- src/memory/dump.rs and src/memory/regions.rs: the text of a hex dump and of a region.
use gc_scope.Base.{
  ℕ, zero, suc, ◌+◌, ◌-◌, ◌/◌, ◌%◌, Bool, ◌&&◌, ◌||◌, Option, List, [], ◌∷◌, ◌++◌, map, ◌==◌, ltb,
  leb, if◌then◌else◌, length, take, drop, String, unwrap_or,
}
use gc_scope.Base.Text.{codes, decimal}
use gc_scope.Base.Word.{add_u64}

abbrev pub hex_digit : ℕ → ℕ
hex_digit n = if ltb n 10 then b'0' + n else b'a' + (n - 10)

-- `{:02x}` of a byte.
abbrev pub hex_byte : ℕ → List ℕ
hex_byte b = hex_digit (b / 16) ∷ hex_digit (b % 16) ∷ []

-- The `n` low hex digits of a number.
unfoldable pub hex_digits : ℕ → ℕ → List ℕ
hex_digits zero v = []
hex_digits (suc n) v = hex_digits n (v / 16) ++ (hex_digit (v % 16) ∷ [])

-- `{:#018x}` of a 64-bit address.
unfoldable pub address : ℕ → List ℕ
unfolding hex_digits
address v = b'0' ∷ b'x' ∷ hex_digits 16 v

-- The bytes of a group, joined by a space.
unfoldable pub join_hex : List ℕ → List ℕ
join_hex [] = []
join_hex (b ∷ []) = hex_byte b
join_hex (b ∷ c ∷ bs) = hex_byte b ++ (b' ' ∷ join_hex (c ∷ bs))

unfoldable pub spaces : ℕ → List ℕ
spaces zero = []
spaces (suc n) = b' ' ∷ spaces n

-- `{:23}` and `{:>12}`.
unfoldable pub pad_right : ℕ → List ℕ → List ℕ
unfolding spaces
pad_right width text = text ++ spaces (width - length text)

unfoldable pub pad_left : ℕ → List ℕ → List ℕ
unfolding spaces
pad_left width text = spaces (width - length text) ++ text

-- The two groups of a row.
unfoldable pub hex_columns : List ℕ → List ℕ
unfolding join_hex pad_right
hex_columns chunk =
    let second_hex = join_hex (drop 8 chunk) in
    pad_right 23 (join_hex (take 8 chunk))
    ++ (if length second_hex == 0 then [] else b' ' ∷ b' ' ∷ second_hex)

abbrev pub ascii : ℕ → ℕ
ascii b = if leb 33 b && leb b 126 || b == b' ' then b else b'.'

unfoldable pub row : ℕ → List ℕ → List ℕ
unfolding address hex_columns
row addr chunk =
    address addr
    ++ (codes "  " ++ (hex_columns chunk ++ (codes "  " ++ (map ascii chunk ++ codes "\n"))))

-- The rows of `chunks(16)`, of which there are at most as many as bytes.
unfoldable pub rows : ℕ → ℕ → List ℕ → List ℕ
unfolding row
rows zero addr bytes = []
rows (suc fuel) addr [] = []
rows (suc fuel) addr (b ∷ bytes) =
    row addr (take 16 (b ∷ bytes)) ++ rows fuel (add_u64 addr 16) (drop 16 (b ∷ bytes))

unfoldable pub format_hex_dump : List ℕ → ℕ → List ℕ
unfolding rows
format_hex_dump bytes start_addr = rows (length bytes) start_addr bytes

unfoldable pub format_region : ℕ → ℕ → Bool → Bool → Bool → Option String → List ℕ
unfolding address pad_left decimal
format_region start size is_read is_write is_exec path =
    let perms =
      (if is_read then b'r' else b'-')
      ∷ (if is_write then b'w' else b'-')
      ∷ (if is_exec then b'x' else b'-')
      ∷ [] in
    address start
    ++ (codes "-"
        ++ (address (add_u64 start size)
            ++ (codes "  "
                ++ (pad_left 12 (decimal size)
                    ++ (codes "  "
                        ++ (pad_left 4 perms ++ (codes "  " ++ codes (unwrap_or path "-"))))))))
