-- ===== src/Memory/Tests.antt =====
-- Runs of the hex dump and of the region list.
use gc_scope.Base.{ℕ, ◌≡◌, refl, true, false, some, List, [], ◌∷◌, arith}
use gc_scope.Base.Text.{codes}
use gc_scope.Memory.Dump.{hex_columns, format_hex_dump, format_region}
use gc_scope.Memory.Columns.{read_hex, read_hex-hex_columns}

abbrev word : List ℕ
word = 0xde ∷ 0xad ∷ 0xbe ∷ 0xef ∷ []

short_row : format_hex_dump word 0 ≡ codes "0x0000000000000000  de ad be ef              ....\n"
unfolding format_hex_dump
short_row = refl

heap_row :
    format_region 0 16 true true false (some "[heap]")
    ≡ codes "0x0000000000000000-0x0000000000000010            16   rw-  [heap]"
unfolding format_region
heap_row = refl

read_hex-hex_columns_example : read_hex (hex_columns word) ≡ word
read_hex-hex_columns_example =
    read_hex-hex_columns word (omega arith, (omega arith, (omega arith, (omega arith, tt))))
