-- ===== src/Statistics/Tests.antt =====
-- The summary of a run in which a process died and its pid was polled again.
use gc_scope.Base.{◌≡◌, All, map}
use gc_scope.Base.Int.{ℤ}
use gc_scope.Fixtures.{ticks, poll}
use gc_scope.Cursor.{Cursor, new, admit, forget, observations}
use gc_scope.Cursor.History.{Reached, begun, went, polled, died}
use gc_scope.Statistics.{summarize}
use gc_scope.Statistics.Blocks.{rows, row, IsBlock, summarize-rows}
use gc_scope.Statistics.Rows.{AddsUp, summary-AddsUp}

abbrev twice : Cursor ℤ
twice = (admit 7 poll (forget 7 (admit 7 poll new).0)).0

twice-Reached : Reached twice
twice-Reached = went (went (went begun (polled 7 poll)) (died 7)) (polled 7 poll)

summary-AddsUp_example : All AddsUp (rows (summarize twice))
summary-AddsUp_example = summary-AddsUp twice-Reached

summarize-rows_example :
    (rows (summarize twice) ≡ map row (observations twice)) × All IsBlock (summarize twice)
summarize-rows_example = summarize-rows twice
