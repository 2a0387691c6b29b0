-- ===== src/Provider/CleanLine.antt =====
-- agent/internal/provider/provider.go, CleanLine. The regular expression that strips ANSI escapes
-- is a parameter.
use pc_monitor.Base.{[], ◌∷◌, none, some, Bytes, cut_last}

-- What follows the last carriage return, or the whole text.
unfoldable pub after_return : Bytes → Bytes
after_return s = elim (cut_last b'\r' s) [ none ↦ s | some p ↦ p.1 ]

-- The text without the carriage return that it ends in.
unfoldable pub without_last : Bytes → Bytes
without_last [] = []
without_last (x ∷ []) = []
without_last (x ∷ y ∷ s) = x ∷ without_last (y ∷ s)

-- `front` ends in the last carriage return, and `rest` follows it.
unfoldable pub final_state : Bytes → Bytes → Bytes
final_state front [] = after_return (without_last front)
final_state front (c ∷ rest) = c ∷ rest

unfoldable pub clean_line : (Bytes → Bytes) → Bytes → Bytes
clean_line strip_ansi s = elim (cut_last b'\r' (strip_ansi s)) [
  | none ↦ strip_ansi s
  | some p ↦ final_state p.0 p.1
]
