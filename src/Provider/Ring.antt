-- ===== src/Provider/Ring.antt =====
-- agent/internal/provider/ring.go: the fixed ring of log lines.
pub mod Window
pub mod Refine
use pc_monitor.Base.{
  ℕ, zero, suc, ◌+◌, ◌-◌, ◌%◌, Bool, true, false, not, ◌||◌, List, [], ◌∷◌, Option, none, some,
  length, get_or, set, replicate, ltb, leb, ◌==◌, if◌then◌else◌,
}
use pc_monitor.Base.Int.{ℤ, pos, ltb_ℤ, pos_part}
use pc_monitor.Provider.{LogLine, blank_line}

pub record Ring : Type 0 where
  pub buf : List LogLine
  pub start : ℕ
  pub n : ℕ

unfoldable pub new_ring : ℕ → Ring
new_ring size = record { buf = replicate size blank_line; start = 0; n = 0 }

-- `Push` behind the division: the line goes after the newest, or over the oldest on a full ring.
unfoldable pub stored : Ring → LogLine → Ring
stored r l =
    let end : ℕ = (r.start + r.n) % length r.buf in
    let buf' : List LogLine = set r.buf end l in
    if ltb r.n (length r.buf)
    then record { buf = buf'; start = r.start; n = r.n + 1 }
    else record { buf = buf'; start = (r.start + 1) % length r.buf; n = r.n }

-- `none` is the panic of `% len(r.buf)` on a ring of size 0.
unfoldable pub push : Ring → LogLine → Option Ring
push r l = if length r.buf == 0 then none else some (stored r l)

-- The loop of `Last`: `k` lines from index `base + i` on.
unfoldable pub copy_out : List LogLine → ℕ → ℕ → ℕ → List LogLine
copy_out buf base i zero = []
copy_out buf base i (suc k) =
    get_or buf ((base + i) % length buf) blank_line ∷ copy_out buf base (i + 1) k

-- How many lines `Last(n)` returns: `n` is positive where it is not replaced by `r.n`.
unfoldable pub last_count : Ring → ℤ → ℕ
last_count r n = if ltb_ℤ (pos r.n) n || not (ltb_ℤ (pos 0) n) then r.n else pos_part n

unfoldable pub last : Ring → ℤ → List LogLine
last r n = let k = last_count r n in let skip : ℕ = r.n - k in copy_out r.buf (r.start + skip) 0 k
