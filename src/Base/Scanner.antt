-- ===== src/Base/Scanner.antt =====
-- `bufio.Scanner` on the lines of a text that is all there, and numbers as `strconv` reads them.
use pc_monitor.Base.{
  ℕ, suc, ◌+◌, ◌-◌, ◌/◌, ◌<◌, ◌^◌, false, List, [], ◌∷◌, ◌++◌, Option, none, some, Bytes,
  contains_byte, length, ltb, leb, span_digits, decimal, value, ◌==◌, if◌then◌else◌, All, ◌≡◌, refl,
  arith,
}
use pc_monitor.Base.Int.{ℤ, pos, negsuc}
use pc_monitor.Base.Lines.{newline, complete}

-- The carriage return that the scanner takes off the end of a line.
unfoldable pub drop_cr : Bytes → Bytes
drop_cr [] = []
drop_cr (c ∷ []) = if c == b'\r' then [] else c ∷ []
drop_cr (c ∷ d ∷ s) = c ∷ drop_cr (d ∷ s)

-- What the scanner gives of the lines of a text: it stops at a line that does not fit its buffer.
unfoldable pub tokens : ℕ → List Bytes → List Bytes
tokens size [] = []
tokens size (l ∷ ls) = if leb size (length l) then [] else drop_cr l ∷ tokens size ls

-- `bufio.MaxScanTokenSize`
abbrev pub max_token : ℕ
max_token = 65536

-- A line that the scanner gives as it stands.
pub record IsToken (size : ℕ) (l : Bytes) : Type 0 where
  pub one_line : contains_byte newline l ≡ false
  pub no_return : drop_cr l ≡ l
  pub short : length l < size

pub tokens-IsToken : (size : ℕ) (ls : List Bytes) → All (IsToken size) ls → tokens size ls ≡ ls
unfolding tokens
tokens-IsToken size [] h = refl
tokens-IsToken size (l ∷ ls) (is, h) =
    ground (arith, is.short, is.no_return, tokens-IsToken size ls h)

pub complete-line :
    (l : Bytes) → contains_byte newline l ≡ false → complete (l ++ newline ∷ []) ≡ (l ∷ [], [])
unfolding complete contains_byte
complete-line [] h = refl
complete-line (c ∷ l) h = ground (arith, complete-line l)

abbrev digits_below : ℕ → Bytes × Bytes → Option ℕ
digits_below limit ([], rest) = none
digits_below limit (d ∷ ds, c ∷ rest) = none
digits_below limit (d ∷ ds, []) =
    if ltb (value 0 (d ∷ ds)) limit then some (value 0 (d ∷ ds)) else none

-- `strconv.ParseUint(s, 10, w)` with `limit` for 2 ^ w
unfoldable pub parse_uint : ℕ → Bytes → Option ℕ
parse_uint limit s = digits_below limit (span_digits s)

abbrev negative : Option ℕ → Option ℤ
negative none = none
negative (some n) = some (if n == 0 then pos 0 else negsuc (n - 1))

abbrev positive : Option ℕ → Option ℤ
positive none = none
positive (some n) = some (pos n)

-- `strconv.ParseInt(s, 10, 64)`
unfoldable pub parse_int : Bytes → Option ℤ
parse_int [] = none
parse_int (c ∷ s) =
    if c == b'-'
    then negative (parse_uint (2 ^ 63 + 1) s)
    else if c == b'+'
    then positive (parse_uint (2 ^ 63) s)
    else positive (parse_uint (2 ^ 63) (c ∷ s))

-- `a / d` on signed numbers, towards zero
unfoldable pub quot : ℤ → ℕ → ℤ
quot (pos n) d = pos (n / d)
quot (negsuc n) d = if suc n / d == 0 then pos 0 else negsuc (suc n / d - 1)

-- `strconv.Itoa`
unfoldable pub itoa : ℤ → Bytes
itoa (pos n) = decimal n
itoa (negsuc n) = b'-' ∷ decimal (suc n)
