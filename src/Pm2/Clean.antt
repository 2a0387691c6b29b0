-- ===== src/Pm2/Clean.antt =====
-- agent/internal/providers/pm2/snapshot.go, clean: names that can't break the page. A text is
-- decoded into code points and encoded again, which are parameters.
use pc_monitor.Base.{
  ℕ, Bool, not, ◌&&◌, ◌||◌, List, [], ◌∷◌, Bytes, keep_if, take, reverse, ltb, leb, ◌==◌,
  if◌then◌else◌,
}

-- `[]rune(s)` and `string(r)`, and `strings.ToLower`.
pub record Unicode : Type 0 where
  pub runes : Bytes → List ℕ
  pub encode : List ℕ → Bytes
  pub lower : Bytes → Bytes

-- `unicode.IsControl`
unfoldable pub is_control : ℕ → Bool
is_control r = ltb r 32 || leb 127 r && ltb r 160

-- `unicode.IsSpace`
unfoldable pub is_space : ℕ → Bool
is_space r =
    leb 9 r && leb r 13
    || r == 32
    || r == 133
    || r == 160
    || r == 5760
    || leb 8192 r && leb r 8202
    || r == 8232
    || r == 8233
    || r == 8239
    || r == 8287
    || r == 12288

unfoldable pub drop_spaces : List ℕ → List ℕ
drop_spaces [] = []
drop_spaces (r ∷ rs) = if is_space r then drop_spaces rs else r ∷ rs

-- `strings.TrimSpace`
unfoldable pub trim_space : List ℕ → List ℕ
trim_space rs = reverse (drop_spaces (reverse (drop_spaces rs)))

unfoldable pub clean_runes : ℕ → List ℕ → List ℕ
clean_runes size rs = take size (trim_space (keep_if (λ r. not (is_control r)) rs))

unfoldable pub clean : Unicode → ℕ → Bytes → Bytes
clean u size s = u.encode (clean_runes size (u.runes s))
