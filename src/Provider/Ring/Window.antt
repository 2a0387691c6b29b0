-- ===== src/Provider/Ring/Window.antt =====
-- Runs of a ring's storage that go round at its end.
use native.Mathlib.Nat.{
  mod-add-mod, mod-mod, mod-eq_of_lt, mod-eq-sub-mod, mod-lt, add-zero, zero-add,
}
use pc_monitor.Base.{
  ℕ, zero, suc, ◌+◌, ◌-◌, ◌%◌, ◌<◌, ◌≤◌, List, [], ◌∷◌, ◌++◌, ◌≡◌, ◌≢◌, refl, sym, ap, ap₂, ◌∙◌,
  length, get_or, set, dec_lt, arith, get_or-set_self, get_or-set_ne, drop,
}
use pc_monitor.Provider.{LogLine, blank_line}
use pc_monitor.Provider.Ring.{copy_out}

-- The `k` lines from index `base` on, oldest first, going round at `cap`.
abbrev pub window : List LogLine → ℕ → ℕ → ℕ → List LogLine
window buf cap base zero = []
window buf cap base (suc k) = get_or buf (base % cap) blank_line ∷ window buf cap (base + 1) k

pub copy_out-window :
    (buf : List LogLine) (base i k : ℕ)
    → copy_out buf base i k ≡ window buf (length buf) (base + i) k
unfolding copy_out
copy_out-window buf base i zero = refl
copy_out-window buf base i (suc k) =
    ap (◌∷◌ (get_or buf ((base + i) % length buf) blank_line))
      (copy_out-window buf base (i + 1) k ∙ ap (λ b. window buf (length buf) b k) shift)
  where
    shift : base + (i + 1) ≡ base + i + 1
    shift = omega arith

pub length-window : (buf : List LogLine) (cap base k : ℕ) → length (window buf cap base k) ≡ k
length-window buf cap base zero = refl
length-window buf cap base (suc k) = ap suc (length-window buf cap (base + 1) k)

-- The start of a window counts only up to a whole turn.
pub window-mod :
    (buf : List LogLine) (cap base k : ℕ) → window buf cap (base % cap) k ≡ window buf cap base k
window-mod buf cap base zero = refl
window-mod buf cap base (suc k) = ap₂ ◌∷◌ (ap (λ i. get_or buf i blank_line) (mod-mod base cap)) (
    sym (window-mod buf cap (base % cap + 1) k)
    ∙ ap (λ b. window buf cap b k) (mod-add-mod base cap 1)
    ∙ window-mod buf cap (base + 1) k)

-- Fewer than `cap` steps round the ring do not come back to the start.
add-mod-ne_lt :
    {start size : ℕ} (steps : ℕ)
    → 0 < steps
    → steps < size
    → start < size
    → (start + steps) % size ≢ start
add-mod-ne_lt {start} {size} steps some few inside = elim (dec_lt (start + steps) size) [
  | no around ↦
      let wrapped = mod-eq-sub-mod {n = start + steps} {m = size} (omega arith) in
      let left = mod-eq_of_lt {n = start + steps - size} {m = size} (omega arith) in
      omega (arith, wrapped, left)
  | yes before ↦ let same = mod-eq_of_lt before in omega (arith, same)
]

add-mod-ne : (cap base k : ℕ) → suc k < cap → (base + suc k) % cap ≢ base % cap
add-mod-ne cap base k h e =
    add-mod-ne_lt {start = base % cap} {size = cap} (suc k) (omega arith) h
      (mod-lt base (omega arith)) (mod-add-mod base cap (suc k) ∙ e)

-- Writing just past a window extends it by that line.
pub window-set :
    (buf : List LogLine) (cap : ℕ) (x : LogLine) (k base i : ℕ)
    → cap ≤ length buf
    → k < cap
    → i ≡ (base + k) % cap
    → window (set buf i x) cap base (suc k) ≡ window buf cap base k ++ (x ∷ [])
window-set buf cap x zero base i hs h e =
    rw (e, add-zero) (ap (λ v. v ∷ []) (get_or-set_self buf (base % cap) x blank_line in_range))
  where
    in_range : base % cap < length buf
    in_range = omega (arith, mod-lt base {m = cap} (omega arith))
window-set buf cap x (suc k) base i hs h e =
    ap₂ ◌∷◌ (get_or-set_ne buf x blank_line (rw e (add-mod-ne cap base k h)))
      (window-set buf cap x k (base + 1) i hs (omega arith) (e ∙ ap (λ b. b % cap) (shift)))
  where
    shift : base + suc k ≡ base + 1 + k
    shift = omega arith

-- What is left of a window without its oldest lines.
pub window-drop :
    (buf : List LogLine) (cap base j k : ℕ)
    → window buf cap (base + j) k ≡ drop j (window buf cap base (j + k))
window-drop buf cap base zero k = rw add-zero (rw zero-add)
window-drop buf cap base (suc j) k =
    ap (λ b. window buf cap b k) shift
    ∙ window-drop buf cap (base + 1) j k
    ∙ ap (λ n. drop (suc j) (window buf cap base n)) one_more
  where
    shift : base + suc j ≡ base + 1 + j
    shift = omega arith

    one_more : suc (j + k) ≡ suc j + k
    one_more = omega arith
