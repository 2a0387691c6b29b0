-- ===== src/Provider/Ring/Refine.antt =====
-- The ring keeps the newest lines: it behaves as the end of the list of all that was pushed.
use native.Mathlib.Numerals.{add-one}
use native.Mathlib.Nat.{le_refl, mod-lt, add-zero}
use pc_monitor.Base.{
  ℕ, zero, suc, ◌+◌, ◌-◌, ◌%◌, ◌<◌, ◌≤◌, List, [], ◌∷◌, ◌++◌, ◌≡◌, refl, sym, ap, ◌∙◌, Option, none,
  some, length, last_n, drop, set, length-set, length-append, length-replicate, last_n-last_n,
  last_n-of_le, append_assoc, append-nil, ltb, ltb→lt, Bool-cases, inl, inr, arith,
}
use pc_monitor.Base.Int.{ℤ, pos, negsuc}
use pc_monitor.Provider.{LogLine, blank_line}
use pc_monitor.Provider.Ring.{Ring, new_ring, stored, push, last, last_count}
use pc_monitor.Provider.Ring.Window.{
  window, copy_out-window, length-window, window-mod, window-set, window-drop,
}

-- Room for at least one line, a start inside the storage, no more lines than room.
pub record IsValid (r : Ring) : Type 0 where
  pub room : 0 < length r.buf
  pub start_in : r.start < length r.buf
  pub fits : r.n ≤ length r.buf

-- The lines that a ring holds, oldest first.
abbrev pub contents : Ring → List LogLine
contents r = window r.buf (length r.buf) r.start r.n

pub length-contents : (r : Ring) → length (contents r) ≡ r.n
length-contents r = length-window r.buf (length r.buf) r.start r.n

module _ (buf : List LogLine) (cap start : ℕ) (l : LogLine) (enough : cap ≤ length buf) where
  -- On a ring with a free place nothing is lost.
  push_free :
      (n : ℕ)
      → n < cap
      → window (set buf ((start + n) % cap) l) cap start (n + 1)
        ≡ last_n cap (window buf cap start n ++ (l ∷ []))
  push_free n h = rw add-one (
      window-set buf cap l n start ((start + n) % cap) enough h refl
      ∙ sym (last_n-of_le cap (window buf cap start n ++ (l ∷ [])) short))
    where
      short : length (window buf cap start n ++ (l ∷ [])) ≤ cap
      short =
          omega
            (arith, length-append (window buf cap start n) (l ∷ []), length-window buf cap start n)

  -- On a full ring the oldest line gives way.
  push_full :
      (n : ℕ)
      → n ≡ cap
      → 0 < n
      → window (set buf ((start + n) % cap) l) cap ((start + 1) % cap) n
        ≡ last_n cap (window buf cap start n ++ (l ∷ []))
  push_full zero e pos_n = absurd (omega arith)
  push_full (suc m) e pos_n =
      window-mod (set buf ((start + suc m) % cap) l) cap (start + 1) (suc m)
      ∙ window-set buf cap l m (start + 1) ((start + suc m) % cap) enough (omega arith) turn
      ∙ ap (λ k. drop k (window buf cap start (suc m) ++ (l ∷ []))) one_over
    where
      turn : (start + suc m) % cap ≡ (start + 1 + m) % cap
      turn = ap (λ b. b % cap) (regroup start m)
        where
          regroup : (a b : ℕ) → a + suc b ≡ a + 1 + b
          regroup a b = omega arith

      one_over : 1 ≡ length (window buf cap start (suc m) ++ (l ∷ [])) - cap
      one_over = omega (
        arith,
        length-append (window buf cap start (suc m)) (l ∷ []),
        length-window buf cap start (suc m),
      )

-- What one push makes of a ring.
pub record Pushed (r : Ring) (l : LogLine) (r' : Ring) : Type 0 where
  pub valid : IsValid r'
  pub size : length r'.buf ≡ length r.buf
  pub holds : contents r' ≡ last_n (length r.buf) (contents r ++ (l ∷ []))

stored-Pushed : (r : Ring) (l : LogLine) → IsValid r → Pushed r l (stored r l)
unfolding stored
stored-Pushed r l v = elim (Bool-cases (ltb r.n (length r.buf))) [
  | inl e ↦ rw e (record {
    valid = omega (arith, ltb→lt r.n (length r.buf) e, length-set r.buf at l);
    size = length-set r.buf at l;
    holds =
        rw length-set
          (push_free r.buf (length r.buf) r.start l (le_refl _) r.n (ltb→lt r.n (length r.buf) e));
  })
  | inr e ↦ rw e (record {
    valid =
        omega (arith, length-set r.buf at l, mod-lt (r.start + 1) {m = length r.buf} (omega arith));
    size = length-set r.buf at l;
    holds =
        rw length-set
          (push_full r.buf (length r.buf) r.start l (le_refl _) r.n (ground arith) (ground arith));
  })
]
  where
    at : ℕ
    at = (r.start + r.n) % length r.buf

-- A push on a valid ring succeeds, keeps it valid and its size, and leaves in it the newest lines
-- of those it held and the new one, as many as there is room for.
pub push_refines :
    (r : Ring) (l : LogLine) → IsValid r → (push r l ≡ some (stored r l)) × Pushed r l (stored r l)
unfolding push
push_refines r l v = (ground arith, stored-Pushed r l v)

-- All pushes of a list in order; `none` once one panics.
unfoldable pub push_all : Ring → List LogLine → Option Ring
push_all r [] = some r
push_all r (l ∷ ls) = elim (push r l) [ none ↦ none | some r' ↦ push_all r' ls ]

record Grown (r : Ring) (ls : List LogLine) (r' : Ring) : Type 0 where
  valid : IsValid r'
  size : length r'.buf ≡ length r.buf
  holds : contents r' ≡ last_n (length r.buf) (contents r ++ ls)

push_all-Grown :
    (r : Ring) (ls : List LogLine)
    → IsValid r
    → (r' : Ring) × (push_all r ls ≡ some r') × Grown r ls r'
unfolding push_all
push_all-Grown r [] v = (
  r,
  refl,
  record {
    valid = v;
    size = refl;
    holds =
        rw append-nil
          (sym (last_n-of_le (length r.buf) (contents r) (omega (arith, length-contents r))));
  },
)
push_all-Grown r (l ∷ ls) v =
    let (e, p) = push_refines r l v in
    let (r', e', g) = push_all-Grown (stored r l) ls p.valid in
    (
      r',
      rw (e, push_all) e',
      record {
        valid = g.valid;
        size = g.size ∙ p.size;
        holds =
            g.holds
            ∙ ap (λ s. last_n s (contents (stored r l) ++ ls)) p.size
            ∙ ap (λ c. last_n (length r.buf) (c ++ ls)) p.holds
            ∙ last_n-last_n (length r.buf) (contents r ++ (l ∷ [])) ls
            ∙ ap (last_n (length r.buf)) (append_assoc (contents r) (l ∷ []) ls);
      },
    )

-- How many of the newest lines `Last(k)` asks for on a ring of a size.
abbrev pub wanted : ℕ → ℤ → ℕ
wanted size (pos zero) = size
wanted size (pos (suc n)) = suc n
wanted size (negsuc n) = size

last_count-le : (r : Ring) (k : ℤ) → last_count r k ≤ r.n
unfolding last_count
last_count-le r (pos n) = ground arith
last_count-le r (negsuc n) = ground arith

last_count-wanted :
    (r : Ring) (k : ℤ) (size : ℕ) → r.n ≤ size → r.n - last_count r k ≡ r.n - wanted size k
unfolding last_count
last_count-wanted r (pos zero) size h = ground arith
last_count-wanted r (pos (suc n)) size h = ground arith
last_count-wanted r (negsuc n) size h = ground arith

last-contents :
    (r : Ring) (k : ℤ) (size : ℕ) → r.n ≤ size → last r k ≡ last_n (wanted size k) (contents r)
unfolding last
last-contents r k size h =
    copy_out-window r.buf (r.start + (r.n - last_count r k)) 0 (last_count r k)
    ∙ ap (λ b. window r.buf (length r.buf) b (last_count r k)) (add-zero _)
    ∙ window-drop r.buf (length r.buf) r.start (r.n - last_count r k) (last_count r k)
    ∙ ap (λ n. drop (r.n - last_count r k) (window r.buf (length r.buf) r.start n)) whole
    ∙ ap (λ n. drop n (contents r)) (skip ∙ ap (λ n. n - wanted size k) (sym (length-contents r)))
  where
    whole : r.n - last_count r k + last_count r k ≡ r.n
    whole = omega (arith, last_count-le r k)

    skip : r.n - last_count r k ≡ r.n - wanted size k
    skip = last_count-wanted r k size h

new_ring-IsValid : (size : ℕ) → 0 < size → IsValid (new_ring size)
unfolding new_ring
new_ring-IsValid size h = omega (arith, length-replicate size blank_line)

-- After any pushes on a new ring of positive size, `Last(k)` gives the newest `k` of the newest
-- `size` lines pushed, oldest first, and all that are kept for `k <= 0`.
pub last_refines :
    (size : ℕ) (ls : List LogLine)
    → 0 < size
    → (r : Ring) × (push_all (new_ring size) ls ≡ some r)
      × ((k : ℤ) → last r k ≡ last_n (wanted size k) (last_n size ls))
unfolding new_ring
last_refines size ls h =
    let (r, e, g) = push_all-Grown (new_ring size) ls (new_ring-IsValid size h) in
    (
      r,
      e,
      λ k.
          last-contents r k size (omega (arith, g.valid, g.size, length-replicate size blank_line))
          ∙ ap (last_n (wanted size k))
              (g.holds ∙ ap (λ s. last_n s ls) (length-replicate size blank_line)),
    )
