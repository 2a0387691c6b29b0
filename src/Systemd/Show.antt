-- ===== src/Systemd/Show.antt =====
-- What systemctl prints is read back.
use pc_monitor.Base.{
  false, List, [], ◌∷◌, ◌++◌, append_assoc, append-nil, Bytes, bytes_eq, bytes_eq_sym, cut-append,
  insert, UniqueKeys, contains_byte, All, All-map, All-append, length, ◌≡◌, ◌≢◌, refl, sym, ap, ◌∙◌,
  arith,
}
use pc_monitor.Base.Lines.{newline, complete, complete-append, last_line, all_lines}
use pc_monitor.Base.Scanner.{IsToken, drop_cr, max_token, tokens, tokens-IsToken, complete-line}
use pc_monitor.Systemd.{Props, set_prop, end_block, show_blocks, parse_show}

-- A block as systemctl prints it: a line for each property.
abbrev prop_line : Bytes × Bytes → Bytes
prop_line (k, v) = k ++ b'=' ∷ v

abbrev block_lines : Props → List Bytes
block_lines [] = []
block_lines (p ∷ ps) = prop_line p ∷ block_lines ps

-- The blocks behind another one, each behind an empty line; there is none behind the last block.
abbrev more_lines : List Props → List Bytes
more_lines [] = []
more_lines (b ∷ bs) = [] ∷ (block_lines b ++ more_lines bs)

abbrev show_lines : List Props → List Bytes
show_lines [] = []
show_lines (b ∷ bs) = block_lines b ++ more_lines bs

abbrev pub unlines : List Bytes → Bytes
unlines [] = []
unlines (l ∷ ls) = (l ++ newline ∷ []) ++ unlines ls

unfoldable pub render_show : List Props → Bytes
render_show bs = unlines (show_lines bs)

-- A property that stands on one line, with a name that has no `=`.
pub record IsShown (p : Bytes × Bytes) : Type 0 where
  pub plain_name : contains_byte b'=' p.0 ≡ false
  pub token : IsToken max_token (prop_line p)

-- A block of at least one property, none of them twice.
pub record IsBlock (b : Props) : Type 0 where
  pub some_prop : b ≢ []
  pub unique : UniqueKeys b
  pub props : All IsShown b

complete-unlines :
    (ls : List Bytes)
    → All (λ l. contains_byte newline l ≡ false) ls
    → complete (unlines ls) ≡ (ls, [])
unfolding complete
complete-unlines [] h = refl
complete-unlines (l ∷ ls) (plain, h) =
    complete-append (l ++ newline ∷ []) (unlines ls)
    ∙ ap (λ p. (p.0 ++ (complete (p.1 ++ unlines ls)).0, (complete (p.1 ++ unlines ls)).1))
        (complete-line l plain)
    ∙ ap (λ p. (l ∷ p.0, p.1)) (complete-unlines ls h)

nil-IsToken : IsToken max_token []
unfolding contains_byte length drop_cr
nil-IsToken = record { one_line = refl; no_return = refl; short = omega arith }

block_lines-IsToken : (b : Props) → All IsShown b → All (IsToken max_token) (block_lines b)
block_lines-IsToken [] h = tt
block_lines-IsToken (p ∷ b) (is, h) = (is.token, block_lines-IsToken b h)

more_lines-IsToken : (bs : List Props) → All IsBlock bs → All (IsToken max_token) (more_lines bs)
more_lines-IsToken [] h = tt
more_lines-IsToken (b ∷ bs) (is, h) = (
  nil-IsToken,
  All-append (IsToken max_token) (block_lines b) (more_lines bs) (block_lines-IsToken b is.props)
      (more_lines-IsToken bs h),
)

show_lines-IsToken : (bs : List Props) → All IsBlock bs → All (IsToken max_token) (show_lines bs)
show_lines-IsToken [] h = tt
show_lines-IsToken (b ∷ bs) (is, h) =
    All-append (IsToken max_token) (block_lines b) (more_lines bs) (block_lines-IsToken b is.props)
      (more_lines-IsToken bs h)

insert-fresh :
    (k v : Bytes) (m : Props)
    → All (λ e. bytes_eq e.0 k ≡ false) m
    → insert k v m ≡ m ++ (k, v) ∷ []
unfolding insert
insert-fresh k v [] h = refl
insert-fresh k v ((j, w) ∷ m) (ne, h) = rw ne (ap (◌∷◌ (j, w)) (insert-fresh k v m h))

set_prop-prop_line :
    (p : Bytes × Bytes) (cur : Props)
    → contains_byte b'=' p.0 ≡ false
    → set_prop (prop_line p) cur ≡ insert p.0 p.1 cur
unfolding set_prop
set_prop-prop_line (k, v) cur h = rw (cut-append b'=' k v h, set_prop) refl

show_blocks-some :
    (line : Bytes) (ls : List Bytes) (cur : Props)
    → line ≢ []
    → show_blocks (line ∷ ls) cur ≡ show_blocks ls (set_prop line cur)
unfolding show_blocks
show_blocks-some [] ls cur h = absurd (h refl)
show_blocks-some (c ∷ line) ls cur h = refl

prop_line-ne-nil : (k v : Bytes) → prop_line (k, v) ≢ []
prop_line-ne-nil [] v = λ e. cc
prop_line-ne-nil (c ∷ k) v = λ e. cc

-- No property of a block is there already.
abbrev Apart : Props → Props → Type 0
Apart cur [] = Unit {0}
Apart cur (p ∷ b) = All (λ e. bytes_eq e.0 p.0 ≡ false) cur × Apart cur b

Apart-concat :
    (cur b : Props) (p : Bytes × Bytes)
    → Apart cur b
    → All (λ e. bytes_eq e.0 p.0 ≡ false) b
    → Apart (cur ++ p ∷ []) b
Apart-concat cur [] p h new = tt
Apart-concat cur (q ∷ b) p (hq, h) (ne, new) = (
  All-append (λ e. bytes_eq e.0 q.0 ≡ false) cur (p ∷ []) hq (bytes_eq_sym p.0 q.0 ∙ ne, tt),
  Apart-concat cur b p h new,
)

show_blocks-block_lines :
    (b : Props) (ls : List Bytes) (cur : Props)
    → All IsShown b
    → UniqueKeys b
    → Apart cur b
    → show_blocks (block_lines b ++ ls) cur ≡ show_blocks ls (cur ++ b)
unfolding show_blocks
show_blocks-block_lines [] ls cur is unique apart = ap (show_blocks ls) (sym (append-nil cur))
show_blocks-block_lines ((k, v) ∷ b) ls cur (is, more) (new, unique) (here, apart) =
    show_blocks-some (prop_line (k, v)) (block_lines b ++ ls) cur (prop_line-ne-nil k v)
    ∙ ap (show_blocks (block_lines b ++ ls))
        (set_prop-prop_line (k, v) cur is.plain_name ∙ insert-fresh k v cur here)
    ∙ show_blocks-block_lines b ls (cur ++ (k, v) ∷ []) more unique
        (Apart-concat cur b (k, v) apart new)
    ∙ ap (show_blocks ls) (append_assoc cur ((k, v) ∷ []) b)

nil-Apart : (b : Props) → Apart [] b
nil-Apart [] = tt
nil-Apart (p ∷ b) = (tt, nil-Apart b)

end_block-some : (b : Props) (bs : List Props) → b ≢ [] → end_block b bs ≡ b ∷ bs
end_block-some [] bs h = absurd (h refl)
end_block-some (p ∷ b) bs h = refl

show_blocks-more_lines :
    (bs : List Props) (cur : Props)
    → All IsBlock bs
    → show_blocks (more_lines bs) cur ≡ end_block cur bs
unfolding show_blocks
show_blocks-more_lines [] cur h = refl
show_blocks-more_lines (b ∷ bs) cur (is, h) = ap (end_block cur) (
    show_blocks-block_lines b (more_lines bs) [] is.props is.unique (nil-Apart b)
    ∙ show_blocks-more_lines bs b h
    ∙ end_block-some b bs is.some_prop)

show_blocks-show_lines : (bs : List Props) → All IsBlock bs → show_blocks (show_lines bs) [] ≡ bs
unfolding show_blocks
show_blocks-show_lines [] h = refl
show_blocks-show_lines (b ∷ bs) (is, h) =
    show_blocks-block_lines b (more_lines bs) [] is.props is.unique (nil-Apart b)
    ∙ show_blocks-more_lines bs b h
    ∙ end_block-some b bs is.some_prop

-- What systemctl prints for some units, the blocks with an empty line between them, is read back as
-- their properties, block by block and in order, the last block included, where no block is empty or has a property twice, no name has an `=`, and each property
-- stands on one line that the scanner takes as it is.
pub parse_show-render_show : (bs : List Props) → All IsBlock bs → parse_show (render_show bs) ≡ bs
unfolding parse_show render_show all_lines
parse_show-render_show bs h =
    ap (λ p. show_blocks (tokens max_token (p.0 ++ last_line p.1)) [])
      (complete-unlines (show_lines bs) (
        All-map (IsToken max_token) (λ l. contains_byte newline l ≡ false) (show_lines bs)
          (λ l is. is.one_line) (show_lines-IsToken bs h)))
    ∙ ap (λ ls. show_blocks (tokens max_token ls) []) (append-nil (show_lines bs))
    ∙ ap (λ ls. show_blocks ls [])
        (tokens-IsToken max_token (show_lines bs) (show_lines-IsToken bs h))
    ∙ show_blocks-show_lines bs h
