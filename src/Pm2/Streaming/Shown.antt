-- ===== src/Pm2/Streaming/Shown.antt =====
-- From the files of the helper to the page: the two sides of a log stream together.
use pc_monitor.Base.{
  ℕ, Bool, true, false, not, List, [], ◌∷◌, ◌++◌, map, Bytes, All, All-append, if◌then◌else◌, ◌≡◌,
  refl, sym, ap, ◌∙◌,
}
use pc_monitor.Base.Int.{ℤ, pos}
use pc_monitor.Provider.Registry.{is_blank}
use pc_monitor.Pm2.Clean.{Unicode}
use pc_monitor.Pm2.Logs.{TextTools}
use pc_monitor.Pm2.Logs.Follow.{joined}
use pc_monitor.Pm2.Streaming.{
  Message, text_message, new_file, old_lines, or_nothing_yet, Incoming, closed_early, messages,
  shown, shown_line, later_line, end_line, stream_from_helper,
}
use pc_monitor.Pm2.Logs.Finished.{finished, finished-append, finished_nil}
use pc_monitor.Pm2.Streaming.Page.{Written, news}

-- The messages of one of the two logs, as texts.
abbrev pub texts_of : Bool → List Message → List Bytes
texts_of e [] = []
texts_of true (m ∷ ms) = if m.err then m.text ∷ texts_of true ms else texts_of true ms
texts_of false (m ∷ ms) = if m.err then texts_of false ms else m.text ∷ texts_of false ms

texts_of-same :
    (e : Bool) (now : ℤ) (ls : List Bytes) (ms : List Message)
    → texts_of e (map (text_message now e) ls ++ ms) ≡ ls ++ texts_of e ms
texts_of-same e now [] ms = refl
texts_of-same true now (l ∷ ls) ms = ap (λ x. l ∷ x) (texts_of-same true now ls ms)
texts_of-same false now (l ∷ ls) ms = ap (λ x. l ∷ x) (texts_of-same false now ls ms)

texts_of-other :
    (e : Bool) (now : ℤ) (ls : List Bytes) (ms : List Message)
    → texts_of e (map (text_message now (not e)) ls ++ ms) ≡ texts_of e ms
texts_of-other e now [] ms = refl
texts_of-other true now (l ∷ ls) ms = texts_of-other true now ls ms
texts_of-other false now (l ∷ ls) ms = texts_of-other false now ls ms

abbrev pub all_out : List Written → Bytes
all_out ws = joined (map {A = Written} (λ w. w.out) ws)

abbrev pub all_err : List Written → Bytes
all_err ws = joined (map {A = Written} (λ w. w.err) ws)

module _ (t : TextTools) (p q : Bytes) (k j : ℕ) where
  pub news-out :
      (a b : Bytes) (ws : List Written)
      → texts_of false (news t p q k j a b ws) ≡ finished t a (all_out ws)
  news-out a b [] = sym (finished_nil t a)
  news-out a b (w ∷ ws) =
      texts_of-same false w.now (finished t a w.out) _
      ∙ ap (λ x. finished t a w.out ++ x)
          (texts_of-other false w.now (finished t b w.err) _
            ∙ news-out (a ++ w.out) (b ++ w.err) ws)
      ∙ finished-append t a w.out (all_out ws)

  pub news-err :
      (a b : Bytes) (ws : List Written)
      → texts_of true (news t p q k j a b ws) ≡ finished t b (all_err ws)
  news-err a b [] = sym (finished_nil t b)
  news-err a b (w ∷ ws) =
      texts_of-other true w.now (finished t a w.out) _
      ∙ texts_of-same true w.now (finished t b w.err) _
      ∙ ap (λ x. finished t b w.err ++ x) (news-err (a ++ w.out) (b ++ w.err) ws)
      ∙ finished-append t b w.err (all_err ws)

-- What dashd gets from messages that all come at one time, and then the end.
abbrev pub arrive : ℤ → List Message → Incoming
arrive now [] = closed_early
arrive now (m ∷ ms) = messages m (map (λ x. (now, x)) ms) now

abbrev pub NoError : List Message → Type 0
NoError ms = All (λ m. is_blank m.error ≡ true) ms

NoError-text_message :
    (now : ℤ) (e : Bool) (ls : List Bytes) → NoError (map (text_message now e) ls)
NoError-text_message now e [] = tt
NoError-text_message now e (l ∷ ls) = (refl, NoError-text_message now e ls)

pub NoError-append : (xs ys : List Message) → NoError xs → NoError ys → NoError (xs ++ ys)
NoError-append xs ys hx hy = All-append (λ m. is_blank m.error ≡ true) xs ys hx hy

later_lines :
    (valid : Bytes → Bytes) (now : ℤ) (ms : List Message)
    → NoError ms
    → map (later_line valid) (map (λ m. (now, m)) ms) ≡ map (shown_line valid) ms
later_lines valid now [] h = refl
later_lines valid now (m ∷ ms) (e, h) =
    rw e (ap (λ ls. shown_line valid m ∷ ls) (later_lines valid now ms h))

stream_from_helper-arrive :
    (u : Unicode) (valid : Bytes → Bytes) (now : ℤ) (m : Message) (ms : List Message)
    → NoError (m ∷ ms)
    → stream_from_helper u valid (arrive now (m ∷ ms))
      ≡ shown (map (shown_line valid) (m ∷ ms) ++ (end_line now ∷ []))
unfolding stream_from_helper
stream_from_helper-arrive u valid now m ms (e, h) = rw e (
    ap (λ ls. shown (shown_line valid m ∷ (ls ++ (end_line now ∷ []))))
      (later_lines valid now ms h))

-- Behind the greeting there is always a first message.
pub arrive-or_nothing_yet :
    (u : Unicode) (valid : Bytes → Bytes) (now : ℤ) (xs ys : List Message)
    → NoError xs
    → NoError ys
    → stream_from_helper u valid (arrive now (or_nothing_yet xs ++ ys))
      ≡ shown (map (shown_line valid) (or_nothing_yet xs ++ ys) ++ (end_line now ∷ []))
arrive-or_nothing_yet u valid now [] ys hx hy =
    stream_from_helper-arrive u valid now _ ys (refl, hy)
arrive-or_nothing_yet u valid now (m ∷ xs) ys hx hy =
    stream_from_helper-arrive u valid now m (xs ++ ys) (NoError-append (m ∷ xs) ys hx hy)

pub old_lines-NoError :
    (path : Bytes) (e : Bool) (ls : List Bytes) → NoError (old_lines (new_file path e) ls)
old_lines-NoError path e [] = tt
old_lines-NoError path true (l ∷ ls) = (refl, NoError-text_message (pos 0) true (l ∷ ls))
old_lines-NoError path false (l ∷ ls) = NoError-text_message (pos 0) false (l ∷ ls)

pub news-NoError :
    (t : TextTools) (p q : Bytes) (k j : ℕ) (a b : Bytes) (ws : List Written)
    → NoError (news t p q k j a b ws)
news-NoError t p q k j a b [] = tt
news-NoError t p q k j a b (w ∷ ws) =
    NoError-append (map (text_message w.now false) (finished t a w.out)) _
      (NoError-text_message w.now false (finished t a w.out))
      (NoError-append (map (text_message w.now true) (finished t b w.err)) _
        (NoError-text_message w.now true (finished t b w.err))
        (news-NoError t p q k j (a ++ w.out) (b ++ w.err) ws))
