-- ===== src/Docker/Stream/Chunks.antt =====
-- One round of readMultiplexed on a chunk that Docker framed.
use pc_monitor.Base.{
  ℕ, zero, suc, ◌^◌, ◌<◌, Bool, true, false, not, List, [], ◌∷◌, ◌++◌, append_assoc, map,
  append-nil, get_or, none, some, Bytes, length, cut, drop, ◌==◌, if◌then◌else◌, ◌≡◌, ◌≢◌, refl,
  sym, ap, ap₂, ◌∙◌, arith, Option-cases, inl, inr,
}
use pc_monitor.Base.Binary.{be32, u32_of, u32_of-be32, read_full, read_full-append}
use pc_monitor.Base.Lines.{
  newline, complete, complete-cut-none, complete-cut-some, last_line, all_lines, all_lines-append,
}
use pc_monitor.Docker.Stream.{
  Emitted, Pending, stream_of, get_part, set_part, next_chunk, drain, flush_part, flush, demux,
}

drain-some :
    (fuel : ℕ) (buf : Bytes) {l r : Bytes}
    → cut newline buf ≡ some (l, r)
    → drain (suc fuel) buf ≡ (l ∷ (drain fuel r).0, (drain fuel r).1)
unfolding drain
drain-some fuel buf e = rw (e, drain)

drain-none : (fuel : ℕ) (buf : Bytes) → cut newline buf ≡ none → drain (suc fuel) buf ≡ ([], buf)
unfolding drain
drain-none fuel buf e = rw (e, drain)

drain-complete : (fuel : ℕ) (buf : Bytes) → length buf < fuel → drain fuel buf ≡ complete buf
drain-complete zero buf h = elim h [ ]
drain-complete (suc fuel) buf h = elim (Option-cases (cut newline buf)) [
  | inl e ↦ drain-none fuel buf e ∙ sym (complete-cut-none buf e)
  | inr ((l, r), e) ↦
      let (same, shorter) = complete-cut-some buf {l = l} {r = r} e in
      drain-some fuel buf e
      ∙ ap (λ p. (l ∷ p.0, p.1)) (drain-complete fuel r (omega arith))
      ∙ sym same
]

-- A chunk as Docker frames it: the stream's byte, three bytes of padding, the length, the payload.
unfoldable pub encode_chunk : ℕ × Bytes → Bytes
encode_chunk (stream, payload) = (stream ∷ 0 ∷ 0 ∷ 0 ∷ be32 (length payload)) ++ payload

unfoldable pub encode_chunks : List (ℕ × Bytes) → Bytes
encode_chunks [] = []
encode_chunks (c ∷ cs) = encode_chunk c ++ encode_chunks cs

-- The payloads of the chunks whose stream passes a test, joined.
unfoldable pub payloads : (ℕ → Bool) → List (ℕ × Bytes) → Bytes
payloads p [] = []
payloads p ((stream, payload) ∷ cs) = if p stream then payload ++ payloads p cs else payloads p cs

-- The texts of the emitted lines with a flag.
unfoldable pub texts : Bool → List Emitted → List Bytes
texts err [] = []
texts true ((l, true) ∷ out) = l ∷ texts true out
texts true ((l, false) ∷ out) = texts true out
texts false ((l, true) ∷ out) = texts false out
texts false ((l, false) ∷ out) = l ∷ texts false out

texts-append : (b : Bool) (xs ys : List Emitted) → texts b (xs ++ ys) ≡ texts b xs ++ texts b ys
unfolding texts
texts-append b [] ys = refl
texts-append true ((l, true) ∷ xs) ys = ap (◌∷◌ l) (texts-append true xs ys)
texts-append true ((l, false) ∷ xs) ys = texts-append true xs ys
texts-append false ((l, true) ∷ xs) ys = texts-append false xs ys
texts-append false ((l, false) ∷ xs) ys = ap (◌∷◌ l) (texts-append false xs ys)

texts_same : (b : Bool) (ls : List Bytes) → texts b (map (λ l. (l, b)) ls) ≡ ls
unfolding texts
texts_same true [] = refl
texts_same true (l ∷ ls) = ap (◌∷◌ l) (texts_same true ls)
texts_same false [] = refl
texts_same false (l ∷ ls) = ap (◌∷◌ l) (texts_same false ls)

texts_other : (b : Bool) (ls : List Bytes) → texts b (map (λ l. (l, not b)) ls) ≡ []
unfolding texts
texts_other true [] = refl
texts_other true (l ∷ ls) = texts_other true ls
texts_other false [] = refl
texts_other false (l ∷ ls) = texts_other false ls

length-be32 : (n : ℕ) → length (be32 n) ≡ 4
unfolding be32
length-be32 n = refl

next_chunk_of :
    (s hdr s1 payload s2 : Bytes) (n : ℕ)
    → read_full 8 s ≡ some (hdr, s1)
    → u32_of (drop 4 hdr) ≡ n
    → read_full n s1 ≡ some (payload, s2)
    → next_chunk s ≡ some (stream_of (get_or hdr 0 0), payload, s2)
unfolding next_chunk
next_chunk_of s hdr s1 payload s2 n e k f = rw (e, next_chunk) (rw k (rw f))

next_chunk-encode_chunk :
    (stream : ℕ) (payload rest : Bytes)
    → length payload < 2 ^ 32
    → next_chunk (encode_chunk (stream, payload) ++ rest) ≡ some (stream_of stream, payload, rest)
unfolding encode_chunk
next_chunk-encode_chunk stream payload rest h =
    ap next_chunk (append_assoc (stream ∷ 0 ∷ 0 ∷ 0 ∷ be32 (length payload)) payload rest)
    ∙ next_chunk_of _ (stream ∷ 0 ∷ 0 ∷ 0 ∷ be32 (length payload)) (payload ++ rest) payload rest
        (length payload)
        (read_full-append 8 (stream ∷ 0 ∷ 0 ∷ 0 ∷ be32 (length payload)) (payload ++ rest)
          (ap (λ n. suc (suc (suc (suc n)))) (length-be32 (length payload))))
        (u32_of-be32 (length payload) h) (read_full-append (length payload) payload rest refl)

texts-flush_part :
    (b : Bool) (r : Bytes)
    → (texts b (flush_part r b) ≡ last_line r) × (texts b (flush_part r (not b)) ≡ [])
unfolding texts
texts-flush_part true [] = (refl, refl)
texts-flush_part true (c ∷ r) = (refl, refl)
texts-flush_part false [] = (refl, refl)
texts-flush_part false (c ∷ r) = (refl, refl)

pub flush-stderr : (p : Pending) → texts true (flush p) ≡ last_line p.stderr_part
unfolding flush
flush-stderr p =
    texts-append true (flush_part p.stdin_part false) _
    ∙ ap₂ ◌++◌ (texts-flush_part true p.stdin_part).1 (
        texts-append true (flush_part p.stdout_part false) _
        ∙ ap₂ ◌++◌ (texts-flush_part true p.stdout_part).1 (texts-flush_part true p.stderr_part).0)

pub flush-stdout :
    (p : Pending) → p.stdin_part ≡ [] → texts false (flush p) ≡ last_line p.stdout_part
unfolding flush
flush-stdout p h =
    texts-append false (flush_part p.stdin_part false) _
    ∙ ap₂ ◌++◌ ((texts-flush_part false p.stdin_part).0 ∙ ap last_line h) (
        texts-append false (flush_part p.stdout_part false) _
        ∙ ap₂ ◌++◌ (texts-flush_part false p.stdout_part).0 (texts-flush_part false p.stderr_part).1
        ∙ append-nil (last_line p.stdout_part))

pub demux-none :
    (fuel : ℕ) (p : Pending) (s : Bytes) → next_chunk s ≡ none → demux (suc fuel) p s ≡ flush p
unfolding demux
demux-none fuel p s e = rw (e, demux)

demux-some :
    (fuel : ℕ) (p : Pending) (s payload s' : Bytes) (stream : ℕ)
    → next_chunk s ≡ some (stream, payload, s')
    → demux (suc fuel) p s
      ≡ map (λ l. (l, stream == 2)) (complete (get_part stream p ++ payload)).0
        ++ demux fuel (set_part stream (complete (get_part stream p ++ payload)).1 p) s'
demux-some fuel p s payload s' stream e =
    unfold demux in
    rw (e, demux)
      (ap (λ d. map (λ l. (l, stream == 2)) d.0 ++ demux fuel (set_part stream d.1 p) s')
        (drain-complete (suc (length (get_part stream p ++ payload))) (get_part stream p ++ payload)
          (omega arith)))

-- A chunk of the stream that a part belongs to, and one of another stream.
pub mine :
    (err : Bool) (part payload more : Bytes) (out : List Emitted)
    → texts err out ≡ all_lines ((complete (part ++ payload)).1 ++ more)
    → texts err (map (λ l. (l, err)) (complete (part ++ payload)).0 ++ out)
      ≡ all_lines (part ++ (payload ++ more))
mine err part payload more out h =
    texts-append err (map (λ l. (l, err)) (complete (part ++ payload)).0) out
    ∙ ap₂ ◌++◌ (texts_same err (complete (part ++ payload)).0) h
    ∙ sym (all_lines-append (part ++ payload) more)
    ∙ ap all_lines (append_assoc part payload more)

pub theirs :
    (err : Bool) (ls : List Bytes) (out : List Emitted)
    → texts err (map (λ l. (l, not err)) ls ++ out) ≡ texts err out
theirs err ls out =
    texts-append err (map (λ l. (l, not err)) ls) out
    ∙ ap (λ xs. xs ++ texts err out) (texts_other err ls)

pub stream_of_stderr : (s : ℕ) → (s == 2) ≡ true → stream_of s ≡ 2
unfolding stream_of
stream_of_stderr s h = ground arith

pub stream_of_stdout : (s : ℕ) → s ≢ 0 → (s == 2) ≡ false → stream_of s ≡ 1
unfolding stream_of
stream_of_stdout s n h = ground arith

pub stream_of_other : (s : ℕ) → (s == 2) ≡ false → (stream_of s == 2) ≡ false
unfolding stream_of
stream_of_other s h = ground arith

pub set_part-stderr :
    (st : ℕ) (b : Bytes) (p : Pending)
    → (st == 2) ≡ false
    → (set_part st b p).stderr_part ≡ p.stderr_part
unfolding set_part
set_part-stderr st b p h = ground arith

-- Docker can frame the payload.
abbrev pub Fits : ℕ × Bytes → Type 0
Fits c = length c.1 < 2 ^ 32

pub set_part-stderr_self : (b : Bytes) (p : Pending) → (set_part 2 b p).stderr_part ≡ b
unfolding set_part
set_part-stderr_self b p = refl

pub set_part-stdout_self :
    (b : Bytes) (p : Pending)
    → ((set_part 1 b p).stdout_part ≡ b) × ((set_part 1 b p).stdin_part ≡ p.stdin_part)
unfolding set_part
set_part-stdout_self b p = (refl, refl)

pub set_part-stdout_other :
    (b : Bytes) (p : Pending)
    → ((set_part 2 b p).stdout_part ≡ p.stdout_part) × ((set_part 2 b p).stdin_part ≡ p.stdin_part)
unfolding set_part
set_part-stdout_other b p = (refl, refl)

pub get_part_stdout : (p : Pending) {part : Bytes} → p.stdout_part ≡ part → get_part 1 p ≡ part
unfolding get_part
get_part_stdout p e = e

pub get_part_stderr : (p : Pending) {part : Bytes} → p.stderr_part ≡ part → get_part 2 p ≡ part
unfolding get_part
get_part_stderr p e = e

-- One round of the outer loop on a chunk that Docker framed.
pub demux_chunk :
    (fuel : ℕ) (p : Pending) (s : ℕ) (payload more : Bytes)
    → length payload < 2 ^ 32
    → demux (suc fuel) p (encode_chunk (s, payload) ++ more)
      ≡ map (λ l. (l, stream_of s == 2)) (complete (get_part (stream_of s) p ++ payload)).0
        ++ demux fuel
            (set_part (stream_of s) (complete (get_part (stream_of s) p ++ payload)).1 p)
            more
demux_chunk fuel p s payload more h =
    demux-some fuel p (encode_chunk (s, payload) ++ more) payload more (stream_of s)
      (next_chunk-encode_chunk s payload more h)
