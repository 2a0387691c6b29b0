-- ===== src/Docker/Stream/Lines.antt =====
-- Where Docker cuts its chunks makes no difference to the lines.
use pc_monitor.Base.{
  ℕ, zero, suc, ◌≤◌, ◌<◌, true, false, not, List, [], ◌∷◌, ◌++◌, append_assoc, append-nil, none,
  Bytes, length, length-append, All, ◌==◌, ◌≡◌, ◌≢◌, refl, sym, ap, ◌∙◌, arith, Bool-cases, inl,
  inr,
}
use pc_monitor.Base.Lines.{complete, complete-rest, last_line, all_lines, all_lines_unfinished}
use pc_monitor.Docker.Stream.{
  Pending, stream_of, get_part, set_part, next_chunk, demux, nothing_pending, read_multiplexed,
}
use pc_monitor.Docker.Stream.Chunks.{
  encode_chunk, encode_chunks, payloads, texts, flush-stderr, flush-stdout, demux-none, mine,
  theirs, stream_of_stderr, stream_of_stdout, stream_of_other, set_part-stderr, Fits,
  set_part-stderr_self, set_part-stdout_self, set_part-stdout_other, get_part_stdout,
  get_part_stderr, demux_chunk,
}

-- The lines of one kind that a run still gives, from what is pending for them.
demux-stderr :
    (fuel : ℕ) (cs : List (ℕ × Bytes)) (tail : Bytes) (p : Pending) (part : Bytes)
    → length cs < fuel
    → All Fits cs
    → next_chunk tail ≡ none
    → p.stderr_part ≡ part
    → complete part ≡ ([], part)
    → texts true (demux fuel p (encode_chunks cs ++ tail))
      ≡ all_lines (part ++ payloads (λ s. s == 2) cs)
unfolding encode_chunks payloads
demux-stderr zero cs tail p part h fits ends e unfinished = elim h [ ]
demux-stderr (suc fuel) [] tail p part h fits ends e unfinished =
    ap (texts true) (demux-none fuel p tail ends)
    ∙ flush-stderr p
    ∙ ap last_line e
    ∙ sym (all_lines_unfinished part unfinished)
    ∙ ap all_lines (sym (append-nil part))
demux-stderr (suc fuel) ((s, payload) ∷ cs) tail p part h fits ends e unfinished =
    ap (λ t. texts true (demux (suc fuel) p t))
      (append_assoc (encode_chunk (s, payload)) (encode_chunks cs) tail)
    ∙ ap (texts true) (demux_chunk fuel p s payload (encode_chunks cs ++ tail) fits.0)
    ∙ elim (Bool-cases (s == 2)) [
      | inl is ↦
          rw (stream_of_stderr s is, is, get_part_stderr p e)
            (mine true part payload (payloads (λ s. s == 2) cs) _ (
              demux-stderr fuel cs tail (set_part 2 (complete (part ++ payload)).1 p)
                (complete (part ++ payload)).1 (omega arith) fits.1 ends (set_part-stderr_self _ p)
                (complete-rest (part ++ payload))))
      | inr other ↦
          rw (stream_of_other s other, other)
            (theirs true (complete (get_part (stream_of s) p ++ payload)).0 _
              ∙ demux-stderr fuel cs tail
                  (set_part (stream_of s) (complete (get_part (stream_of s) p ++ payload)).1 p) part
                  (omega arith) fits.1 ends
                  (set_part-stderr (stream_of s) _ p (stream_of_other s other) ∙ e) unfinished)
    ]

demux-stdout :
    (fuel : ℕ) (cs : List (ℕ × Bytes)) (tail : Bytes) (p : Pending) (part : Bytes)
    → length cs < fuel
    → All Fits cs
    → All (λ c. c.0 ≢ 0) cs
    → next_chunk tail ≡ none
    → p.stdin_part ≡ []
    → p.stdout_part ≡ part
    → complete part ≡ ([], part)
    → texts false (demux fuel p (encode_chunks cs ++ tail))
      ≡ all_lines (part ++ payloads (λ s. not (s == 2)) cs)
unfolding encode_chunks payloads
demux-stdout zero cs tail p part h fits out ends empty e unfinished = elim h [ ]
demux-stdout (suc fuel) [] tail p part h fits out ends empty e unfinished =
    ap (texts false) (demux-none fuel p tail ends)
    ∙ flush-stdout p empty
    ∙ ap last_line e
    ∙ sym (all_lines_unfinished part unfinished)
    ∙ ap all_lines (sym (append-nil part))
demux-stdout (suc fuel) ((s, payload) ∷ cs) tail p part h fits out ends empty e unfinished =
    ap (λ t. texts false (demux (suc fuel) p t))
      (append_assoc (encode_chunk (s, payload)) (encode_chunks cs) tail)
    ∙ ap (texts false) (demux_chunk fuel p s payload (encode_chunks cs ++ tail) fits.0)
    ∙ elim (Bool-cases (s == 2)) [
      | inl is ↦
          rw (stream_of_stderr s is, is)
            (theirs false (complete (get_part 2 p ++ payload)).0 _
              ∙ demux-stdout fuel cs tail (set_part 2 (complete (get_part 2 p ++ payload)).1 p) part
                  (omega arith) fits.1 out.1 ends ((set_part-stdout_other _ p).1 ∙ empty)
                  ((set_part-stdout_other _ p).0 ∙ e) unfinished)
      | inr other ↦
          rw (stream_of_stdout s out.0 other, other, get_part_stdout p e)
            (mine false part payload (payloads (λ s. not (s == 2)) cs) _ (
              demux-stdout fuel cs tail (set_part 1 (complete (part ++ payload)).1 p)
                (complete (part ++ payload)).1 (omega arith) fits.1 out.1 ends
                ((set_part-stdout_self _ p).1 ∙ empty) (set_part-stdout_self _ p).0
                (complete-rest (part ++ payload))))
    ]

length-encode_chunks : (cs : List (ℕ × Bytes)) → length cs ≤ length (encode_chunks cs)
unfolding encode_chunks encode_chunk
length-encode_chunks [] = omega arith
length-encode_chunks ((s, payload) ∷ cs) =
    omega
      (arith, length-append (encode_chunk (s, payload)) (encode_chunks cs), length-encode_chunks cs)

enough_fuel :
    (cs : List (ℕ × Bytes)) (tail : Bytes) → length cs < suc (length (encode_chunks cs ++ tail))
enough_fuel cs tail = omega (arith, length-append (encode_chunks cs) tail, length-encode_chunks cs)

read_multiplexed-stderr :
    (cs : List (ℕ × Bytes)) (tail : Bytes)
    → All Fits cs
    → next_chunk tail ≡ none
    → texts true (read_multiplexed (encode_chunks cs ++ tail))
      ≡ all_lines (payloads (λ s. s == 2) cs)
unfolding read_multiplexed complete
read_multiplexed-stderr cs tail fits ends =
    demux-stderr (suc (length (encode_chunks cs ++ tail))) cs tail nothing_pending []
      (enough_fuel cs tail) fits ends refl refl

read_multiplexed-stdout :
    (cs : List (ℕ × Bytes)) (tail : Bytes)
    → All Fits cs
    → All (λ c. c.0 ≢ 0) cs
    → next_chunk tail ≡ none
    → texts false (read_multiplexed (encode_chunks cs ++ tail))
      ≡ all_lines (payloads (λ s. not (s == 2)) cs)
unfolding read_multiplexed complete
read_multiplexed-stdout cs tail fits out ends =
    demux-stdout (suc (length (encode_chunks cs ++ tail))) cs tail nothing_pending []
      (enough_fuel cs tail) fits out ends refl refl refl

-- Where each payload fits its length field, Docker sends no chunk of stream 0 (which would keep a
-- buffer of its own) and the stream ends in no complete chunk: the stderr lines of a log are the
-- lines of all stderr payloads joined, and its other lines those of all other payloads joined,
-- wherever Docker cut them into chunks; a last line without a newline counts.
pub read_multiplexed_lines :
    (cs : List (ℕ × Bytes)) (tail : Bytes)
    → All Fits cs
    → All (λ c. c.0 ≢ 0) cs
    → next_chunk tail ≡ none
    → (texts true (read_multiplexed (encode_chunks cs ++ tail))
        ≡ all_lines (payloads (λ s. s == 2) cs))
      × (texts false (read_multiplexed (encode_chunks cs ++ tail))
          ≡ all_lines (payloads (λ s. not (s == 2)) cs))
read_multiplexed_lines cs tail fits out ends =
    (read_multiplexed-stderr cs tail fits ends, read_multiplexed-stdout cs tail fits out ends)
