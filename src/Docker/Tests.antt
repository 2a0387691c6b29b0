-- ===== src/Docker/Tests.antt =====
-- The theorems on the log stream, at two chunks of stdout around one of stderr.
use pc_monitor.Base.{
  ℕ, ◌∷◌, [], ◌++◌, List, none, true, false, not, codes, Bytes, length, ◌==◌, ◌≡◌, refl, arith,
}
use pc_monitor.Base.Binary.{read_full}
use pc_monitor.Base.Lines.{all_lines}
use pc_monitor.Docker.Stream.{next_chunk, read_multiplexed}
use pc_monitor.Docker.Stream.Chunks.{encode_chunks, payloads, texts}
use pc_monitor.Docker.Stream.Lines.{read_multiplexed_lines}

abbrev chunks : List (ℕ × Bytes)
chunks = (1, codes "ab") ∷ (2, codes "no\n") ∷ (1, codes "c\nd") ∷ []

-- A header that the stream breaks off in.
abbrev broken : Bytes
broken = 1 ∷ 0 ∷ []

broken_ends : next_chunk broken ≡ none
unfolding next_chunk read_full
broken_ends = refl

read_multiplexed_lines_example :
    (texts true (read_multiplexed (encode_chunks chunks ++ broken))
      ≡ all_lines (payloads (λ s. s == 2) chunks))
    × (texts false (read_multiplexed (encode_chunks chunks ++ broken))
        ≡ all_lines (payloads (λ s. not (s == 2)) chunks))
unfolding length
read_multiplexed_lines_example =
    read_multiplexed_lines chunks broken (omega arith, (omega arith, (omega arith, tt)))
      (λ e. absurd (omega arith), (λ e. absurd (omega arith), (λ e. absurd (omega arith), tt)))
      broken_ends
