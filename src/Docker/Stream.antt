-- ===== src/Docker/Stream.antt =====
-- agent/internal/providers/docker/docker.go, readMultiplexed: Docker's framed log stream. The
-- stream is the list of the bytes that arrive before it ends. The lines are given in the order in
-- which they are offered to `emit`; a reader that hangs up, which makes `emit` return false, sees
-- the lines up to there, as nothing else happens in between.
pub mod Chunks
pub mod Lines
use pc_monitor.Base.{
  ℕ, zero, suc, Bool, true, false, List, [], ◌∷◌, ◌++◌, Option, none, some, Bytes, length, drop,
  cut, get_or, map, ltb, ◌==◌, if◌then◌else◌,
}
use pc_monitor.Base.Binary.{u32_of, read_full}
use pc_monitor.Base.Lines.{newline}

-- A line, and whether it came from stderr.
abbrev pub Emitted : Type 0
Emitted = Bytes × Bool

-- `pending [3][]byte`
pub record Pending : Type 0 where
  pub stdin_part : Bytes
  pub stdout_part : Bytes
  pub stderr_part : Bytes

-- A stream above 2 is taken for stdout.
unfoldable pub stream_of : ℕ → ℕ
stream_of s = if ltb 2 s then 1 else s

unfoldable pub get_part : ℕ → Pending → Bytes
get_part s p = if s == 2 then p.stderr_part else if s == 1 then p.stdout_part else p.stdin_part

unfoldable pub set_part : ℕ → Bytes → Pending → Pending
set_part s b p =
    if s == 2
    then record p { stderr_part = b }
    else if s == 1
    then record p { stdout_part = b }
    else record p { stdin_part = b }

-- One header with its payload: the stream, the payload, what follows. `none` where the stream
-- ends before, which leaves the outer loop.
unfoldable pub next_chunk : Bytes → Option (ℕ × Bytes × Bytes)
next_chunk s = elim (read_full 8 s) [
  | none ↦ none
  | some (hdr, s1) ↦ elim (read_full (u32_of (drop 4 hdr)) s1) [
    | none ↦ none
    | some (payload, s2) ↦ some (stream_of (get_or hdr 0 0), payload, s2)
  ]
]

-- The inner loop: lines are cut off the buffer as long as it holds a newline. Each takes a byte,
-- so a fuel above the buffer's length is enough.
unfoldable pub drain : ℕ → Bytes → List Bytes × Bytes
drain zero buf = ([], buf)
drain (suc fuel) buf = elim (cut newline buf) [
  | none ↦ ([], buf)
  | some (line, rest) ↦ (line ∷ (drain fuel rest).0, (drain fuel rest).1)
]

-- The last loop: what was pending when the stream ended.
abbrev pub flush_part : Bytes → Bool → List Emitted
flush_part [] err = []
flush_part (c ∷ rest) err = (c ∷ rest, err) ∷ []

unfoldable pub flush : Pending → List Emitted
flush p =
    flush_part p.stdin_part false
    ++ (flush_part p.stdout_part false ++ flush_part p.stderr_part true)

-- Each round takes at least the eight bytes of a header.
unfoldable pub demux : ℕ → Pending → Bytes → List Emitted
demux zero p s = []
demux (suc fuel) p s = elim (next_chunk s) [
  | none ↦ flush p
  | some (stream, payload, s') ↦
      let buf = get_part stream p ++ payload in
      let (lines, rest) = drain (suc (length buf)) buf in
      map (λ l. (l, stream == 2)) lines ++ demux fuel (set_part stream rest p) s'
]

abbrev pub nothing_pending : Pending
nothing_pending = record { stdin_part = []; stdout_part = []; stderr_part = [] }

unfoldable pub read_multiplexed : Bytes → List Emitted
read_multiplexed s = demux (suc (length s)) nothing_pending s
