-- ===== src/Pm2/Rpc.antt =====
-- agent/internal/providers/pm2/rpc.go: pm2's frames, and the wait for the reply to a call. A stream
-- is the list of the bytes that arrive before it ends. JSON is a parameter of the parts that use
-- it.
pub mod Frames
pub mod Reply
pub mod Waits
pub mod Calls
mod Tests
use Prim.Native.Nat.{bit_or}
use pc_monitor.Base.{
  ℕ, zero, suc, ◌+◌, ◌*◌, ◌/◌, ◌%◌, ◌^◌, Bool, true, false, not, ◌||◌, List, [], ◌∷◌, ◌++◌, Option,
  none, some, Bytes, codes, bytes_eq, length, ltb, ◌==◌, if◌then◌else◌,
}
use pc_monitor.Base.Binary.{be32, u32_of, read_full}

abbrev pub amp_version : ℕ
amp_version = 1

-- 16 << 20
abbrev pub max_arg : ℕ
max_arg = 16 * 2 ^ 20

unfoldable pub encode_args : List Bytes → Bytes
encode_args [] = []
encode_args (a ∷ args) = be32 (length a % 2 ^ 32) ++ (a ++ encode_args args)

unfoldable pub encode_frame : List Bytes → Bytes
encode_frame args = bit_or (amp_version * 2 ^ 4) (length args) % 256 ∷ encode_args args

-- `ended` is the error of `io.ReadFull`.
pub data FrameError : Type 0 where
  ended : FrameError
  bad_version : ℕ → FrameError
  too_large : FrameError

-- The arguments of a frame and the stream behind it.
pub data FrameResult : Type 0 where
  ok : List Bytes → Bytes → FrameResult
  err : FrameError → FrameResult

abbrev pub with_arg : Bytes → FrameResult → FrameResult
with_arg a (ok args s) = ok (a ∷ args) s
with_arg a (err e) = err e

unfoldable pub read_args : ℕ → Bytes → FrameResult
read_args zero s = ok [] s
read_args (suc k) s = elim (read_full 4 s) [
  | none ↦ err ended
  | some (n, s1) ↦
      if ltb max_arg (u32_of n) then err too_large else elim (read_full (u32_of n) s1) [
        | none ↦ err ended
        | some (a, s2) ↦ with_arg a (read_args k s2)
      ]
]

unfoldable pub read_frame : Bytes → FrameResult
read_frame [] = err ended
read_frame (head ∷ s) =
    if not (head / 16 == amp_version)
    then err (bad_version (head / 16))
    else read_args (head % 16) s

abbrev pub last_arg : List Bytes → Bytes
last_arg [] = []
last_arg (a ∷ []) = a
last_arg (a ∷ b ∷ args) = last_arg (b ∷ args)

-- `len(frame) < 2 || string(frame[len(frame)-1]) != "s:"+id`
unfoldable pub not_ours : Bytes → List Bytes → Bool
not_ours id frame = ltb (length frame) 2 || not (bytes_eq (last_arg frame) (codes "s:" ++ id))

abbrev pub head_arg : List Bytes → Bytes
head_arg [] = []
head_arg (a ∷ args) = a

-- The first argument of the reply, or why none came.
pub data Answer : Type 0 where
  reply : Bytes → Answer
  failed : FrameError → Answer

-- The loop of `call` behind the write. Every frame takes at least one byte, so a fuel above the
-- length of the stream never runs out.
unfoldable pub await_reply : ℕ → Bytes → Bytes → Answer
await_reply zero id s = failed ended
await_reply (suc fuel) id s = elim (read_frame s) [
  | err e ↦ failed e
  | ok frame rest ↦
      let later = await_reply fuel id rest in
      if not_ours id frame then later else reply (head_arg frame)
]

unfoldable pub call_answer : Bytes → Bytes → Answer
call_answer id s = await_reply (suc (length s)) id s
