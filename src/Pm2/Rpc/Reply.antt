-- ===== src/Pm2/Rpc/Reply.antt =====
-- A call gets its own reply, whatever else the daemon sends in between.
use pc_monitor.Base.{
  ℕ, zero, suc, ◌≤◌, ◌<◌, true, false, List, [], ◌∷◌, ◌++◌, append_assoc, Bytes, length, All, ◌≡◌,
  ap, ◌∙◌, arith, length-append, if◌then◌else◌,
}
use pc_monitor.Pm2.Rpc.{
  max_arg, encode_frame, FrameError, ok, err, read_frame, not_ours, head_arg, reply, failed,
  await_reply, call_answer,
}
use pc_monitor.Pm2.Rpc.Frames.{read_frame-encode_frame}

-- A frame that the daemon can send.
pub record IsFrame (args : List Bytes) : Type 0 where
  pub count : length args < 16
  pub small : All (λ a. length a ≤ max_arg) args

unfoldable pub encode_frames : List (List Bytes) → Bytes
encode_frames [] = []
encode_frames (f ∷ fs) = encode_frame f ++ encode_frames fs

length-encode_frame : (f : List Bytes) → 0 < length (encode_frame f)
unfolding encode_frame
length-encode_frame f = omega arith

pub await_reply_ok :
    (fuel : ℕ) (id s : Bytes) {frame : List Bytes} {rest : Bytes}
    → read_frame s ≡ ok frame rest
    → await_reply (suc fuel) id s
      ≡ (if not_ours id frame then await_reply fuel id rest else reply (head_arg frame))
unfolding await_reply
await_reply_ok fuel id s e = rw (e, await_reply)

pub await_reply_err :
    (fuel : ℕ) (id s : Bytes) {e : FrameError}
    → read_frame s ≡ err e
    → await_reply (suc fuel) id s ≡ failed e
unfolding await_reply
await_reply_err fuel id s e = rw (e, await_reply)

await_reply-encode_frames :
    (fuel : ℕ) (id : Bytes) (others : List (List Bytes)) (ours : List Bytes) (rest : Bytes)
    → length others < fuel
    → All (λ f. IsFrame f × (not_ours id f ≡ true)) others
    → IsFrame ours
    → not_ours id ours ≡ false
    → await_reply fuel id (encode_frames others ++ (encode_frame ours ++ rest))
      ≡ reply (head_arg ours)
unfolding encode_frames
await_reply-encode_frames zero id others ours rest h all f n = elim h [ ]
await_reply-encode_frames (suc fuel) id [] ours rest h all f n =
    await_reply_ok fuel id (encode_frame ours ++ rest)
      (read_frame-encode_frame ours rest f.count f.small)
    ∙ rw n
await_reply-encode_frames (suc fuel) id (o ∷ others) ours rest h all f n =
    ap (await_reply (suc fuel) id)
      (append_assoc (encode_frame o) (encode_frames others) (encode_frame ours ++ rest))
    ∙ await_reply_ok fuel id
        (encode_frame o ++ (encode_frames others ++ (encode_frame ours ++ rest)))
        (read_frame-encode_frame o (encode_frames others ++ (encode_frame ours ++ rest))
          all.0.0.count all.0.0.small)
    ∙ rw all.0.1 (await_reply-encode_frames fuel id others ours rest (omega arith) all.1 f n)

length-encode_frames : (fs : List (List Bytes)) → length fs ≤ length (encode_frames fs)
unfolding encode_frames
length-encode_frames [] = omega arith
length-encode_frames (f ∷ fs) = omega (
  arith,
  length-append (encode_frame f) (encode_frames fs),
  length-encode_frame f,
  length-encode_frames fs,
)

-- Among frames that fit the format, those with other request ids are skipped, however many come
-- first: the answer of a call is the first argument of the first frame that carries its own id.
pub call_answer_skips :
    (id : Bytes) (others : List (List Bytes)) (ours : List Bytes) (rest : Bytes)
    → All (λ f. IsFrame f × (not_ours id f ≡ true)) others
    → IsFrame ours
    → not_ours id ours ≡ false
    → call_answer id (encode_frames others ++ (encode_frame ours ++ rest)) ≡ reply (head_arg ours)
unfolding call_answer
call_answer_skips id others ours rest all f n =
    await_reply-encode_frames (suc (length (encode_frames others ++ (encode_frame ours ++ rest))))
      id others ours rest
      (omega (
        arith,
        length-append (encode_frames others) (encode_frame ours ++ rest),
        length-encode_frames others,
      ))
      all f n
