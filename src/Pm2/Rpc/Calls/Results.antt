-- ===== src/Pm2/Rpc/Calls/Results.antt =====
-- What a call of pm2 gives, with pm2 at the other end.
use pc_monitor.Base.{
  ℕ, suc, true, false, ◌||◌, List, [], ◌∷◌, ◌++◌, some, Bytes, codes, bytes_eq, bytes_eq_refl,
  length, ltb, if◌then◌else◌, All, ◌≡◌, refl, sym, ap, ◌∙◌, arith, append-nil,
}
use pc_monitor.Pm2.Clean.{Unicode}
use pc_monitor.Pm2.Rpc.{encode_frame, read_frame, not_ours, ok}
use pc_monitor.Pm2.Rpc.Frames.{read_frame-encode_frame}
use pc_monitor.Pm2.Rpc.Reply.{IsFrame, encode_frames, call_answer_skips}
use pc_monitor.Pm2.Rpc.Calls.{
  RpcReply, RpcJson, call_failed, unexpected_reply, stream, results, has_error, read_body,
  parse_reply, parse_answer, call_id, request_frame, converse_with, call, call_bytes,
}

-- A message of pm2 that answers the `n`-th call: a body of JSON and the id that came with it.
abbrev pub answer_frame : ℕ → Bytes → List Bytes
answer_frame n body = (codes "j:" ++ body) ∷ (codes "s:" ++ call_id n) ∷ []

parse_reply-results :
    (u : Unicode) (j : RpcJson) (body : Bytes) (r : RpcReply) (args : List Bytes)
    → j.read_reply body ≡ some r
    → has_error r.error ≡ false
    → r.args ≡ some args
    → parse_reply u j (codes "j:" ++ body) ≡ results args
unfolding parse_reply bytes_eq length
parse_reply-results u j body r args read clear has =
    ap (λ b. if b || false then call_failed unexpected_reply else read_body u j (j.read_reply body))
      (two body)
    ∙ rw (read, clear, has) refl
  where
    two : (b : Bytes) → ltb (suc (suc (length b))) 2 ≡ false
    two b = ground arith

answer_frame-ours : (n : ℕ) (body : Bytes) → not_ours (call_id n) (answer_frame n body) ≡ false
unfolding not_ours length
answer_frame-ours n body = rw (bytes_eq_refl (codes "s:" ++ call_id n)) refl

-- A call whose request and reply fit pm2's frames, where pm2 answers it with a body that JSON reads
-- as results without an error: what the call writes is one frame, which pm2 reads back as the
-- request and the call's own id, and the call gives the results of the body, however many frames
-- with other ids come before it and whatever comes behind.
pub call-results :
    (u : Unicode) (j : RpcJson) (n : ℕ) (method : Bytes) (args : List Bytes) (req : Bytes)
    (others : List (List Bytes)) (body : Bytes) (r : RpcReply) (res : List Bytes) (rest : Bytes)
    → j.write_call method args ≡ some req
    → IsFrame (answer_frame n req)
    → All (λ f. IsFrame f × (not_ours (call_id n) f ≡ true)) others
    → IsFrame (answer_frame n body)
    → j.read_reply body ≡ some r
    → has_error r.error ≡ false
    → r.args ≡ some res
    → ((sent : Bytes) × (call_bytes j n method args ≡ some sent)
        × (read_frame sent ≡ ok ((codes "j:" ++ req) ∷ (codes "s:" ++ call_id n) ∷ []) []))
      × (call u j n method args
            (stream (encode_frames others ++ (encode_frame (answer_frame n body) ++ rest)))
          ≡ results res)
unfolding call call_bytes
call-results u j n method args req others body r res rest writes f all g reads clear has = (
  (
    request_frame n req,
    rw (writes, call_bytes) refl,
    ap read_frame (sym (append-nil (request_frame n req)))
        ∙ read_frame-encode_frame _ [] f.count f.small,
  ),
  ap (λ m. converse_with u j n m (stream s)) writes
      ∙ ap (parse_answer u j) (
          call_answer_skips (call_id n) others (answer_frame n body) rest all g
            (answer_frame-ours n body))
      ∙ parse_reply-results u j body r res reads clear has,
)
  where
    s : Bytes
    s = encode_frames others ++ (encode_frame (answer_frame n body) ++ rest)
