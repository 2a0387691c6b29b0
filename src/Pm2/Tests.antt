-- ===== src/Pm2/Tests.antt =====
-- The theorems on pm2's frames, at a small one, and on its logs, at a file with an unfinished line
-- that another file takes the place of.
use pc_monitor.Base.{
  ◌∷◌, [], ◌++◌, List, codes, Bytes, length, ◌<◌, ◌≤◌, ◌≡◌, refl, arith, All, bytes_eq,
}
use pc_monitor.Pm2.Rpc.{max_arg, encode_frame, call_answer}
use pc_monitor.Pm2.Rpc.Frames.{read_frame-encode_frame, read_frame_bounds}
use pc_monitor.Pm2.Rpc.Waits.{Waits, call_answer-Waits}
use pc_monitor.Base.{true, false}
use pc_monitor.Pm2.Logs.{TextTools, usable_log}
use pc_monitor.Pm2.Logs.Follow.{stat_of, handle_of, tracked, joined}
use pc_monitor.Pm2.Logs.Finished.{finished}
use pc_monitor.Pm2.Logs.Replaced.{poll_lines, grown, poll_lines-replaced}
use pc_monitor.Base.{inl}

abbrev ours : List Bytes
ours = codes "j:{}" ∷ codes "s:2" ∷ []

abbrev rest : Bytes
rest = 7 ∷ []

read_frame_bounds_example :
    (length ours < 16)
    × All (λ a. length a ≤ max_arg) ours
    × (length rest < length (encode_frame ours ++ rest))
unfolding length
read_frame_bounds_example =
    read_frame_bounds (encode_frame ours ++ rest)
      (read_frame-encode_frame ours rest (omega arith) (omega arith, (omega arith, tt)))

call_answer-Waits_example :
    Waits
      (codes "2")
      (encode_frame ours ++ rest)
      (call_answer (codes "2") (encode_frame ours ++ rest))
call_answer-Waits_example = call_answer-Waits (codes "2") (encode_frame ours ++ rest)

-- Nothing to strip, nothing to repair.
abbrev tools : TextTools
tools = record { strip_ansi = λ s. s; to_valid_utf8 = λ s. s }

log_path_usable : usable_log (codes "/a") ≡ true
unfolding usable_log bytes_eq
log_path_usable = refl

abbrev appended : List Bytes
appended = codes "b" ∷ codes "c\nd" ∷ []

poll_lines-replaced_example :
    poll_lines tools (tracked (codes "/a") false false 7 (codes "x\na")) (
      grown 7 (codes "x\na") appended
      ++ ((stat_of 8 (codes "n"), handle_of 8 (codes "n")) ∷ grown 8 (codes "n") appended))
    ≡ finished tools (codes "x\na") (joined appended)
      ++ finished tools [] (codes "n" ++ joined appended)
unfolding length
poll_lines-replaced_example =
    poll_lines-replaced tools (codes "/a") false false log_path_usable 7 (codes "x\na") appended 8
      (codes "n") appended (omega arith, (omega arith, tt)) (inl refl) (omega arith)
      (omega arith, (omega arith, tt))
