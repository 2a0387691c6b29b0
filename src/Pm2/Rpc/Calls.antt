-- ===== src/Pm2/Rpc/Calls.antt =====
-- agent/internal/providers/pm2/rpc.go, call, monitorData and parseReply: a call of pm2 from the
-- request to its results. JSON is a parameter; a value of JSON is its text.
pub mod Results
use pc_monitor.Base.{
  ℕ, Bool, true, false, not, ◌&&◌, ◌||◌, List, [], ◌∷◌, ◌++◌, Option, none, some, Bytes, codes,
  bytes_eq, take, drop, length, ltb, ◌==◌, decimal, if◌then◌else◌,
}
use pc_monitor.Pm2.Clean.{Unicode, clean}
use pc_monitor.Pm2.Rpc.{FrameError, encode_frame, Answer, reply, failed, call_answer}

-- What `reply` of the source holds: no arguments where the key is missing or null, and an empty
-- text where there is no error.
pub record RpcReply : Type 0 where
  pub args : Option (List Bytes)
  pub error : Bytes

-- `Marshal` of a request with a method and arguments, and `Unmarshal` into a reply and a string.
pub record RpcJson : Type 0 where
  pub write_call : Bytes → List Bytes → Option Bytes
  pub read_reply : Bytes → Option RpcReply
  pub read_text : Bytes → Option Bytes

-- The socket of pm2: it can't be dialled, the request can't be written, or these bytes come.
pub data Socket : Type 0 where
  not_dialled not_written : Bytes → Socket
  stream : Bytes → Socket

pub data CallFailure : Type 0 where
  dial_failed write_failed refused_by_pm2 : Bytes → CallFailure
  not_marshalled unexpected_reply unreadable_reply no_results no_list : CallFailure
  frame_failed : FrameError → CallFailure

pub data CallResult : Type 0 where
  results : List Bytes → CallResult
  call_failed : CallFailure → CallResult

abbrev pub or_refused : Option Bytes → Bytes
or_refused none = codes "pm2 refused the request"
or_refused (some msg) = msg

abbrev pub results_of : Option (List Bytes) → CallResult
results_of none = call_failed no_results
results_of (some args) = results args

abbrev pub has_error : Bytes → Bool
has_error e = ltb 0 (length e) && not (bytes_eq e (codes "null"))

abbrev pub read_body : Unicode → RpcJson → Option RpcReply → CallResult
read_body u j none = call_failed unreadable_reply
read_body u j (some r) =
    if has_error r.error
    then call_failed (refused_by_pm2 (clean u 200 (or_refused (j.read_text r.error))))
    else results_of r.args

unfoldable pub parse_reply : Unicode → RpcJson → Bytes → CallResult
parse_reply u j arg =
    if ltb (length arg) 2 || not (bytes_eq (take 2 arg) (codes "j:"))
    then call_failed unexpected_reply
    else read_body u j (j.read_reply (drop 2 arg))

-- The id of the `n`-th call.
abbrev pub call_id : ℕ → Bytes
call_id n = codes "dashd:" ++ decimal n

abbrev pub request_frame : ℕ → Bytes → Bytes
request_frame n req = encode_frame ((codes "j:" ++ req) ∷ (codes "s:" ++ call_id n) ∷ [])

abbrev pub parse_answer : Unicode → RpcJson → Answer → CallResult
parse_answer u j (failed e) = call_failed (frame_failed e)
parse_answer u j (reply arg) = parse_reply u j arg

abbrev pub converse : Unicode → RpcJson → ℕ → Socket → CallResult
converse u j n (not_dialled e) = call_failed (dial_failed e)
converse u j n (not_written e) = call_failed (write_failed e)
converse u j n (stream s) = parse_answer u j (call_answer (call_id n) s)

-- The socket is dialled before the request is marshalled.
abbrev pub converse_with : Unicode → RpcJson → ℕ → Option Bytes → Socket → CallResult
converse_with u j n none (not_dialled e) = call_failed (dial_failed e)
converse_with u j n none (not_written e) = call_failed not_marshalled
converse_with u j n none (stream s) = call_failed not_marshalled
converse_with u j n (some req) socket = converse u j n socket

-- `call`, and the bytes that it writes.
unfoldable pub call : Unicode → RpcJson → ℕ → Bytes → List Bytes → Socket → CallResult
call u j n method args socket = converse_with u j n (j.write_call method args) socket

unfoldable pub call_bytes : RpcJson → ℕ → Bytes → List Bytes → Option Bytes
call_bytes j n method args = elim (j.write_call method args) [
  | none ↦ none
  | some req ↦ some (request_frame n req)
]

abbrev pub is_array : Bytes → Bool
is_array [] = false
is_array (c ∷ a) = c == b'['

unfoldable pub first_array : List Bytes → Option Bytes
first_array [] = none
first_array (a ∷ args) = if is_array a then some a else first_array args

-- The list, or why there is none.
pub data ListResult : Type 0 where
  process_list : Bytes → ListResult
  no_process_list : CallFailure → ListResult

abbrev pub list_of : Option Bytes → ListResult
list_of none = no_process_list no_list
list_of (some a) = process_list a

abbrev pub listed_by : CallResult → ListResult
listed_by (results args) = list_of (first_array args)
listed_by (call_failed e) = no_process_list e

unfoldable pub monitor_data : Unicode → RpcJson → ℕ → Socket → ListResult
monitor_data u j n socket = listed_by (call u j n (codes "getMonitorData") (codes "{}" ∷ []) socket)
