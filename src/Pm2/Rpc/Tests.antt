-- ===== src/Pm2/Rpc/Tests.antt =====
-- A call of pm2 whose answer comes behind that of another call.
use pc_monitor.Base.{
  [], ◌∷◌, ◌++◌, Bytes, codes, some, none, length, bytes_eq, decimal, decimal_fuel, ◌≡◌, refl,
  arith,
}
use pc_monitor.Pm2.Clean.{Unicode}
use pc_monitor.Pm2.Rpc.{encode_frame, read_frame, not_ours, ok}
use pc_monitor.Pm2.Rpc.Reply.{encode_frames}
use pc_monitor.Pm2.Rpc.Calls.{RpcJson, call, call_bytes, call_id, results, stream}
use pc_monitor.Pm2.Rpc.Calls.Results.{answer_frame, call-results}

abbrev ascii : Unicode
ascii = record { runes = λ s. s; encode = λ s. s; lower = λ s. s }

-- A request is its method; a reply is its one result.
abbrev json : RpcJson
json = record {
  write_call = λ method args. some method;
  read_reply = λ s. some (record { args = some (s ∷ []); error = [] });
  read_text = λ s. none;
}

call-results_example :
    ((sent : Bytes) × (call_bytes json 2 (codes "getMonitorData") [] ≡ some sent)
      × (read_frame sent
          ≡ ok ((codes "j:" ++ codes "getMonitorData") ∷ (codes "s:" ++ call_id 2) ∷ []) []))
    × (call ascii json 2 (codes "getMonitorData") [] (
          stream (
            encode_frames (answer_frame 1 (codes "{}") ∷ [])
            ++ (encode_frame (answer_frame 2 (codes "[]")) ++ codes "rest")))
        ≡ results (codes "[]" ∷ []))
unfolding length not_ours bytes_eq decimal decimal_fuel
call-results_example =
    call-results ascii json 2 (codes "getMonitorData") [] (codes "getMonitorData")
      (answer_frame 1 (codes "{}") ∷ []) (codes "[]")
      (record { args = some (codes "[]" ∷ []); error = [] }) (codes "[]" ∷ []) (codes "rest") refl
      (record { count = omega arith; small = (omega arith, (omega arith, tt)) })
      ((record { count = omega arith; small = (omega arith, (omega arith, tt)) }, refl), tt)
      (record { count = omega arith; small = (omega arith, (omega arith, tt)) }) refl refl refl
