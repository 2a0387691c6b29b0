-- ===== src/Api/Server/Recorded.antt =====
-- What the audit log has of a request.
use pc_monitor.Base.{
  false, ℕ, ◌-◌, ◌≤◌, Bool, true, List, [], ◌∷◌, ◌++◌, reverse, reverse-append, take, drop,
  drop-append, length, length-append, ltb, Option, none, some, Bytes, Bool-cases, inl, inr, ◌≡◌,
  ◌↔◌, ◌≢◌, refl, sym, ap, ◌∙◌, arith,
}
use pc_monitor.Base.Int.{pos}
use pc_monitor.Provider.{CallError, bad_action, unknown_unit, other_error}
use pc_monitor.Audit.{Entry, Json, Log, keep, push, append, recent_entries}
use pc_monitor.Audit.Newest.{recent_entries-reverse}
use pc_monitor.Api.Requests.{error_of, Request, Call, worth_recording, action_reply}
use pc_monitor.Api.Endpoints.{client_ip, Server, Caller, Env, entry_of, record_entry, action_done}
use pc_monitor.Api.Server.{handle}
use pc_monitor.Api.Server.Called.{caller_of, after}
use pc_monitor.Api.Server.Guard.{Permits, handle_permitted}

drop-newest :
    (k : ℕ) (es : List Entry) (e : Entry)
    → k ≤ length es
    → take 1 (reverse (drop k (es ++ (e ∷ [])))) ≡ e ∷ []
drop-newest k es e h =
    ap (λ xs. take 1 (reverse xs)) (drop-append k es (e ∷ []) h)
    ∙ ap (take 1) (reverse-append (drop k es) (e ∷ []))

push-newest : (l : Log) (e : Entry) → take 1 (reverse (push l e).recent) ≡ e ∷ []
unfolding push
push-newest l e = elim (Bool-cases (ltb keep (length (l.recent ++ (e ∷ []))))) [
  | inl b ↦ rw b (
      drop-newest (length (l.recent ++ (e ∷ [])) - keep) l.recent e
        (omega (arith, length-append l.recent (e ∷ []))))
  | inr b ↦ rw b (drop-newest 0 l.recent e (omega arith))
]

-- An entry that was appended is the newest one.
append-newest :
    (j : Json) (l : Log) (e : Entry) (written : Bool) {raw : Bytes}
    → j.marshal e ≡ some raw
    → recent_entries (append j l e written).1 (pos 1) ≡ some (e ∷ [])
unfolding append
append-newest j l e written {raw} h =
    recent_entries-reverse (append j l e written).1 1
    ∙ ap (λ xs. some (take 1 (reverse xs))) (pushed h)
    ∙ ap some (push-newest l e)
  where
    pushed : j.marshal e ≡ some raw → (append j l e written).1.recent ≡ (push l e).recent
    pushed k = rw (k, append) refl

-- Only the two answers that a provider knows no such unit or action are left out.
worth_recording_lem :
    (answer : Option CallError)
    → answer ≢ some bad_action
    → answer ≢ some unknown_unit
    → worth_recording answer ≡ true
worth_recording_lem none a u = refl
worth_recording_lem (some bad_action) a u = absurd (a refl)
worth_recording_lem (some unknown_unit) a u = absurd (u refl)
worth_recording_lem (some (other_error e)) a u = refl

status_iff :
    (id action : Bytes) (answer : Option CallError)
    → worth_recording answer ≡ true
    → ((action_reply id action answer).status ≡ 200) ↔ (answer ≡ none)
status_iff id action none h = ground arith
status_iff id action (some bad_action) h = ground arith
status_iff id action (some unknown_unit) h = ground arith
status_iff id action (some (other_error e)) h = ground arith

module _ {S : Type 0} where
  -- What the log keeps of the request: who asked from where, for what, and whether it succeeded.
  abbrev pub entry_for :
      (env : Env S) (r : Request) (s : Server S) (call : Call) → Permits env r s call → Entry
  entry_for env r s call p =
      let answer = env.call call.service call.local call.action in
      record {
        time = env.time;
        user = p.sess.user;
        ip = client_ip env r;
        unit = p.id;
        action = call.action;
        ok = (elim answer [ none ↦ true | some e ↦ false ]);
        error = error_of answer;
      }

  action_done-newest :
      (env : Env S) (c : Caller) (id action : Bytes) (e : Option CallError) (called : Option Call)
      (s : Server S) {raw : Bytes}
      → worth_recording e ≡ true
      → env.json.marshal (entry_of env c id action e) ≡ some raw
      → recent_entries (action_done env c id action (e, called) s).server.audit (pos 1)
        ≡ some (entry_of env c id action e ∷ [])
  unfolding record_entry
  action_done-newest env c id action e called s worth h =
      rw worth (append-newest env.json s.audit (entry_of env c id action e) env.audit_writable h)

-- Where a request has a provider called, whose answer is a success or any error but that it knows
-- no such unit or action, the newest entry of the audit log is then that of the request, with the session's
-- user, the caller's address, the id and the action and whether it succeeded, even where the file
-- can't be written, if JSON can hold it; and the status is 200 exactly where it succeeded.
pub handle-recorded :
    {S : Type 0} (env : Env S) (r : Request) (s : Server S) (call : Call) (p : Permits env r s call)
    {raw : Bytes}
    → env.call call.service call.local call.action ≢ some bad_action
    → env.call call.service call.local call.action ≢ some unknown_unit
    → env.json.marshal (entry_for env r s call p) ≡ some raw
    → (recent_entries (handle env r s).server.audit (pos 1) ≡ some (entry_for env r s call p ∷ []))
      × (((handle env r s).reply.status ≡ 200)
          ↔ (env.call call.service call.local call.action ≡ none))
handle-recorded env r s call p known_action known_unit h =
    let answer = env.call call.service call.local call.action in
    let worth = worth_recording_lem answer known_action known_unit in
    let same = handle_permitted env r s p in
    (
      ap (λ o. recent_entries o.server.audit (pos 1)) same
          ∙ action_done-newest env (caller_of env r p.token p.sess) p.id call.action answer
              (some call) (after env p.token s) worth h,
      (
        λ e. (status_iff p.id call.action answer worth).0 (sym (ap (λ o. o.reply.status) same) ∙ e),
        λ e. ap (λ o. o.reply.status) same ∙ (status_iff p.id call.action answer worth).1 e,
      ),
    )
