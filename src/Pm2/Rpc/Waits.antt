-- ===== src/Pm2/Rpc/Waits.antt =====
-- The wait for a reply, on any stream.
use pc_monitor.Base.{
  ℕ, zero, suc, ◌<◌, Bool-cases, false, List, [], ◌∷◌, ◌++◌, Bytes, codes, bytes_eq_iff, length,
  ◌≡◌, ◌⊎◌, inl, inr, refl, sym, ap, ◌∙◌, subst, arith,
}
use pc_monitor.Pm2.Rpc.{
  FrameError, FrameResult, ok, err, read_frame, not_ours, last_arg, head_arg, Answer, reply, failed,
  await_reply, call_answer,
}
use pc_monitor.Pm2.Rpc.Frames.{read_frame_bounds}
use pc_monitor.Pm2.Rpc.Reply.{await_reply_ok, await_reply_err}

-- A frame of at least two arguments, of which the last one is the id of the call.
pub record IsOurs (id : Bytes) (frame : List Bytes) (first : Bytes) : Type 0 where
  pub middle : List Bytes
  pub is : frame ≡ first ∷ (middle ++ ((codes "s:" ++ id) ∷ []))

-- How a wait ends: with the error of a frame that can't be read, or with the first argument of the
-- first frame that is ours, behind any number of others.
pub data Waits (id : Bytes) : Bytes → Answer → Type 0 where
  broken : {s : Bytes} {e : FrameError} → read_frame s ≡ err e → Waits id s (failed e)
  found :
      {s rest first : Bytes} {frame : List Bytes}
      → read_frame s ≡ ok frame rest
      → IsOurs id frame first
      → Waits id s (reply first)
  passed_by :
      {s rest : Bytes} {frame : List Bytes} {a : Answer}
      → read_frame s ≡ ok frame rest
      → ((first : Bytes) → ¬ IsOurs id frame first)
      → Waits id rest a
      → Waits id s a

split_last :
    (b : Bytes) (args : List Bytes)
    → (middle : List Bytes) × (b ∷ args ≡ middle ++ (last_arg (b ∷ args) ∷ []))
split_last b [] = ([], refl)
split_last b (c ∷ args) = let (middle, e) = split_last c args in (b ∷ middle, ap (◌∷◌ b) e)

last_arg_concat : (a x : Bytes) (middle : List Bytes) → last_arg (a ∷ (middle ++ (x ∷ []))) ≡ x
last_arg_concat a x [] = refl
last_arg_concat a x (b ∷ middle) = last_arg_concat b x middle

not_ours-IsOurs :
    (id : Bytes) (frame : List Bytes) → not_ours id frame ≡ false → IsOurs id frame (head_arg frame)
unfolding not_ours length
not_ours-IsOurs id [] h = absurd (ground (arith, h))
not_ours-IsOurs id (a ∷ []) h = absurd (ground (arith, h))
not_ours-IsOurs id (a ∷ (b ∷ args)) h =
    let (middle, e) = split_last b args in
    record {
      middle = middle;
      is =
          ap (◌∷◌ a) e
          ∙ ap (λ x. a ∷ (middle ++ (x ∷ [])))
              ((bytes_eq_iff (last_arg (b ∷ args)) (codes "s:" ++ id)).0 (ground (arith, h)));
    }

IsOurs-not_ours :
    (id : Bytes) (frame : List Bytes) (first : Bytes)
    → IsOurs id frame first
    → not_ours id frame ≡ false
unfolding not_ours length
IsOurs-not_ours id frame first p = ap (not_ours id) p.is ∙ of_middle p.middle
  where
    of_middle :
        (middle : List Bytes) → not_ours id (first ∷ (middle ++ ((codes "s:" ++ id) ∷ []))) ≡ false
    of_middle [] = ground (arith, (bytes_eq_iff (codes "s:" ++ id) (codes "s:" ++ id)).1 refl)
    of_middle (m ∷ middle) = ground (
      arith,
      (bytes_eq_iff (last_arg (m ∷ (middle ++ ((codes "s:" ++ id) ∷ [])))) (codes "s:" ++ id)).1
          (last_arg_concat m (codes "s:" ++ id) middle),
    )

FrameResult-cases :
    (r : FrameResult)
    → ((e : FrameError) × (r ≡ err e))
      ⊎ ((frame : List Bytes) × (rest : Bytes) × (r ≡ ok frame rest))
FrameResult-cases (ok frame rest) = inr (frame, rest, refl)
FrameResult-cases (err e) = inl (e, refl)

await_reply-Waits : (fuel : ℕ) (id s : Bytes) → length s < fuel → Waits id s (await_reply fuel id s)
await_reply-Waits zero id s h = elim h [ ]
await_reply-Waits (suc fuel) id s h = elim (FrameResult-cases (read_frame s)) [
  | inl (e, r) ↦ subst (Waits id s) (sym (await_reply_err fuel id s r)) (broken r)
  | inr (frame, rest, r) ↦
      subst (Waits id s) (sym (await_reply_ok fuel id s r)) (elim (Bool-cases (not_ours id frame)) [
        | inl e ↦ rw e (
            passed_by r (λ first is. ground (arith, e, IsOurs-not_ours id frame first is))
              (await_reply-Waits fuel id rest
                (let shorter = (read_frame_bounds s r).2 in omega arith)))
        | inr e ↦ rw e (found r (not_ours-IsOurs id frame e))
      ])
]

-- On whatever comes over the socket the wait for a reply ends: with the first argument of the first
-- frame that has at least two arguments and the id of the call as its last one, behind any number of
-- other frames, or with the error of the first frame before it that can't be read.
pub call_answer-Waits : (id s : Bytes) → Waits id s (call_answer id s)
unfolding call_answer
call_answer-Waits id s = await_reply-Waits (suc (length s)) id s (omega arith)
