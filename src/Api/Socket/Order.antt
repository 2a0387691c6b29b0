-- ===== src/Api/Socket/Order.antt =====
-- What a client gets, and in which order.
use pc_monitor.Base.{
  ◌≤◌, ◌<◌, Bool, true, false, ◌||◌, List, [], ◌∷◌, ◌++◌, append_assoc, append-nil, none, some,
  Bytes, length, length-append, ltb, if◌then◌else◌, Bool-cases, inl, inr, ◌⊎◌, ◌≡◌, refl, sym, ap,
  ◌∙◌, arith, subst,
}
use pc_monitor.Api.Socket.{
  send_size, Client, Event, try_send, send_envelope, write_next, ping, watch, read_failed, read,
  cancel, offer, offer_waiting, write_round, write_head, cancel_if, read_message, on_event,
  accepted_client, run_client,
}

-- The messages for the client, in the order in which they come, without those of a log stream that
-- was stopped while they waited.
abbrev pub messages_of : List Event → List Bytes
messages_of [] = []
messages_of (try_send m ∷ es) = m ∷ messages_of es
messages_of (send_envelope true m ∷ es) = messages_of es
messages_of (send_envelope false m ∷ es) = m ∷ messages_of es
messages_of (write_next b ∷ es) = messages_of es
messages_of (ping b ∷ es) = messages_of es
messages_of (watch b ∷ es) = messages_of es
messages_of (read_failed ∷ es) = messages_of es
messages_of (read m ∷ es) = messages_of es

-- Once cancelled, always cancelled, and nothing is written.
abbrev IsOver : Client → Client → Type 0
IsOver c d = (d.cancelled ≡ true) × (d.written ≡ c.written)

offer-IsOver : (m : Bytes) (c : Client) → c.cancelled ≡ true → IsOver c (offer m c)
unfolding offer
offer-IsOver m c h = elim (Bool-cases (ltb (length c.queue) send_size)) [
  | inl e ↦ rw e (h, refl)
  | inr e ↦ rw e (refl, refl)
]

on_event-IsOver : (e : Event) (c : Client) → c.cancelled ≡ true → IsOver c (on_event e c)
unfolding on_event offer_waiting write_round cancel_if
on_event-IsOver (try_send m) c h = offer-IsOver m c h
on_event-IsOver (send_envelope b m) c h = rw h (refl, refl)
on_event-IsOver (write_next b) c h = rw h (refl, refl)
on_event-IsOver (ping true) c h = (refl, refl)
on_event-IsOver (ping false) c h = (h, refl)
on_event-IsOver (watch true) c h = (refl, refl)
on_event-IsOver (watch false) c h = (h, refl)
on_event-IsOver read_failed c h = (refl, refl)
on_event-IsOver (read m) c h = rw h (refl, refl)

run_client-IsOver : (es : List Event) (c : Client) → c.cancelled ≡ true → IsOver c (run_client c es)
unfolding run_client
run_client-IsOver [] c h = (h, refl)
run_client-IsOver (e ∷ es) c h =
    let (over, same) = on_event-IsOver e c h in
    let (over', same') = run_client-IsOver es (on_event e c) over in (over', same' ∙ same)

-- What the client has got and what waits for it.
abbrev all_of : Client → List Bytes
all_of c = c.written ++ c.queue

-- The messages that an event brings stand behind the others, and the queue keeps within its size.
abbrev Keeps : List Bytes → Client → Client → Type 0
Keeps new c d = (all_of d ≡ all_of c ++ new) × (length d.queue ≤ send_size)

offer-Keeps :
    (m : Bytes) (c : Client)
    → length c.queue ≤ send_size
    → (offer m c).cancelled ≡ false
    → Keeps (m ∷ []) c (offer m c)
unfolding offer
offer-Keeps m c small h = elim (Bool-cases (ltb (length c.queue) send_size)) [
  | inr e ↦ absurd (ground (arith, h, e))
  | inl e ↦ rw e (sym (append_assoc c.written c.queue (m ∷ [])), longer c.queue (ground (arith, e)))
]
  where
    longer : (q : List Bytes) → length q < send_size → length (q ++ (m ∷ [])) ≤ send_size
    longer q k = omega (arith, length-append q (m ∷ []), one)
      where
        one : length (m ∷ []) ≡ 1
        one = ground arith

write_head-Keeps :
    (b : Bool) (q : List Bytes) (c : Client)
    → q ≡ c.queue
    → length c.queue ≤ send_size
    → (write_head b q c).cancelled ≡ false
    → Keeps [] c (write_head b q c)
write_head-Keeps b [] c e small h = (sym (append-nil (all_of c)), small)
write_head-Keeps true (m ∷ ms) c e small h = absurd (ground (arith, h))
write_head-Keeps false (m ∷ ms) c e small h = (
  append_assoc c.written (m ∷ []) ms ∙ ap (λ q. c.written ++ q) e ∙ sym (append-nil (all_of c)),
  shorter ms (subst (λ q. length q ≤ send_size) (sym e) small),
)
  where
    shorter : (q : List Bytes) → length (m ∷ q) ≤ send_size → length q ≤ send_size
    shorter q k = ground (arith, k)

same-Keeps : (c : Client) → length c.queue ≤ send_size → Keeps [] c c
same-Keeps c small = (sym (append-nil (all_of c)), small)

on_event-Keeps :
    (e : Event) (c : Client)
    → c.cancelled ≡ false
    → length c.queue ≤ send_size
    → (on_event e c).cancelled ≡ false
    → Keeps (messages_of (e ∷ [])) c (on_event e c)
unfolding on_event offer_waiting write_round cancel_if
on_event-Keeps (try_send m) c live small h = offer-Keeps m c small h
on_event-Keeps (send_envelope true m) c live small h =
    subst (λ b. Keeps [] c (if b || true then c else offer m c)) (sym live) (same-Keeps c small)
on_event-Keeps (send_envelope false m) c live small h =
    subst
      (λ b.
        (if b || false then c else offer m c).cancelled ≡ false
        → Keeps (m ∷ []) c (if b || false then c else offer m c))
      (sym live) (offer-Keeps m c small) h
on_event-Keeps (write_next b) c live small h =
    subst
      (λ x.
        (if x then c else write_head b c.queue c).cancelled ≡ false
        → Keeps [] c (if x then c else write_head b c.queue c))
      (sym live) (write_head-Keeps b c.queue c refl small) h
on_event-Keeps (ping true) c live small h = absurd (ground (arith, h))
on_event-Keeps (ping false) c live small h = same-Keeps c small
on_event-Keeps (watch true) c live small h = absurd (ground (arith, h))
on_event-Keeps (watch false) c live small h = same-Keeps c small
on_event-Keeps read_failed c live small h = absurd (ground (arith, h))
on_event-Keeps (read none) c live small h =
    subst (λ b. Keeps [] c (if b then c else c)) (sym live) (same-Keeps c small)
on_event-Keeps (read (some m)) c live small h =
    subst (λ b. Keeps [] c (if b then c else read_message (some m) c)) (sym live)
      (same-Keeps c small)

messages_of-cons :
    (e : Event) (es : List Event) → messages_of (e ∷ es) ≡ messages_of (e ∷ []) ++ messages_of es
messages_of-cons (try_send m) es = refl
messages_of-cons (send_envelope true m) es = refl
messages_of-cons (send_envelope false m) es = refl
messages_of-cons (write_next b) es = refl
messages_of-cons (ping b) es = refl
messages_of-cons (watch b) es = refl
messages_of-cons read_failed es = refl
messages_of-cons (read m) es = refl

write_head-cut_off :
    (b : Bool) (q : List Bytes) (c : Client)
    → c.cancelled ≡ false
    → (write_head b q c).cancelled ≡ true
    → (write_head b q c).written ≡ c.written
write_head-cut_off b [] c live h = refl
write_head-cut_off true (m ∷ ms) c live h = refl
write_head-cut_off false (m ∷ ms) c live h = absurd (ground (arith, live, h))

-- An event that cuts a client off writes nothing.
cut_off-written :
    (e : Event) (c : Client)
    → c.cancelled ≡ false
    → (on_event e c).cancelled ≡ true
    → (on_event e c).written ≡ c.written
unfolding on_event offer offer_waiting write_round cancel_if
cut_off-written (try_send m) c live h = ground arith
cut_off-written (send_envelope true m) c live h = ground arith
cut_off-written (send_envelope false m) c live h = ground arith
cut_off-written (write_next b) c live h =
    subst
      (λ x.
        (if x then c else write_head b c.queue c).cancelled ≡ true
        → (if x then c else write_head b c.queue c).written ≡ c.written)
      (sym live) (write_head-cut_off b c.queue c live) h
cut_off-written (ping b) c live h = ground arith
cut_off-written (watch b) c live h = ground arith
cut_off-written read_failed c live h = refl
cut_off-written (read none) c live h = ground arith
cut_off-written (read (some m)) c live h = ground arith

-- What was not written is either lost with the client or waits.
abbrev IsPrefix : List Bytes → Client → Type 0
IsPrefix all d =
    (rest : List Bytes) × (d.written ++ rest ≡ all)
    × ((d.cancelled ≡ true) ⊎ ((rest ≡ d.queue) × (length rest ≤ send_size)))

run_client-IsPrefix :
    (es : List Event) (c : Client)
    → c.cancelled ≡ false
    → length c.queue ≤ send_size
    → IsPrefix (all_of c ++ messages_of es) (run_client c es)
unfolding run_client
run_client-IsPrefix [] c live small = (c.queue, sym (append-nil (all_of c)), inr (refl, small))
run_client-IsPrefix (e ∷ es) c live small = elim (Bool-cases (on_event e c).cancelled) [
  | inr k ↦
      let (one, small') = on_event-Keeps e c live small k in
      subst (λ all. IsPrefix all (run_client (on_event e c) es))
        (ap (λ ms. ms ++ messages_of es) one
          ∙ append_assoc (all_of c) (messages_of (e ∷ [])) (messages_of es)
          ∙ ap (λ ms. all_of c ++ ms) (sym (messages_of-cons e es)))
        (run_client-IsPrefix es (on_event e c) k small')
  | inl k ↦
      let (over, same) = run_client-IsOver es (on_event e c) k in
      (
        c.queue ++ messages_of (e ∷ es),
        ap (λ w. w ++ (c.queue ++ messages_of (e ∷ es))) (same ∙ cut_off-written e c live k)
            ∙ sym (append_assoc c.written c.queue (messages_of (e ∷ es))),
        inl over,
      )
]

-- A client gets, in their order and without a gap, the greeting and then the messages that were for
-- it, whatever else happens, where a batch of a log stream that was unsubscribed or replaced while
-- the batch waited for room is not one of them: what it did not get either waits, at most 128 messages, or the client
-- was cut off. Once a look at the session finds that it ended, the client gets nothing more.
pub run_client-prefix :
    (hello : Bytes) (es fs : List Event)
    → ((rest : List Bytes) × ((run_client (accepted_client hello) es).written ++ rest
          ≡ hello ∷ messages_of es)
        × (((run_client (accepted_client hello) es).cancelled ≡ true)
            ⊎ ((rest ≡ (run_client (accepted_client hello) es).queue) × (length rest ≤ send_size))))
      × ((run_client (run_client (accepted_client hello) es) (watch true ∷ fs)).written
          ≡ (run_client (accepted_client hello) es).written)
unfolding run_client on_event cancel_if length
run_client-prefix hello es fs = (
  run_client-IsPrefix es (accepted_client hello) refl (omega arith),
  (run_client-IsOver fs (cancel (run_client (accepted_client hello) es)) refl).1,
)
