-- ===== src/Api/Batches/Complete.antt =====
-- No line is lost on the way to a client that keeps up.
use pc_monitor.Base.{
  ◌≤◌, ◌<◌, Bool, true, false, List, [], ◌∷◌, ◌++◌, append_assoc, append-nil, subst, All,
  All-append, length, length-append, leb, Bool-cases, inl, inr, ◌≡◌, refl, sym, ap, ◌∙◌, arith,
}
use pc_monitor.Provider.{LogLine}
use pc_monitor.Api.Batches.{
  log_batch_max, Event, got_line, closed, tick, cancelled, Round, Stream, new_stream, flushed,
  go_on, flush, add_line, of_event, on_round, run,
}

abbrev pub joined : List (List LogLine) → List LogLine
joined [] = []
joined (b ∷ bs) = b ++ joined bs

joined-append : (bs cs : List (List LogLine)) → joined (bs ++ cs) ≡ joined bs ++ joined cs
joined-append [] cs = refl
joined-append (b ∷ bs) cs =
    ap (◌++◌ b) (joined-append bs cs) ∙ sym (append_assoc b (joined bs) (joined cs))

-- One to 500 lines.
abbrev pub IsBatch : List LogLine → Type 0
IsBatch b = (1 ≤ length b) × (length b ≤ log_batch_max)

abbrev lines_of : Event → List LogLine
lines_of (got_line l) = l ∷ []
lines_of closed = []
lines_of tick = []
lines_of cancelled = []

abbrev pub received : List Round → List LogLine
received [] = []
received (r ∷ rs) = lines_of r.event ++ received rs

abbrev GoesOn : Event → Type 0
GoesOn (got_line l) = Unit {0}
GoesOn tick = Unit {0}
GoesOn closed = true ≡ false
GoesOn cancelled = true ≡ false

-- The message can be sent, and the round is no end.
pub record Keeps (r : Round) : Type 0 where
  pub sends_ok : r.sends ≡ true
  pub goes_on : GoesOn r.event

-- What the lines `xs` have become: they went out in batches, or wait for the next one.
record Tracks (xs : List LogLine) (s : Stream) : Type 0 where
  on : s.going ≡ true
  room : length s.batch < log_batch_max
  batches : All IsBatch s.sent
  kept : joined s.sent ++ s.batch ≡ xs

-- What a flush does to a batch that is not too long.
record Flushed (xs : List LogLine) (p : Bool × Stream) : Type 0 where
  ok : p.0 ≡ true
  nothing_left : p.1.batch ≡ []
  batches : All IsBatch p.1.sent
  kept : joined p.1.sent ≡ xs

flush-Flushed :
    (s : Stream)
    → length s.batch ≤ log_batch_max
    → All IsBatch s.sent
    → Flushed (joined s.sent ++ s.batch) (flush true s)
unfolding flush
flush-Flushed s short all = of_batch s.batch refl short
  where
    of_batch :
        (b : List LogLine)
        → s.batch ≡ b
        → length b ≤ log_batch_max
        → Flushed (joined s.sent ++ b) (flushed true b s)
    of_batch [] e h = record {
      ok = refl;
      nothing_left = e;
      batches = all;
      kept = sym (append-nil (joined s.sent));
    }
    of_batch (l ∷ ls) e h = record {
      ok = refl;
      nothing_left = refl;
      batches = All-append IsBatch s.sent ((l ∷ ls) ∷ []) all ((omega arith, h), tt);
      kept =
          joined-append s.sent ((l ∷ ls) ∷ []) ∙ ap (λ b. joined s.sent ++ b) (append-nil (l ∷ ls));
    }

go_on-Tracks : (xs : List LogLine) (p : Bool × Stream) → Flushed xs p → Tracks xs (go_on p)
go_on-Tracks xs (b, s) f = record {
  on = f.ok;
  room = rw f.nothing_left (omega arith);
  batches = f.batches;
  kept = ap (λ x. joined s.sent ++ x) f.nothing_left ∙ append-nil (joined s.sent) ∙ f.kept;
}

add_line-Tracks :
    (xs : List LogLine) (l : LogLine) (s : Stream)
    → Tracks xs s
    → Tracks (xs ++ (l ∷ [])) (add_line true l s)
unfolding add_line
add_line-Tracks xs l s t = elim (Bool-cases (leb log_batch_max (length (s.batch ++ (l ∷ []))))) [
  | inl e ↦ rw e (
      go_on-Tracks (xs ++ (l ∷ [])) (flush true more) (
        subst (λ ys. Flushed ys (flush true more)) grown
          (flush-Flushed more (omega (arith, length-append s.batch (l ∷ []), t.room)) t.batches)))
  | inr e ↦ rw e (record { on = t.on; room = ground (arith, e); batches = t.batches; kept = grown })
]
  where
    more : Stream
    more = record s { batch = s.batch ++ (l ∷ []) }

    grown : joined s.sent ++ (s.batch ++ (l ∷ [])) ≡ xs ++ (l ∷ [])
    grown = sym (append_assoc (joined s.sent) s.batch (l ∷ [])) ∙ ap (λ ys. ys ++ (l ∷ [])) t.kept

flush-Tracks : (xs : List LogLine) (s : Stream) → Tracks xs s → Flushed xs (flush true s)
flush-Tracks xs s t =
    subst (λ ys. Flushed ys (flush true s)) t.kept
      (flush-Flushed s (omega (arith, t.room)) t.batches)

of_event-Tracks :
    (v : Event) (alive : Bool) (xs : List LogLine) (s : Stream)
    → GoesOn v
    → Tracks xs s
    → Tracks (xs ++ lines_of v) (of_event v true alive s)
of_event-Tracks (got_line l) alive xs s g t = add_line-Tracks xs l s t
of_event-Tracks tick alive xs s g t =
    subst (λ ys. Tracks ys (go_on (flush true s))) (sym (append-nil xs))
      (go_on-Tracks xs (flush true s) (flush-Tracks xs s t))
of_event-Tracks closed alive xs s g t = absurd (ground (arith, g))
of_event-Tracks cancelled alive xs s g t = absurd (ground (arith, g))

-- What a client has in the end.
pub record Delivered (xs : List LogLine) (alive : Bool) (s : Stream) : Type 0 where
  pub all_lines : joined s.sent ≡ xs
  pub batches : All IsBatch s.sent
  pub nothing_left : s.batch ≡ []
  pub told : s.ended ≡ alive
  pub over : s.going ≡ false

closed-Delivered :
    (alive : Bool) (xs : List LogLine) (s : Stream)
    → Tracks xs s
    → Delivered xs alive (of_event closed true alive s)
closed-Delivered alive xs s t =
    let f = flush-Tracks xs s t in
    record {
      all_lines = f.kept;
      batches = f.batches;
      nothing_left = f.nothing_left;
      told = refl;
      over = refl;
    }

run-going :
    (r : Round) (rs : List Round) (s : Stream)
    → s.going ≡ true
    → run (r ∷ rs) s ≡ run rs (on_round r s)
unfolding run
run-going r rs s e = rw e refl

run-over : (rs : List Round) (s : Stream) → s.going ≡ false → run rs s ≡ s
unfolding run
run-over [] s e = refl
run-over (r ∷ rs) s e = rw e refl

run-Delivered :
    (rs rest : List Round) (alive : Bool) (xs : List LogLine) (s : Stream)
    → All Keeps rs
    → Tracks xs s
    → Delivered
        (xs ++ received rs)
        alive
        (run (rs ++ record { event = closed; sends = true; alive = alive } ∷ rest) s)
unfolding on_round
run-Delivered [] rest alive xs s h t =
    let d = closed-Delivered alive xs s t in
    let last : Round = record { event = closed; sends = true; alive = alive } in
    subst (Delivered (xs ++ []) alive)
      (sym (run-going last rest s t.on ∙ run-over rest (on_round last s) d.over))
      (subst (λ ys. Delivered ys alive (on_round last s)) (sym (append-nil xs)) d)
run-Delivered (r ∷ rs) rest alive xs s (k, h) t =
    let last : Round = record { event = closed; sends = true; alive = alive } in
    let t' : Tracks (xs ++ lines_of r.event) (on_round r s) =
      subst (λ b. Tracks (xs ++ lines_of r.event) (of_event r.event b r.alive s)) (sym k.sends_ok)
        (of_event-Tracks r.event r.alive xs s k.goes_on t) in
    subst (Delivered (xs ++ received (r ∷ rs)) alive) (sym (run-going r (rs ++ last ∷ rest) s t.on))
      (subst (λ ys. Delivered ys alive (run (rs ++ last ∷ rest) (on_round r s)))
        (append_assoc xs (lines_of r.event) (received rs))
        (run-Delivered rs rest alive (xs ++ lines_of r.event) (on_round r s) h t'))

-- Where every message up to the end of the channel can be sent, and the stream is not cancelled,
-- the batches that the client gets hold exactly the lines that came, in order, one to 500 to a
-- batch, wherever the ticks fell; and it is told of the end exactly where the stream's context
-- still lives.
pub run_complete :
    (rs rest : List Round) (alive : Bool)
    → All Keeps rs
    → Delivered
        (received rs)
        alive
        (run (rs ++ record { event = closed; sends = true; alive = alive } ∷ rest) new_stream)
unfolding new_stream
run_complete rs rest alive h =
    run-Delivered rs rest alive [] new_stream h
      (record { on = refl; room = omega arith; batches = tt; kept = refl })
