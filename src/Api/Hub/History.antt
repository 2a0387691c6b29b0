-- ===== src/Api/Hub/History.antt =====
-- What clients find as the history of the host.
use pc_monitor.Base.{
  ℕ, zero, suc, ◌≤◌, false, List, [], ◌∷◌, ◌++◌, append_assoc, append-nil, Option, none, some,
  Bytes, length, ltb, last_n, last_n-last_n, last_n-of_le, length-last_n, Bool-cases, inl, inr, ◌≡◌,
  refl, sym, ap, ◌∙◌, arith,
}
use pc_monitor.Base.Int.{ℤ}
use pc_monitor.Provider.Registry.{Registry}
use pc_monitor.About.{StringTools, Book}
use pc_monitor.Api.Hub.{
  Hub, Envelopes, HubEvent, host_tick, units_tick, refreshed, timer_fired, action_done, audited,
  client_came, client_left, refresh_units, add_client, remove_client, history_len, new_hub,
  broadcast, keep_history, poll_host, poll_units, fire, client_count, on_event, run,
}

module _ {S : Type 0} where
  -- The samples that were collected.
  abbrev samples_of : HubEvent S → List S
  samples_of (host_tick none) = []
  samples_of (host_tick (some st)) = st ∷ []
  samples_of (units_tick r now) = []
  samples_of (refreshed r now) = []
  samples_of timer_fired = []
  samples_of action_done = []
  samples_of (audited x) = []
  samples_of (client_came c) = []
  samples_of (client_left id) = []

  abbrev pub collected : List (HubEvent S) → List S
  collected [] = []
  collected (v ∷ vs) = samples_of v ++ collected vs

  history-broadcast : (raw : Option Bytes) (h : Hub S) → (broadcast raw h).history ≡ h.history
  unfolding broadcast
  history-broadcast none h = refl
  history-broadcast (some raw) h = refl

  history-keep_history :
      (st : S) (h : Hub S)
      → (keep_history st h).history ≡ last_n history_len (h.history ++ (st ∷ []))
  unfolding keep_history
  history-keep_history st h =
      elim (Bool-cases (ltb history_len (length (h.history ++ (st ∷ []))))) [
        | inl e ↦ rw e refl
        | inr e ↦ rw e (sym (last_n-of_le history_len (h.history ++ (st ∷ [])) (ground (arith, e))))
      ]

  history-poll_units :
      (e : Envelopes S) (t : StringTools) (r : Registry) (now : ℤ) (h : Hub S)
      → (poll_units e t r now h).history ≡ h.history
  unfolding poll_units
  history-poll_units e t r now h = history-broadcast _ _

  history-fire : (n : ℕ) (h : Hub S) → (fire n h).history ≡ h.history
  history-fire zero h = refl
  history-fire (suc n) h = refl

  last_n_self :
      (h : Hub S)
      → length h.history ≤ history_len
      → h.history ≡ last_n history_len (h.history ++ [])
  last_n_self h k =
      sym (ap (last_n history_len) (append-nil h.history) ∙ last_n-of_le history_len h.history k)

  history-on_event :
      (e : Envelopes S) (t : StringTools) (v : HubEvent S) (h : Hub S)
      → length h.history ≤ history_len
      → (on_event e t v h).history ≡ last_n history_len (h.history ++ samples_of v)
  unfolding on_event poll_host refresh_units add_client remove_client
  history-on_event e t (host_tick none) h k = last_n_self h k
  history-on_event e t (host_tick (some st)) h k =
      history-broadcast (e.host st) (keep_history st h) ∙ history-keep_history st h
  history-on_event e t (units_tick r now) h k = elim (Bool-cases (ltb 0 (client_count h))) [
    | inl c ↦ rw c (history-poll_units e t r now h ∙ last_n_self h k)
    | inr c ↦ rw c (last_n_self h k)
  ]
  history-on_event e t (refreshed r now) h k = elim (Bool-cases h.refresh) [
    | inl c ↦ rw c (history-poll_units e t r now (record h { refresh = false }) ∙ last_n_self h k)
    | inr c ↦ rw c (last_n_self h k)
  ]
  history-on_event e t timer_fired h k = history-fire h.timers h ∙ last_n_self h k
  history-on_event e t action_done h k = last_n_self h k
  history-on_event e t (audited x) h k = history-broadcast (e.audit x) h ∙ last_n_self h k
  history-on_event e t (client_came c) h k = last_n_self h k
  history-on_event e t (client_left id) h k = last_n_self h k

  length-last_n_le : (xs : List S) → length (last_n history_len xs) ≤ history_len
  length-last_n_le xs = omega (arith, length-last_n history_len xs)

  history-run :
      (e : Envelopes S) (t : StringTools) (vs : List (HubEvent S)) (h : Hub S)
      → length h.history ≤ history_len
      → (run e t vs h).history ≡ last_n history_len (h.history ++ collected vs)
  unfolding run
  history-run e t [] h k = last_n_self h k
  history-run e t (v ∷ vs) h k =
      let step = history-on_event e t v h k in
      history-run e t vs (on_event e t v h) (rw step (length-last_n_le (h.history ++ samples_of v)))
      ∙ ap (λ hs. last_n history_len (hs ++ collected vs)) step
      ∙ last_n-last_n history_len (h.history ++ samples_of v) (collected vs)
      ∙ ap (last_n history_len) (append_assoc h.history (samples_of v) (collected vs))

-- Whatever happened since the server started, the history that a new client is sent is the newest
-- 150 samples of the host that were collected, oldest first.
pub run-history :
    {S : Type 0} (e : Envelopes S) (t : StringTools) (about : Option Book) (vs : List (HubEvent S))
    → (run e t vs (new_hub about)).history ≡ last_n history_len (collected vs)
unfolding new_hub
run-history e t about vs = history-run e t vs (new_hub about) (omega arith)
