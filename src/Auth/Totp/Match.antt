-- ===== src/Auth/Totp/Match.antt =====
-- What a code is, and which codes are accepted when.
use pc_monitor.Base.{
  ℕ, ◌+◌, ◌/◌, ◌<◌, true, some, Bytes, bytes_eq_iff, bytes_eq_refl, length, ◌≡◌, ◌⊎◌, inl, inr,
  refl, subst, Option-cases, arith,
}
use pc_monitor.Base.Int.{ℤ, pos, ◌+ℤ◌, ◌-ℤ◌}
use pc_monitor.Auth.Crypto.{Crypto, HmacSize}
use pc_monitor.Auth.Totp.{
  totp_period, decode_secret, offset, six_digits, totp_at, totp_code, first_match, drift,
  match_totp,
}

-- The four bytes that a code is made of lie inside the 20 of the MAC.
pub offset_in_range :
    (c : Crypto)
    → HmacSize c
    → (key msg : Bytes) → offset (c.hmac_sha1 key msg) + 3 < length (c.hmac_sha1 key msg)
unfolding offset
offset_in_range c h key msg = omega (arith, h.size key msg)

length-totp_at : (c : Crypto) (key : Bytes) (step : ℤ) → length (totp_at c key step) ≡ 6
unfolding totp_at six_digits
length-totp_at c key step = refl

-- A step at most one away from the current one.
abbrev pub Near : ℤ → ℤ → Type 0
Near cur s = (s ≡ cur) ⊎ (s ≡ cur -ℤ pos 1) ⊎ (s ≡ cur +ℤ pos 1)

-- A code matches the list of steps that `matchTOTP` tries, whatever came before in the list.
first_match_sound :
    (c : Crypto) (key code : Bytes) (cur : ℤ) {s : ℤ}
    → first_match c key code (drift cur) ≡ (s, true)
    → (totp_at c key s ≡ code) × Near cur s
unfolding first_match
first_match_sound c key code cur h = ground (
  arith,
  bytes_eq_iff (totp_at c key cur) code,
  bytes_eq_iff (totp_at c key (cur -ℤ pos 1)) code,
  bytes_eq_iff (totp_at c key (cur +ℤ pos 1)) code,
)

first_match_complete :
    (c : Crypto) (key : Bytes) (cur s : ℤ)
    → Near cur s
    → (first_match c key (totp_at c key s) (drift cur)).1 ≡ true
unfolding first_match
first_match_complete c key cur s (inl e) = rw e (ground (arith, bytes_eq_refl (totp_at c key cur)))
first_match_complete c key cur s (inr (inl e)) =
    rw e (ground (arith, bytes_eq_refl (totp_at c key (cur -ℤ pos 1))))
first_match_complete c key cur s (inr (inr e)) =
    rw e (ground (arith, bytes_eq_refl (totp_at c key (cur +ℤ pos 1))))

-- An accepted code has six characters, and is the code of the returned step, which is the current
-- one or next to it.
match_totp_sound :
    (c : Crypto) (secret code : Bytes) (unix : ℕ) {s : ℤ}
    → match_totp c secret code unix ≡ (s, true)
    → (key : Bytes) × (decode_secret c secret ≡ some key)
      × (totp_at c key s ≡ code)
      × Near (pos (unix / totp_period)) s
unfolding match_totp
match_totp_sound c secret code unix h = elim (Option-cases (decode_secret c secret)) [
  | inl e ↦ absurd (ground (arith, e))
  | inr (key, e) ↦
      let (codes_agree, near) =
        first_match_sound c key code (pos (unix / totp_period)) (ground (arith, e)) in
      (key, e, codes_agree, near)
]

-- The code that `TOTPCode` prints at one time is accepted at any other time of the same period or
-- of one next to it.
pub totp_code_accepted :
    (c : Crypto) (secret : Bytes) (t unix : ℕ) {code : Bytes}
    → totp_code c secret t ≡ some code
    → Near (pos (unix / totp_period)) (pos (t / totp_period))
    → (match_totp c secret code unix).1 ≡ true
unfolding match_totp totp_code
totp_code_accepted c secret t unix {code} h near = elim (Option-cases (decode_secret c secret)) [
  | inl e ↦ absurd (ground (arith, e))
  | inr (key, e) ↦
      let printed : totp_at c key (pos (t / totp_period)) ≡ code = ground (arith, e) in
      subst (λ b. (match_totp c secret b unix).1 ≡ true) printed
        (ground (
          arith,
          e,
          length-totp_at c key (pos (t / totp_period)),
          first_match_complete c key (pos (unix / totp_period)) (pos (t / totp_period)) near,
        ))
]
