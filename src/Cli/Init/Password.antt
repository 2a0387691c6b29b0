-- ===== src/Cli/Init/Password.antt =====
-- The login that `dashd init` sets up.
use pc_monitor.Base.{
  ℕ, ◌≤◌, Bool, true, false, not, ◌&&◌, [], ◌∷◌, Option, none, some, Bytes, codes, length, ltb,
  if◌then◌else◌, Bool-cases, inl, inr, ◌≡◌, ◌⊎◌, refl, sym, ap, ◌∙◌, arith,
}
use pc_monitor.Auth.Crypto.{Crypto}
use pc_monitor.Auth.Password.RoundTrip.{CodecLaws, verify-hash}
use pc_monitor.Auth.Password.{hash_password, verify_password}
use pc_monitor.Provider.Registry.{is_blank}
use pc_monitor.Pm2.Clean.{Unicode}
use pc_monitor.Cli.Init.{
  Got, got, not_got, read_password, InitFlags, InitWorld, not_initialised, wrote, config_text,
  with_secret, with_hash, with_password, with_name, user_name, init_config,
}

module _ (u : Unicode) (c : Crypto) (quote : Bytes → Bytes) (f : InitFlags) (w : InitWorld) where
  -- What stands behind a configuration that was written.
  pub record IsLogin (path text : Bytes) : Type 0 where
    pub user : Bytes
    pub password : Bytes
    pub hash : Bytes
    pub secret : Bytes
    pub new_file : (w.exists ≡ false) × (path ≡ f.out)
    pub named : (user_name u c quote f w ≡ got user) × (is_blank user ≡ false)
    pub typed : read_password w.password ≡ got password
    pub long : (12 ≤ length password) ⊎ (f.mock ≡ true)
    pub content : text ≡ config_text quote f.mock user hash secret
    pub accepted : verify_password c hash password ≡ some true

  with_secret-wrote :
      (user hash : Bytes) (secret write_error : Option Bytes) {path text : Bytes}
      → secret ≡ w.secret
      → write_error ≡ w.write_error
      → with_secret u c quote f w user hash secret ≡ wrote path text
      → (s : Bytes) × (path ≡ f.out) × (text ≡ config_text quote f.mock user hash s)
  with_secret-wrote user hash none e p q h = absurd (ground (arith, h))
  with_secret-wrote user hash (some s) (some e) p q h = absurd (ground (arith, h, q))
  with_secret-wrote user hash (some s) none p q h = (s, ground (arith, h, q), ground (arith, h, q))

  module _ (laws : CodecLaws c) (path text : Bytes) where
    with_hash-wrote :
        (user pw : Bytes) (salt : Option Bytes)
        → with_hash u c quote f w user (hash_password c salt pw) ≡ wrote path text
        → (hash s : Bytes) × (path ≡ f.out)
          × (text ≡ config_text quote f.mock user hash s)
          × (verify_password c hash pw ≡ some true)
    with_hash-wrote user pw none h = absurd (unfold hash_password in ground (arith, h))
    with_hash-wrote user pw (some salt) h =
        let (hash, e, _, ok) = verify-hash c laws salt pw pw in
        let (s, there, content) =
          with_secret-wrote user hash w.secret w.write_error refl refl
            (ap (with_hash u c quote f w user) (sym e) ∙ h) in
        (hash, s, there, content, ok)

    -- The two guards of the password.
    long_enough : (n : ℕ) (mock : Bool) → (ltb n 12 && not mock) ≡ false → (12 ≤ n) ⊎ (mock ≡ true)
    long_enough n true h = inr refl
    long_enough n false h = inl (ground (arith, h))

    with_password-wrote :
        (user pw : Bytes)
        → w.exists ≡ false
        → user_name u c quote f w ≡ got user
        → is_blank user ≡ false
        → read_password w.password ≡ got pw
        → with_password u c quote f w user (got pw) ≡ wrote path text
        → IsLogin path text
    with_password-wrote user pw new is named typed h =
        elim (Bool-cases (ltb (length pw) 12 && not f.mock)) [
          | inl e ↦ absurd (ground (arith, h, e))
          | inr e ↦
              let (hash, s, there, content, ok) =
                with_hash-wrote user pw w.salt (sym (rw e refl) ∙ h) in
              record {
                user = user;
                password = pw;
                hash = hash;
                secret = s;
                new_file = (new, there);
                named = (is, named);
                typed = typed;
                long = long_enough (length pw) f.mock e;
                content = content;
                accepted = ok;
              }
        ]

    with_user-wrote :
        (user : Bytes) (g : Got)
        → w.exists ≡ false
        → user_name u c quote f w ≡ got user
        → read_password w.password ≡ g
        → (if is_blank user
            then not_initialised (codes "username can't be empty")
            else with_password u c quote f w user g)
          ≡ wrote path text
        → IsLogin path text
    with_user-wrote [] g new is typed h = absurd (ground (arith, h))
    with_user-wrote (x ∷ user) (not_got e) new is typed h = absurd (ground (arith, h))
    with_user-wrote (x ∷ user) (got pw) new is typed h =
        with_password-wrote (x ∷ user) pw new is refl typed h

    with_name-wrote :
        (g : Got)
        → w.exists ≡ false
        → user_name u c quote f w ≡ g
        → with_name u c quote f w g ≡ wrote path text
        → IsLogin path text
    with_name-wrote (not_got e) new is h = absurd (ground (arith, h))
    with_name-wrote (got user) new is h =
        with_user-wrote user (read_password w.password) new is refl h

    -- Where `init` writes a configuration: the path was free, the user has a name, and the password
    -- that was read has at least 12 bytes, unless the configuration is a mock one; and the hash in
    -- the text that is written accepts that password, given the laws of the codecs.
    pub init_config-IsLogin : init_config u c quote f w ≡ wrote path text → IsLogin path text
    unfolding init_config
    init_config-IsLogin h = elim (Bool-cases w.exists) [
      | inl e ↦ absurd (ground (arith, h, e))
      | inr e ↦ with_name-wrote (user_name u c quote f w) e refl (sym (rw e refl) ∙ h)
    ]
