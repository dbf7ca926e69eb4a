-- ===== src/Auth/ApiKey/Creation.antt =====
-- pkg/auth/apikey.go: what CreateAPIKey makes.
use mcp_sdk_go.Base.Text.{Text, text_eq_refl, has_prefix-append}
use mcp_sdk_go.Base.Dict.{lookup-insert_eq}
use mcp_sdk_go.Base.{
  ℕ, ◌*◌, ◌≡◌, refl, sym, subst, true, false, List, [], ◌∷◌, ◌++◌, length, length-append, Option,
  none, some, arith,
}
use mcp_sdk_go.Auth.ApiKey.{UserInfo, granted, ApiKeyProvider, trim_space, is_past, validate}
use mcp_sdk_go.Auth.ApiKey.Checks.{Accepted, validate-Accepted}
use mcp_sdk_go.Auth.ApiKey.Store.{new_entry, hex_encode, create_api_key, validate_api_key_format}

length-hex_encode : (bytes : List ℕ) → length (hex_encode bytes) ≡ length bytes * 2
unfolding hex_encode
length-hex_encode [] = refl
length-hex_encode (b ∷ bs) = omega (arith, length-hex_encode bs)

created_format :
    (p : ApiKeyProvider) (bytes : List ℕ)
    → length bytes ≡ p.key_length
    → validate_api_key_format p (p.key_prefix ++ hex_encode bytes) ≡ true
unfolding validate_api_key_format
created_format p bytes size =
    rw (has_prefix-append p.key_prefix (hex_encode bytes))
      (ground (arith, length-append p.key_prefix (hex_encode bytes), length-hex_encode bytes, size))

created-Accepted :
    (p : ApiKeyProvider) (user : UserInfo) (description : Text) (expires_at : Option ℕ)
    (scopes : List Text) (bytes : List ℕ) (now later : ℕ)
    → is_past expires_at later ≡ false
    → Accepted
        (create_api_key p user description expires_at scopes (some bytes) now).0
        later
        (p.key_prefix ++ hex_encode bytes)
        user
unfolding create_api_key
created-Accepted p user description expires_at scopes bytes now later fresh =
    let key = p.key_prefix ++ hex_encode bytes in
    record {
      entry = new_entry key user description expires_at scopes now;
      stored = lookup-insert_eq key key _ p.keys (text_eq_refl key);
      prefixed = has_prefix-append p.key_prefix (hex_encode bytes);
      in_force = refl;
      in_time = fresh;
      owner = refl;
    }

-- A key that CreateAPIKey makes of the right number of random bytes passes the test of its format, and
-- Validate accepts it for its user until it expires, if no white space surrounds it and there is no
-- callback.
pub create_api_key-validate :
    (p : ApiKeyProvider) (user : UserInfo) (description : Text) (expires_at : Option ℕ)
    (scopes : List Text) (bytes : List ℕ) (now later : ℕ)
    → length bytes ≡ p.key_length
    → p.validate_callback ≡ none
    → is_past expires_at later ≡ false
    → let key = p.key_prefix ++ hex_encode bytes in
      let made = create_api_key p user description expires_at scopes (some bytes) now in
      trim_space key ≡ key
      → (made.1 ≡ granted key)
        × (validate_api_key_format p key ≡ true)
        × (validate made.0 later key ≡ granted user)
unfolding create_api_key
create_api_key-validate p user description expires_at scopes bytes now later size h fresh trimmed =
    (
      refl,
      created_format p bytes size,
      (validate-Accepted (create_api_key p user description expires_at scopes (some bytes) now).0
            later (p.key_prefix ++ hex_encode bytes) user h).1
          (subst
            (λ k.
              Accepted (create_api_key p user description expires_at scopes (some bytes) now).0
                later k user)
            (sym trimmed)
            (created-Accepted p user description expires_at scopes bytes now later fresh)),
    )
