-- ===== src/Privacy/References.antt =====
-- packages/privacy/index.ts: the keys by purpose, and the lookups that the tables hold in place of emails
-- and secrets. The normal form of an email (`trim`, NFC, `toLowerCase`) is a parameter.
use astra_file_host.Base.{
  ℕ, Bool, false, ◌||◌, Option, none, some, List, [], ◌∷◌, ◌++◌, Result, ok, err, ◌>>=◌, ◌>>◌,
  throw_if, plain_error,
}
use astra_file_host.Validation.Endpoints.{same_text}
use astra_file_host.Privacy.{
  Text, Entry, KeyRing, parse_key_ring, Crypto, digest_with, digest_candidates, encrypt_with,
  decrypt_with,
}

-- The rings that the environment sets, by purpose.
pub record PrivacyKeys : Type 0 where
  pub email : Option KeyRing
  pub share : Option KeyRing
  pub field : Option KeyRing
  pub network : Option KeyRing
  pub backup : Option KeyRing

-- `configured(name)`
unfoldable pub configured : Option KeyRing → Result KeyRing
configured none = err plain_error
configured (some ring) = parse_key_ring ring

abbrev pub entry_keys : List Entry → List (List ℕ)
entry_keys [] = []
entry_keys (e ∷ es) = e.key ∷ entry_keys es

abbrev pub purpose_keys : List (Option KeyRing) → Result (List (List ℕ))
purpose_keys [] = ok []
purpose_keys (o ∷ os) =
    configured o >>= λ ring. purpose_keys os >>= λ keys. ok (entry_keys ring.keys ++ keys)

abbrev pub has_key : List ℕ → List (List ℕ) → Bool
has_key key [] = false
has_key key (k ∷ ks) = same_text key k || has_key key ks

-- `new Set(keys).size!==keys.length`
abbrev pub has_duplicate : List (List ℕ) → Bool
has_duplicate [] = false
has_duplicate (k ∷ ks) = has_key k ks || has_duplicate ks

-- `validatePrivacyKeys`, with the keys that it has seen.
unfoldable pub validate_privacy_keys : PrivacyKeys → Result (List (List ℕ))
validate_privacy_keys p = do
  keys ← purpose_keys (p.email ∷ p.share ∷ p.field ∷ p.network ∷ p.backup ∷ [])
  throw_if (has_duplicate keys) plain_error
  ok keys

unfoldable pub lookup : Crypto → Option KeyRing → Text → Text → Result Text
lookup c purpose context value =
    configured purpose >>= λ ring. digest_with c ring value context ring.active

unfoldable pub lookups : Crypto → Option KeyRing → Text → Text → Result (List Text)
lookups c purpose context value =
    configured purpose >>= λ ring. ok (digest_candidates c ring value context)

-- The contexts `email`, `share` and `ticket`.
abbrev pub email_context : Text
email_context = 101 ∷ 109 ∷ 97 ∷ 105 ∷ 108 ∷ []

abbrev pub share_context : Text
share_context = 115 ∷ 104 ∷ 97 ∷ 114 ∷ 101 ∷ []

abbrev pub ticket_context : Text
ticket_context = 116 ∷ 105 ∷ 99 ∷ 107 ∷ 101 ∷ 116 ∷ []

abbrev pub email_lookup : Crypto → (Text → Text) → PrivacyKeys → Text → Result Text
email_lookup c normalize p value = lookup c p.email email_context (normalize value)

abbrev pub email_lookups : Crypto → (Text → Text) → PrivacyKeys → Text → Result (List Text)
email_lookups c normalize p value = lookups c p.email email_context (normalize value)

abbrev pub share_lookup : Crypto → PrivacyKeys → Text → Result Text
share_lookup c p secret = lookup c p.share share_context secret

abbrev pub share_lookups : Crypto → PrivacyKeys → Text → Result (List Text)
share_lookups c p secret = lookups c p.share share_context secret

abbrev pub ticket_lookup : Crypto → PrivacyKeys → Text → Result Text
ticket_lookup c p secret = lookup c p.share ticket_context secret

abbrev pub ticket_lookups : Crypto → PrivacyKeys → Text → Result (List Text)
ticket_lookups c p secret = lookups c p.share ticket_context secret

abbrev pub encrypt_field : Crypto → PrivacyKeys → List ℕ → Text → Text → Result Text
encrypt_field c p nonce value context =
    configured p.field >>= λ ring. encrypt_with c ring nonce value context

abbrev pub decrypt_field : Crypto → PrivacyKeys → Text → Text → Result Text
decrypt_field c p value context = configured p.field >>= λ ring. decrypt_with c ring value context
