-- ===== src/Tests/Fields.antt =====
-- An encrypted field that is read after a rotation of the keys.
use astra_file_host.Base.{
  ℕ, zero, suc, ◌≡◌, refl, ap, true, false, List, [], ◌∷◌, ◌==◌, ◌+◌, if◌then◌else◌, ok, err,
  plain_error, some, none, arith,
}
use astra_file_host.Privacy.{
  Text, Entry, KeyRing, parse_key_ring, all_word, is_empty, Crypto, IsCrypto, encrypt_with,
  decrypt_with, digest_with, digest_candidates,
}
use astra_file_host.Privacy.Rotation.{decrypt_with-encrypt_with}
use astra_file_host.Privacy.References.{
  PrivacyKeys, configured, lookup, lookups, has_key, validate_privacy_keys, email_lookup,
  share_lookups, ticket_lookup, email_lookups, share_lookup, ticket_lookups, encrypt_field,
  decrypt_field,
}
use astra_file_host.Privacy.Lookups.{lookups-lookup}

-- A code of bytes: as many `a` as the number says, and a `b`.
abbrev unary : ℕ → Text → Text
unary zero rest = 98 ∷ rest
unary (suc n) rest = 97 ∷ unary n rest

abbrev encode_unary : List ℕ → Text
encode_unary [] = []
encode_unary (n ∷ ns) = unary n (encode_unary ns)

abbrev decode_from : ℕ → Text → List ℕ
decode_from k [] = []
decode_from k (x ∷ xs) = if x == 98 then k ∷ decode_from 0 xs else decode_from (suc k) xs

decode_from-unary :
    (k n : ℕ) (rest : Text) → decode_from k (unary n rest) ≡ (k + n) ∷ decode_from 0 rest
decode_from-unary k zero rest = ap (λ (m : ℕ). m ∷ decode_from 0 rest) (omega arith)
decode_from-unary k (suc n) rest =
    rw (decode_from-unary (suc k) n rest) (ap (λ (m : ℕ). m ∷ decode_from 0 rest) (omega arith))

all_word-unary : (n : ℕ) (rest : Text) → all_word (unary n rest) ≡ all_word rest
all_word-unary zero rest = refl
all_word-unary (suc n) rest = all_word-unary n rest

is_empty-unary : (n : ℕ) (rest : Text) → is_empty (unary n rest) ≡ false
is_empty-unary zero rest = refl
is_empty-unary (suc n) rest = refl

all_word-encode_unary : (bytes : List ℕ) → all_word (encode_unary bytes) ≡ true
all_word-encode_unary [] = refl
all_word-encode_unary (n ∷ ns) = rw (all_word-unary n (encode_unary ns)) (all_word-encode_unary ns)

decode-encode_unary : (bytes : List ℕ) → decode_from 0 (encode_unary bytes) ≡ bytes
decode-encode_unary [] = refl
decode-encode_unary (n ∷ ns) =
    rw (decode_from-unary 0 n (encode_unary ns), decode-encode_unary ns)
      (ap (λ (m : ℕ). m ∷ ns) (omega arith))

is_empty-encode_unary : (bytes : List ℕ) → is_empty (encode_unary bytes) ≡ is_empty bytes
is_empty-encode_unary [] = refl
is_empty-encode_unary (n ∷ ns) = is_empty-unary n (encode_unary ns)

abbrev plain_crypto : Crypto
plain_crypto = record {
  hmac = λ key text. text;
  encrypt = λ key nonce context value. value;
  tag = λ key nonce context value. 1 ∷ [];
  decrypt = λ key nonce context tag text. ok text;
  encode = encode_unary;
  decode = decode_from 0;
}

plain_crypto-IsCrypto : IsCrypto plain_crypto
plain_crypto-IsCrypto = record {
  words = all_word-encode_unary;
  decodes = decode-encode_unary;
  same_emptiness = is_empty-encode_unary;
  has_tag = λ key nonce context value. refl;
  decrypts = λ key nonce context value. refl;
}

abbrev key_bytes : ℕ → List ℕ
key_bytes n =
    n ∷ 1 ∷ 1 ∷ 1 ∷ 1 ∷ 1 ∷ 1 ∷ 1 ∷ 1 ∷ 1 ∷ 1 ∷ 1 ∷ 1 ∷ 1 ∷ 1 ∷ 1 ∷ 1 ∷ 1 ∷ 1 ∷ 1 ∷ 1 ∷ 1 ∷ 1 ∷ 1
    ∷ 1 ∷ 1 ∷ 1 ∷ 1 ∷ 1 ∷ 1 ∷ 1 ∷ 1 ∷ []

abbrev first_entry : Entry
first_entry = record { version = 118 ∷ 49 ∷ []; key = key_bytes 5 }

abbrev second_entry : Entry
second_entry = record { version = 118 ∷ 50 ∷ []; key = key_bytes 6 }

abbrev first_ring : KeyRing
first_ring = record { active = 118 ∷ 49 ∷ []; keys = first_entry ∷ [] }

abbrev rotated_ring : KeyRing
rotated_ring = record { active = 118 ∷ 50 ∷ []; keys = second_entry ∷ first_entry ∷ [] }

first_ring_accepted : parse_key_ring first_ring ≡ ok first_ring
unfolding parse_key_ring
first_ring_accepted = refl

candidates_computes :
    digest_candidates plain_crypto rotated_ring (120 ∷ []) (99 ∷ [])
    ≡ (118 ∷ 50 ∷ 58 ∷ 99 ∷ 0 ∷ 120 ∷ []) ∷ (118 ∷ 49 ∷ 58 ∷ 99 ∷ 0 ∷ 120 ∷ []) ∷ []
unfolding digest_candidates
candidates_computes = refl

digest_computes :
    digest_with plain_crypto rotated_ring (120 ∷ []) (99 ∷ []) (118 ∷ 49 ∷ [])
    ≡ ok (118 ∷ 49 ∷ 58 ∷ 99 ∷ 0 ∷ 120 ∷ [])
unfolding digest_with
digest_computes = refl

decrypt_with-encrypt_with_example :
    (field : Text) × (encrypt_with plain_crypto first_ring (7 ∷ []) (120 ∷ []) (99 ∷ []) ≡ ok field)
    × (decrypt_with plain_crypto rotated_ring field (99 ∷ []) ≡ ok (120 ∷ []))
decrypt_with-encrypt_with_example =
    decrypt_with-encrypt_with plain_crypto plain_crypto-IsCrypto first_ring rotated_ring (7 ∷ [])
      (120 ∷ []) (99 ∷ []) first_ring_accepted refl refl

rotated_ring_accepted : parse_key_ring rotated_ring ≡ ok rotated_ring
unfolding parse_key_ring
rotated_ring_accepted = refl

lookups-lookup_example :
    (stored : Text) × (candidates : List Text) × (lookup plain_crypto
        (some first_ring)
        (99 ∷ [])
        (120 ∷ [])
      ≡ ok stored)
    × (lookups plain_crypto (some rotated_ring) (99 ∷ []) (120 ∷ []) ≡ ok candidates)
    × (has_key stored candidates ≡ true)
lookups-lookup_example =
    lookups-lookup plain_crypto first_ring rotated_ring (99 ∷ []) (120 ∷ []) first_ring_accepted
      rotated_ring_accepted refl

-- The first ring has a key that the second one has too.
abbrev shared_keys : PrivacyKeys
shared_keys = record {
  email = some first_ring;
  share = some rotated_ring;
  field = some first_ring;
  network = some first_ring;
  backup = some first_ring;
}

shared_keys_refused : validate_privacy_keys shared_keys ≡ err plain_error
unfolding validate_privacy_keys configured parse_key_ring
shared_keys_refused = refl

missing_ring_refused :
    validate_privacy_keys (record shared_keys { network = none }) ≡ err plain_error
unfolding validate_privacy_keys configured parse_key_ring
missing_ring_refused = refl

purposes_computes :
    share_lookups plain_crypto shared_keys (120 ∷ [])
    ≡ ok (
        (118 ∷ 50 ∷ 58 ∷ 115 ∷ 104 ∷ 97 ∷ 114 ∷ 101 ∷ 0 ∷ 120 ∷ [])
        ∷ (118 ∷ 49 ∷ 58 ∷ 115 ∷ 104 ∷ 97 ∷ 114 ∷ 101 ∷ 0 ∷ 120 ∷ [])
        ∷ [])
unfolding lookups configured parse_key_ring digest_candidates
purposes_computes = refl

stored_lookups_found :
    (email_lookup plain_crypto (λ t. t) shared_keys (120 ∷ [])
      ≡ ok (118 ∷ 49 ∷ 58 ∷ 101 ∷ 109 ∷ 97 ∷ 105 ∷ 108 ∷ 0 ∷ 120 ∷ []))
    × (email_lookups plain_crypto (λ t. t) shared_keys (120 ∷ [])
        ≡ ok ((118 ∷ 49 ∷ 58 ∷ 101 ∷ 109 ∷ 97 ∷ 105 ∷ 108 ∷ 0 ∷ 120 ∷ []) ∷ []))
    × (share_lookup plain_crypto shared_keys (120 ∷ [])
        ≡ ok (118 ∷ 50 ∷ 58 ∷ 115 ∷ 104 ∷ 97 ∷ 114 ∷ 101 ∷ 0 ∷ 120 ∷ []))
    × (ticket_lookup plain_crypto shared_keys (120 ∷ [])
        ≡ ok (118 ∷ 50 ∷ 58 ∷ 116 ∷ 105 ∷ 99 ∷ 107 ∷ 101 ∷ 116 ∷ 0 ∷ 120 ∷ []))
    × (ticket_lookups plain_crypto (record shared_keys { share = some first_ring }) (120 ∷ [])
        ≡ ok ((118 ∷ 49 ∷ 58 ∷ 116 ∷ 105 ∷ 99 ∷ 107 ∷ 101 ∷ 116 ∷ 0 ∷ 120 ∷ []) ∷ []))
unfolding lookup lookups configured parse_key_ring digest_with digest_candidates
stored_lookups_found = (refl, refl, refl, refl, refl)

field_computes :
    (encrypt_field plain_crypto shared_keys (0 ∷ []) [] (99 ∷ [])
      ≡ ok (118 ∷ 49 ∷ 46 ∷ 98 ∷ 46 ∷ 97 ∷ 98 ∷ 46 ∷ []))
    × (decrypt_field plain_crypto shared_keys
          (118 ∷ 49 ∷ 46 ∷ 98 ∷ 46 ∷ 97 ∷ 98 ∷ 46 ∷ [])
          (99 ∷ [])
        ≡ ok [])
unfolding configured parse_key_ring encrypt_with decrypt_with
field_computes = (refl, refl)
