-- ===== src/Privacy.antt =====
-- packages/privacy/crypto.ts: key rings, keyed digests and encrypted fields. Texts are lists of character
-- codes, bytes are numbers; HMAC, AES-GCM and base64url are parameters. A key ring is what `JSON.parse`
-- has read, with the decoded keys.
pub mod Rotation
pub mod References
pub mod Lookups
use astra_file_host.Base.{
  ℕ, ◌≡◌, ◌≤◌, Bool, true, false, ◌&&◌, ◌||◌, not, Option, none, some, List, [], ◌∷◌, ◌++◌, map,
  ◌==◌, leb, length, if◌then◌else◌, Result, ok, err, ◌>>=◌, ◌>>◌, throw_if, plain_error,
}
use astra_file_host.Settings.{within}
use astra_file_host.Validation.Endpoints.{same_text}

abbrev pub Text : Type 0
Text = List ℕ

pub record Entry : Type 0 where
  pub version : Text
  pub key : List ℕ

pub record KeyRing : Type 0 where
  pub active : Text
  pub keys : List Entry

-- `[a-zA-Z0-9_-]`
abbrev pub is_word : ℕ → Bool
is_word c = within 97 122 c || (within 65 90 c || (within 48 57 c || (c == 95 || c == 45)))

abbrev pub all_word : Text → Bool
all_word [] = true
all_word (c ∷ cs) = is_word c && all_word cs

-- `/^[a-zA-Z0-9_-]{1,24}$/`
abbrev pub is_version : Text → Bool
is_version t = within 1 24 (length t) && all_word t

-- `ring.keys[version]`
abbrev pub key_of : Text → List Entry → Option (List ℕ)
key_of version [] = none
key_of version (e ∷ es) = if same_text e.version version then some e.key else key_of version es

abbrev pub is_known {ℓ} : {A : Type ℓ} → Option A → Bool
is_known none = false
is_known (some a) = true

abbrev pub has_bad_entry : List Entry → Bool
has_bad_entry [] = false
has_bad_entry (e ∷ es) = not (is_version e.version && length e.key == 32) || has_bad_entry es

unfoldable pub parse_key_ring : KeyRing → Result KeyRing
parse_key_ring ring = do
  throw_if
      (not (is_version ring.active)
        || (not (is_known (key_of ring.active ring.keys)) || has_bad_entry ring.keys))
      plain_error
  ok ring

abbrev pub is_empty : Text → Bool
is_empty [] = true
is_empty (x ∷ xs) = false

-- The services of node:crypto and of Buffer.
pub record Crypto : Type 0 where
  pub hmac : List ℕ → Text → Text
  pub encrypt : List ℕ → List ℕ → Text → Text → List ℕ
  pub tag : List ℕ → List ℕ → Text → Text → List ℕ
  pub decrypt : List ℕ → List ℕ → Text → List ℕ → List ℕ → Result Text
  pub encode : List ℕ → Text
  pub decode : Text → List ℕ

-- What AES-GCM and base64url guarantee: an alphabet without dots, decoding that inverts encoding, no empty
-- text but for no bytes, a tag, and decryption that inverts encryption under the same key and context.
pub record IsCrypto (c : Crypto) : Type 0 where
  pub words : (bytes : List ℕ) → all_word (c.encode bytes) ≡ true
  pub decodes : (bytes : List ℕ) → c.decode (c.encode bytes) ≡ bytes
  pub same_emptiness : (bytes : List ℕ) → is_empty (c.encode bytes) ≡ is_empty bytes
  pub has_tag :
      (key nonce : List ℕ) (context value : Text) → is_empty (c.tag key nonce context value) ≡ false
  pub decrypts :
      (key nonce : List ℕ) (context value : Text)
      → c.decrypt key nonce context
          (c.tag key nonce context value)
          (c.encrypt key nonce context value)
        ≡ ok value

abbrev pub require_key : Option (List ℕ) → Result (List ℕ)
require_key none = err plain_error
require_key (some key) = ok key

-- `digestWith`: the version, `:`, and the digest of the context and the value.
unfoldable pub digest_with : Crypto → KeyRing → Text → Text → Text → Result Text
digest_with c ring value context version = do
  key ← require_key (key_of version ring.keys)
  ok (version ++ 58 ∷ c.hmac key (context ++ 0 ∷ value))

-- `digestCandidates`: under every key.
abbrev pub digest_each : Crypto → List Entry → Text → Text → List Text
digest_each c [] value context = []
digest_each c (e ∷ es) value context =
    (e.version ++ 58 ∷ c.hmac e.key (context ++ 0 ∷ value)) ∷ digest_each c es value context

unfoldable pub digest_candidates : Crypto → KeyRing → Text → Text → List Text
digest_candidates c ring value context = digest_each c ring.keys value context

-- The four parts of a field, with dots between them.
abbrev pub join : Text → Text → Text → Text → Text
join a b c d = a ++ 46 ∷ (b ++ 46 ∷ (c ++ 46 ∷ d))

-- `encryptWith`, with the nonce that is drawn.
unfoldable pub encrypt_with : Crypto → KeyRing → List ℕ → Text → Text → Result Text
encrypt_with c ring nonce value context = do
  key ← require_key (key_of ring.active ring.keys)
  ok (
      join ring.active (c.encode nonce) (c.encode (c.tag key nonce context value))
        (c.encode (c.encrypt key nonce context value)))

-- A character before the first of the pieces.
abbrev pub prepend : ℕ → List Text → List Text
prepend x [] = (x ∷ []) ∷ []
prepend x (p ∷ ps) = (x ∷ p) ∷ ps

-- `value.split('.')`
unfoldable pub split : Text → List Text
split [] = [] ∷ []
split (x ∷ xs) = let rest = split xs in if x == 46 then [] ∷ rest else prepend x rest

abbrev pub open_field : Crypto → Text → Option (List ℕ) → Text → Text → Text → Result Text
open_field c context none nonce tag ciphertext = err plain_error
open_field c context (some key) nonce tag ciphertext =
    if is_empty nonce || is_empty tag
    then err plain_error
    else c.decrypt key (c.decode nonce) context (c.decode tag) (c.decode ciphertext)

-- Four parts, neither more nor fewer.
abbrev pub open_parts : Crypto → KeyRing → Text → List Text → Result Text
open_parts c ring context (version ∷ nonce ∷ tag ∷ ciphertext ∷ []) =
    open_field c context (key_of version ring.keys) nonce tag ciphertext
open_parts c ring context _ = err plain_error

-- `decryptWith`
unfoldable pub decrypt_with : Crypto → KeyRing → Text → Text → Result Text
unfolding split
decrypt_with c ring value context = open_parts c ring context (split value)
