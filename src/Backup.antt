-- ===== src/Backup.antt =====
-- packages/privacy/backup.ts: the encrypted format of backups. Bytes are numbers; the cipher
-- (AES-256-GCM of node:crypto) is a parameter. The decryption reads a stream whose pieces `take` joins,
-- so that the model reads their concatenation.
pub mod RoundTrip
use astra_file_host.Base.{
  ℕ, zero, suc, ◌+◌, ◌-◌, ◌*◌, ◌/◌, ◌%◌, ◌<◌, ◌≤◌, ◌≡◌, Bool, true, false, ◌&&◌, ◌||◌, not, Option,
  none, some, List, [], ◌∷◌, ◌++◌, ◌==◌, ltb, leb, if◌then◌else◌, length, take, drop, Result, ok,
  err, ◌>>=◌, ◌>>◌, throw_if, plain_error,
}

abbrev pub Bytes : Type 0
Bytes = List ℕ

-- `createCipheriv('aes-256-gcm',key,nonce)` with its associated data: the ciphertext and the tag; and
-- `createDecipheriv`, which fails on a wrong tag.
pub record Cipher : Type 0 where
  pub encrypt : ℕ → Bytes → Bytes → Bytes → Bytes
  pub tag : ℕ → Bytes → Bytes → Bytes → Bytes
  pub decrypt : ℕ → Bytes → Bytes → Bytes → Bytes → Option Bytes

-- What GCM guarantees: decryption inverts encryption, the ciphertext has the length of the text, and a
-- tag has 16 bytes.
pub record IsCipher (c : Cipher) : Type 0 where
  pub decrypts :
      (key : ℕ) (nonce aad text : Bytes)
      → c.decrypt key nonce aad (c.encrypt key nonce aad text) (c.tag key nonce aad text)
        ≡ some text
  pub same_length :
      (key : ℕ) (nonce aad text : Bytes) → length (c.encrypt key nonce aad text) ≡ length text
  pub tag_length : (key : ℕ) (nonce aad text : Bytes) → length (c.tag key nonce aad text) ≡ 16

-- `KeyRing`: the name of the active version, and the keys by version.
pub record KeyRing : Type 0 where
  pub active : Bytes
  pub keys : Bytes → Option ℕ

-- `Buffer.from('ASTRABK1')`
abbrev pub magic : Bytes
magic = 65 ∷ 83 ∷ 84 ∷ 82 ∷ 65 ∷ 66 ∷ 75 ∷ 49 ∷ []

abbrev pub chunk_bytes : ℕ
chunk_bytes = 1048576

abbrev pub frame_limit : ℕ
frame_limit = 4294967295

-- `writeUInt32BE`, `readUInt32BE`
unfoldable pub u32 : ℕ → Bytes
u32 n = n / 16777216 % 256 ∷ n / 65536 % 256 ∷ n / 256 % 256 ∷ n % 256 ∷ []

unfoldable pub read_u32 : Bytes → ℕ
read_u32 (a ∷ b ∷ c ∷ d ∷ rest) = a * 16777216 + b * 65536 + c * 256 + d
read_u32 _ = 0

-- The frames of one input: `for(let at=0;at<bytes.length;at+=chunkBytes)`.
unfoldable pub chunks : ℕ → Bytes → List Bytes
chunks zero bytes = []
chunks (suc fuel) [] = []
chunks (suc fuel) (b ∷ bs) = take chunk_bytes (b ∷ bs) ∷ chunks fuel (drop chunk_bytes (b ∷ bs))

unfoldable pub all_chunks : List Bytes → List Bytes
all_chunks [] = []
all_chunks (bytes ∷ rest) = chunks (length bytes) bytes ++ all_chunks rest

module _ (c : Cipher) where
  -- `frame(data)`: the length, the ciphertext and the tag; length and place are authenticated.
  unfoldable pub frame : ℕ → Bytes → Bytes → ℕ → Bytes → Bytes
  frame key header seed sequence data_bytes =
      let nonce = seed ++ u32 sequence in
      let aad = header ++ (nonce ++ u32 (length data_bytes)) in
      u32 (length data_bytes)
      ++ (c.encrypt key nonce aad data_bytes ++ c.tag key nonce aad data_bytes)

  -- The frames and the empty one that ends them.
  unfoldable pub frames : ℕ → Bytes → Bytes → ℕ → List Bytes → Result Bytes
  frames key header seed sequence [] = do
    throw_if (leb frame_limit sequence) plain_error
    ok (frame key header seed sequence [])
  frames key header seed sequence (piece ∷ pieces) = do
    throw_if (leb frame_limit sequence) plain_error
    rest ← frames key header seed (suc sequence) pieces
    ok (frame key header seed sequence piece ++ rest)

  abbrev pub header_of : Bytes → Bytes → Bytes
  header_of version seed = magic ++ (length version ∷ version ++ seed)

  abbrev pub key_of : Option ℕ → Result ℕ
  key_of none = err plain_error
  key_of (some k) = ok k

  unfoldable pub encrypt_backup : KeyRing → Bytes → List Bytes → Result Bytes
  encrypt_backup ring seed source = do
    key ← key_of (ring.keys ring.active)
    body ← frames key (header_of ring.active seed) seed 0 (all_chunks source)
    ok (header_of ring.active seed ++ body)

  -- `take(size)`: the next bytes and the rest, or the error of a stream that is too short.
  unfoldable pub take_bytes : ℕ → Bytes → Result (Bytes × Bytes)
  take_bytes n bytes = do
    throw_if (ltb (length bytes) n) plain_error
    ok (take n bytes, drop n bytes)

  abbrev pub authentic : Option Bytes → Result Bytes
  authentic none = err plain_error
  authentic (some text) = ok text

  abbrev pub is_empty : Bytes → Bool
  is_empty [] = true
  is_empty (b ∷ bs) = false

  -- The empty frame must end the stream; any other is yielded before the later ones.
  abbrev pub end_frame : ℕ → Bytes → Bytes → Result (List Bytes) → Result (List Bytes)
  end_frame zero text rest later = throw_if (not (is_empty rest)) plain_error >> ok []
  end_frame (suc n) text rest later = later >>= λ texts. ok (text ∷ texts)

  -- The loop over the frames. A frame has at least 20 bytes, so that as many rounds as there are bytes
  -- are enough.
  unfoldable pub decrypt_frames : ℕ → ℕ → Bytes → Bytes → ℕ → Bytes → Result (List Bytes)
  decrypt_frames zero key header seed sequence bytes = err plain_error
  decrypt_frames (suc fuel) key header seed sequence bytes = do
    (size_bytes, after_size) ← take_bytes 4 bytes
    throw_if (ltb chunk_bytes (read_u32 size_bytes) || leb frame_limit sequence) plain_error
    (encrypted, after_text) ← take_bytes (read_u32 size_bytes) after_size
    (tag, rest) ← take_bytes 16 after_text
    text ← authentic (
        c.decrypt key (seed ++ u32 sequence) (header ++ ((seed ++ u32 sequence) ++ size_bytes))
          encrypted tag)
    end_frame (read_u32 size_bytes) text rest
        (decrypt_frames fuel key header seed (suc sequence) rest)

  -- `prefix.subarray(0,8).equals(magic)` and the length of the version's name, from 1 to 24.
  abbrev pub same_bytes : Bytes → Bytes → Bool
  same_bytes [] [] = true
  same_bytes (a ∷ as') (b ∷ bs) = a == b && same_bytes as' bs
  same_bytes _ _ = false

  abbrev first_byte : Bytes → ℕ
  first_byte [] = 0
  first_byte (b ∷ bs) = b

  abbrev pub version_length : Bytes → ℕ
  version_length prefix = first_byte (drop 8 prefix)

  abbrev pub has_magic : Bytes → Bool
  has_magic prefix =
      same_bytes (take 8 prefix) magic
      && (leb 1 (version_length prefix) && leb (version_length prefix) 24)

  unfoldable pub decrypt_backup : KeyRing → Bytes → Result (List Bytes)
  decrypt_backup ring bytes = do
    (prefix, after_prefix) ← take_bytes 9 bytes
    throw_if (not (has_magic prefix)) plain_error
    (version, after_version) ← take_bytes (version_length prefix) after_prefix
    (seed, body) ← take_bytes 8 after_version
    key ← key_of (ring.keys version)
    decrypt_frames (suc (length body)) key (prefix ++ (version ++ seed)) seed 0 body
