-- ===== src/Backup/RoundTrip.antt =====
-- What is encrypted is what is restored.
use astra_file_host.Base.{
  ℕ, zero, suc, ◌<◌, ◌≤◌, ◌≡◌, refl, ap, true, List, [], ◌∷◌, ◌++◌, leb, length, take, drop, ok,
  ◌>>=◌, arith, length-append, Result-cases, inl, inr, length-drop, length-take, take-append-drop,
  append_assoc, append-nil, All,
}
use astra_file_host.Backup.{
  Bytes, Cipher, IsCipher, KeyRing, magic, chunk_bytes, frame_limit, u32, read_u32, chunks,
  all_chunks, frame, frames, header_of, key_of, encrypt_backup, take_bytes, end_frame,
  decrypt_frames, decrypt_backup,
}

abbrev pub concat : List Bytes → Bytes
concat [] = []
concat (x ∷ xs) = x ++ concat xs

take-append : (xs ys : Bytes) → take (length xs) (xs ++ ys) ≡ xs
take-append [] ys = refl
take-append (x ∷ xs) ys = ap (λ t. x ∷ t) (take-append xs ys)

drop-append : (xs ys : Bytes) → drop (length xs) (xs ++ ys) ≡ ys
drop-append [] ys = refl
drop-append (x ∷ xs) ys = drop-append xs ys

take_bytes-append :
    (c : Cipher) (n : ℕ) (xs ys : Bytes) → length xs ≡ n → take_bytes c n (xs ++ ys) ≡ ok (xs, ys)
unfolding take_bytes
take_bytes-append c n xs ys h =
    rw (← h, take-append xs ys, drop-append xs ys) (ground (arith, length-append xs ys))

read_u32-u32 : (n : ℕ) → n < 4294967296 → read_u32 (u32 n) ≡ n
unfolding read_u32 u32
read_u32-u32 n h = omega arith

length-u32 : (n : ℕ) → length (u32 n) ≡ 4
unfolding u32
length-u32 n = refl

module _ (c : Cipher) (law : IsCipher c) (key : ℕ) (header seed : Bytes) where
  -- One frame in front of others is read as its text.
  decrypt_frames-frame :
      (fuel sequence : ℕ) (text rest : Bytes)
      → length text ≤ chunk_bytes
      → sequence < frame_limit
      → decrypt_frames c
          (suc fuel)
          key
          header
          seed
          sequence
          (frame c key header seed sequence text ++ rest)
        ≡ end_frame c
            (length text)
            text
            rest
            (decrypt_frames c fuel key header seed (suc sequence) rest)
  unfolding decrypt_frames frame
  decrypt_frames-frame fuel sequence text rest short below =
      let nonce = seed ++ u32 sequence in
      let aad = header ++ (nonce ++ u32 (length text)) in
      let sealed = c.encrypt key nonce aad text in
      let tag = c.tag key nonce aad text in
      rw
        (
          append_assoc (u32 (length text)) (sealed ++ tag) rest,
          append_assoc sealed tag rest,
          take_bytes-append c 4 (u32 (length text)) (sealed ++ (tag ++ rest))
              (length-u32 (length text)),
          read_u32-u32 (length text) (omega arith),
          take_bytes-append c (length text) sealed (tag ++ rest)
              (law.same_length key nonce aad text),
          take_bytes-append c 16 tag rest (law.tag_length key nonce aad text),
          law.decrypts key nonce aad text,
        )
        (ground arith)

  abbrev IsPiece : Bytes → Type 0
  IsPiece b = (0 < length b) × (length b ≤ chunk_bytes)

  end_frame-piece :
      (piece rest : Bytes) (later : List Bytes)
      → 0 < length piece
      → end_frame c (length piece) piece rest (ok later) ≡ ok (piece ∷ later)
  end_frame-piece [] rest later h = absurd (omega (arith, h))
  end_frame-piece (b ∷ bs) rest later h = refl

  decrypt_frames-frames :
      (pieces : List Bytes) (fuel sequence : ℕ) (body : Bytes)
      → All IsPiece pieces
      → length pieces < fuel
      → frames c key header seed sequence pieces ≡ ok body
      → decrypt_frames c fuel key header seed sequence body ≡ ok pieces
  unfolding frames
  decrypt_frames-frames pieces zero sequence body ps enough h = absurd (omega (arith, enough))
  decrypt_frames-frames [] (suc fuel) sequence body ps enough h =
      let below : sequence < frame_limit = ground arith in
      let whole : frame c key header seed sequence [] ≡ body = ground arith in
      rw
        (
          ← whole,
          ← append-nil (frame c key header seed sequence []),
          decrypt_frames-frame fuel sequence [] [] (omega arith) below,
        )
        refl
  decrypt_frames-frames (p ∷ ps) (suc fuel) sequence body (fits, all) enough h =
      elim (Result-cases (frames c key header seed (suc sequence) ps)) [
        | inr (e, q) ↦ absurd (ground arith)
        | inl (rest, q) ↦
            let below : sequence < frame_limit = ground arith in
            let whole : frame c key header seed sequence p ++ rest ≡ body = ground arith in
            rw
              (
                ← whole,
                decrypt_frames-frame fuel sequence p rest fits.1 below,
                decrypt_frames-frames ps fuel (suc sequence) rest all (omega (arith, enough)) q,
              )
              (end_frame-piece p rest ps fits.0)
      ]

  frames-length :
      (pieces : List Bytes) (sequence : ℕ) (body : Bytes)
      → frames c key header seed sequence pieces ≡ ok body
      → length pieces ≤ length body
  unfolding frames frame u32
  frames-length [] sequence body h = omega arith
  frames-length (p ∷ ps) sequence body h =
      elim (Result-cases (frames c key header seed (suc sequence) ps)) [
        | inr (e, q) ↦ absurd (ground arith)
        | inl (rest, q) ↦
            let whole : frame c key header seed sequence p ++ rest ≡ body = ground arith in
            rw (← whole) (
              omega (
                arith,
                length-append (frame c key header seed sequence p) rest,
                frames-length ps (suc sequence) rest q,
              ))
      ]

-- The pieces of an input are not empty, fit into a frame, and make up the input.
chunks-IsPiece :
    (fuel : ℕ) (bytes : Bytes)
    → length bytes ≤ fuel
    → All (λ (b : Bytes). (0 < length b) × (length b ≤ chunk_bytes)) (chunks fuel bytes)
      × (concat (chunks fuel bytes) ≡ bytes)
unfolding chunks
chunks-IsPiece zero [] h = (tt, refl)
chunks-IsPiece zero (b ∷ bs) h = absurd (omega (arith, h))
chunks-IsPiece (suc fuel) [] h = (tt, refl)
chunks-IsPiece (suc fuel) (b ∷ bs) h =
    let (later, whole) =
      chunks-IsPiece fuel (drop chunk_bytes (b ∷ bs))
        (omega (arith, h, length-drop chunk_bytes (b ∷ bs))) in
    (
      (
        (
          omega (arith, length-take chunk_bytes (b ∷ bs)),
          omega (arith, length-take chunk_bytes (b ∷ bs)),
        ),
        later,
      ),
      rw whole (take-append-drop chunk_bytes (b ∷ bs)),
    )

All-append : (P : Bytes → Type 0) (xs ys : List Bytes) → All P xs → All P ys → All P (xs ++ ys)
All-append P [] ys h k = k
All-append P (x ∷ xs) ys h k = (h.0, All-append P xs ys h.1 k)

concat-append : (xs ys : List Bytes) → concat (xs ++ ys) ≡ concat xs ++ concat ys
concat-append [] ys = refl
concat-append (x ∷ xs) ys = rw (concat-append xs ys, append_assoc x (concat xs) (concat ys)) refl

all_chunks-IsPiece :
    (source : List Bytes)
    → All (λ (b : Bytes). (0 < length b) × (length b ≤ chunk_bytes)) (all_chunks source)
      × (concat (all_chunks source) ≡ concat source)
unfolding all_chunks
all_chunks-IsPiece [] = (tt, refl)
all_chunks-IsPiece (bytes ∷ rest) =
    let (pieces, whole) = chunks-IsPiece (length bytes) bytes (omega arith) in
    let (later, same) = all_chunks-IsPiece rest in
    (
      All-append _ (chunks (length bytes) bytes) (all_chunks rest) pieces later,
      rw (concat-append (chunks (length bytes) bytes) (all_chunks rest), whole, same) refl,
    )

le_leb : (a b : ℕ) → a ≤ b → leb a b ≡ true
le_leb a b h = ground arith

-- The header is read as it was written.
decrypt_backup-header :
    (c : Cipher) (ring : KeyRing) (seed body : Bytes)
    → 0 < length ring.active
    → length ring.active ≤ 24
    → length seed ≡ 8
    → decrypt_backup c ring (header_of c ring.active seed ++ body) ≡ (
        key_of c (ring.keys ring.active) >>= λ key.
        decrypt_frames c (suc (length body)) key (header_of c ring.active seed) seed 0 body)
unfolding decrypt_backup
decrypt_backup-header c ring seed body pos short eight =
    rw
      (
        append_assoc ring.active seed body,
        take_bytes-append c 9 (magic ++ (length ring.active ∷ [])) (ring.active ++ (seed ++ body))
            refl,
        take_bytes-append c (length ring.active) ring.active (seed ++ body) refl,
        take_bytes-append c 8 seed body eight,
        le_leb 1 (length ring.active) pos,
        le_leb (length ring.active) 24 short,
      )
      refl

-- For a cipher that decrypts what it has encrypted, a version name of 1 to 24 bytes and a seed of 8
-- bytes: whatever stream of inputs the encryption turns into a backup, the decryption of the backup
-- returns, and yields pieces that join to the same bytes.
pub decrypt_backup-encrypt_backup :
    (c : Cipher) (ring : KeyRing) (seed out : Bytes) (source : List Bytes)
    → IsCipher c
    → 0 < length ring.active
    → length ring.active ≤ 24
    → length seed ≡ 8
    → encrypt_backup c ring seed source ≡ ok out
    → (pieces : List Bytes) × (decrypt_backup c ring out ≡ ok pieces)
      × (concat pieces ≡ concat source)
unfolding encrypt_backup
decrypt_backup-encrypt_backup c ring seed out source law pos short eight h =
    elim (Result-cases (key_of c (ring.keys ring.active))) [
      | inr (e, q) ↦ absurd (ground arith)
      | inl (key, q) ↦
          elim (Result-cases
            (frames c key (header_of c ring.active seed) seed 0 (all_chunks source))) [
              | inr (e, k) ↦ absurd (ground arith)
              | inl (body, k) ↦
                  let (fits, same) = all_chunks-IsPiece source in
                  let written : header_of c ring.active seed ++ body ≡ out = ground arith in
                  (
                    all_chunks source,
                    rw (← written, decrypt_backup-header c ring seed body pos short eight, q)
                        (decrypt_frames-frames c law key (header_of c ring.active seed) seed
                          (all_chunks source) (suc (length body)) 0 body fits
                          (omega (
                            arith,
                            frames-length c law key (header_of c ring.active seed) seed
                                (all_chunks source) 0 body k,
                          ))
                          k),
                    same,
                  )
            ]
    ]
