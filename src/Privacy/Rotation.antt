-- ===== src/Privacy/Rotation.antt =====
-- A field that was encrypted before a rotation of the keys.
use astra_file_host.Base.{
  ℕ, ◌≡◌, refl, Bool, true, false, not, ◌&&◌, ◌||◌, Option, none, some, List, [], ◌∷◌, ◌++◌, ◌==◌,
  ok, arith, throw_if-eq-ok, plain_error, length,
}
use astra_file_host.Settings.{within}
use astra_file_host.Privacy.{
  Text, KeyRing, is_word, all_word, is_version, key_of, is_known, has_bad_entry, parse_key_ring,
  Crypto, IsCrypto, is_empty, join, encrypt_with, split, open_field, decrypt_with,
}

is_word-dot : (x : ℕ) → is_word x ≡ true → (x == 46) ≡ false
is_word-dot x h = ground arith

pub &&-left : (a b : Bool) → (a && b) ≡ true → a ≡ true
&&-left true b h = refl
&&-left false b h = h

pub &&-right : (a b : Bool) → (a && b) ≡ true → b ≡ true
&&-right true b h = h
&&-right false b h = cc

split-word : (a rest : Text) → all_word a ≡ true → split (a ++ 46 ∷ rest) ≡ a ∷ split rest
unfolding split
split-word [] rest h = refl
split-word (x ∷ xs) rest h =
    rw
      (
        is_word-dot x (&&-left (is_word x) (all_word xs) h),
        split-word xs rest (&&-right (is_word x) (all_word xs) h),
      )
      refl

split-last : (a : Text) → all_word a ≡ true → split a ≡ a ∷ []
unfolding split
split-last [] h = refl
split-last (x ∷ xs) h =
    rw
      (
        is_word-dot x (&&-left (is_word x) (all_word xs) h),
        split-last xs (&&-right (is_word x) (all_word xs) h),
      )
      refl

-- The four parts of a field are the ones it was made of.
split-join :
    (a b c d : Text)
    → all_word a ≡ true
    → all_word b ≡ true
    → all_word c ≡ true
    → all_word d ≡ true
    → split (join a b c d) ≡ a ∷ b ∷ c ∷ d ∷ []
split-join a b c d ha hb hc hd =
    rw
      (
        split-word a (b ++ 46 ∷ (c ++ 46 ∷ d)) ha,
        split-word b (c ++ 46 ∷ d) hb,
        split-word c d hc,
        split-last d hd,
      )
      refl

accepts_lem : (a b c : Bool) → (not a || (not b || c)) ≡ false → (a ≡ true) × (b ≡ true)
accepts_lem true true c h = (refl, refl)
accepts_lem true false c h = cc
accepts_lem false b c h = cc

is_known-some : (o : Option (List ℕ)) → is_known o ≡ true → (key : List ℕ) × (o ≡ some key)
is_known-some none h = cc
is_known-some (some key) h = (key, refl)

-- The active version of an accepted ring is a word, and its key is known.
pub parse_key_ring-active :
    (ring : KeyRing)
    → parse_key_ring ring ≡ ok ring
    → (all_word ring.active ≡ true) × ((key : List ℕ) × (key_of ring.active ring.keys ≡ some key))
unfolding parse_key_ring
parse_key_ring-active ring h =
    let bad =
      throw_if-eq-ok
        (not (is_version ring.active)
          || (not (is_known (key_of ring.active ring.keys)) || has_bad_entry ring.keys))
        plain_error (ok ring) h in
    let both =
      accepts_lem (is_version ring.active) (is_known (key_of ring.active ring.keys))
        (has_bad_entry ring.keys) bad.0 in
    (
      &&-right (within 1 24 (length ring.active)) (all_word ring.active) both.0,
      is_known-some (key_of ring.active ring.keys) both.1,
    )

open_field-sealed :
    (c : Crypto) (law : IsCrypto c) (context value : Text) (key nonce : List ℕ)
    → is_empty nonce ≡ false
    → open_field c context
        (some key)
        (c.encode nonce)
        (c.encode (c.tag key nonce context value))
        (c.encode (c.encrypt key nonce context value))
      ≡ ok value
open_field-sealed c law context value key nonce h =
    rw
      (
        law.same_emptiness nonce,
        h,
        law.same_emptiness (c.tag key nonce context value),
        law.has_tag key nonce context value,
        law.decodes nonce,
        law.decodes (c.tag key nonce context value),
        law.decodes (c.encrypt key nonce context value),
      )
      (law.decrypts key nonce context value)

module _ (c : Crypto) (law : IsCrypto c) (ring later : KeyRing) (nonce : List ℕ)
    (value context : Text) where
  -- Under an accepted key ring and with a nonce that is not empty, `encryptWith` gives a field, and
  -- `decryptWith` under any ring that still has the key of the version then active gives back the value,
  -- in the same context, whichever version has become active.
  pub decrypt_with-encrypt_with :
      parse_key_ring ring ≡ ok ring
      → is_empty nonce ≡ false
      → key_of ring.active later.keys ≡ key_of ring.active ring.keys
      → (field : Text) × (encrypt_with c ring nonce value context ≡ ok field)
        × (decrypt_with c later field context ≡ ok value)
  unfolding encrypt_with decrypt_with
  decrypt_with-encrypt_with accepted drawn kept =
      let (words, (key, known)) = parse_key_ring-active ring accepted in
      let tag = c.tag key nonce context value in
      let text = c.encrypt key nonce context value in
      (
        join ring.active (c.encode nonce) (c.encode tag) (c.encode text),
        rw (known) refl,
        rw
            (
              split-join ring.active (c.encode nonce) (c.encode tag) (c.encode text) words
                  (law.words nonce) (law.words tag) (law.words text),
              kept,
              known,
            )
            (open_field-sealed c law context value key nonce drawn),
      )
