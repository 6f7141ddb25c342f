-- ===== src/Privacy/Lookups.antt =====
-- A lookup that was stored before a rotation of the keys.
use astra_file_host.Base.{
  ℕ, ◌≡◌, refl, Bool, true, false, ◌||◌, Option, some, List, [], ◌∷◌, ◌++◌, ◌==◌, ok, ==_iff,
  Bool-cases, inl, inr, if◌then◌else◌,
}
use astra_file_host.Validation.Endpoints.{same_text}
use astra_file_host.Privacy.{
  Text, Entry, KeyRing, key_of, parse_key_ring, Crypto, digest_with, digest_each, digest_candidates,
}
use astra_file_host.Privacy.Rotation.{parse_key_ring-active, &&-left, &&-right}
use astra_file_host.Privacy.References.{configured, has_key, lookup, lookups}

same_text_refl : (a : Text) → same_text a a ≡ true
same_text_refl [] = refl
same_text_refl (x ∷ xs) = rw ((==_iff x x).1 refl) (same_text_refl xs)

same_text_eq : (a b : Text) → same_text a b ≡ true → a ≡ b
same_text_eq [] [] h = refl
same_text_eq [] (y ∷ ys) h = cc
same_text_eq (x ∷ xs) [] h = cc
same_text_eq (x ∷ xs) (y ∷ ys) h =
    let first = (==_iff x y).0 (&&-left (x == y) (same_text xs ys) h) in
    let others = same_text_eq xs ys (&&-right (x == y) (same_text xs ys) h) in cc

same_text_of_eq : (a b : Text) → a ≡ b → same_text a b ≡ true
same_text_of_eq a b h = rw h (same_text_refl b)

||-left : (a b : Bool) → a ≡ true → (a || b) ≡ true
||-left true b h = refl
||-left false b h = cc

||-right : (a b : Bool) → b ≡ true → (a || b) ≡ true
||-right true b h = refl
||-right false b h = h

key_of_here :
    (b : Bool) (k key : List ℕ) (later : Option (List ℕ))
    → b ≡ true
    → (if b then some k else later) ≡ some key
    → k ≡ key
key_of_here true k key later h found = cc
key_of_here false k key later h found = cc

key_of_later :
    (b : Bool) (k key : List ℕ) (later : Option (List ℕ))
    → b ≡ false
    → (if b then some k else later) ≡ some key
    → later ≡ some key
key_of_later true k key later h found = cc
key_of_later false k key later h found = found

-- Among the digests under every key is the one under the key of a version.
digest_each-key_of :
    (c : Crypto) (version context value : Text) (key : List ℕ) (entries : List Entry)
    → key_of version entries ≡ some key
    → has_key
        (version ++ 58 ∷ c.hmac key (context ++ 0 ∷ value))
        (digest_each c entries value context)
      ≡ true
digest_each-key_of c version context value key [] h = cc
digest_each-key_of c version context value key (e ∷ es) h =
    elim (Bool-cases (same_text e.version version)) [
      | inl same ↦
          let named = same_text_eq e.version version same in
          let held =
            key_of_here (same_text e.version version) e.key key (key_of version es) same h in
          ||-left _ _ (
            same_text_of_eq (version ++ 58 ∷ c.hmac key (context ++ 0 ∷ value))
              (e.version ++ 58 ∷ c.hmac e.key (context ++ 0 ∷ value)) cc)
      | inr other ↦ ||-right _ _ (
          digest_each-key_of c version context value key es
            (key_of_later (same_text e.version version) e.key key (key_of version es) other h))
    ]

-- Under an accepted key ring a value has a lookup, and under any other accepted ring that still has the
-- key of the version then active it has lookups, of which that one is one.
pub lookups-lookup :
    (c : Crypto) (ring later : KeyRing) (context value : Text)
    → parse_key_ring ring ≡ ok ring
    → parse_key_ring later ≡ ok later
    → key_of ring.active later.keys ≡ key_of ring.active ring.keys
    → (stored : Text) × (candidates : List Text) × (lookup c (some ring) context value ≡ ok stored)
      × (lookups c (some later) context value ≡ ok candidates)
      × (has_key stored candidates ≡ true)
unfolding lookup lookups configured digest_with digest_candidates
lookups-lookup c ring later context value accepted accepted_later kept =
    let (words, (key, known)) = parse_key_ring-active ring accepted in
    (
      ring.active ++ 58 ∷ c.hmac key (context ++ 0 ∷ value),
      digest_each c later.keys value context,
      rw (accepted, known) refl,
      rw accepted_later refl,
      digest_each-key_of c ring.active context value key later.keys (rw (kept) known),
    )
