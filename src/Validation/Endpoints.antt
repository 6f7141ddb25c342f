-- ===== src/Validation/Endpoints.antt =====
-- packages/validation/endpoints.ts: which storage endpoints a browser may be sent to. Texts are lists of
-- character codes; a `Url` is what `new URL` has parsed, with its hostname in lower case.
use astra_file_host.Base.{
  ℕ, Bool, true, false, ◌&&◌, ◌||◌, not, List, [], ◌∷◌, ◌==◌, Result, ◌>>◌, throw_if, plain_error,
}

pub data Protocol : Type 0 where
  http https other_protocol : Protocol

pub record Url : Type 0 where
  pub protocol : Protocol
  pub has_username : Bool
  pub has_password : Bool
  pub hostname : List ℕ

abbrev pub same_text : List ℕ → List ℕ → Bool
same_text [] [] = true
same_text (x ∷ xs) (y ∷ ys) = x == y && same_text xs ys
same_text _ _ = false

abbrev pub starts_with : List ℕ → List ℕ → Bool
starts_with [] text = true
starts_with (p ∷ ps) [] = false
starts_with (p ∷ ps) (x ∷ xs) = p == x && starts_with ps xs

abbrev pub ends_with : List ℕ → List ℕ → Bool
ends_with suffix [] = same_text suffix []
ends_with suffix (x ∷ xs) = same_text suffix (x ∷ xs) || ends_with suffix xs

abbrev pub includes : ℕ → List ℕ → Bool
includes c [] = false
includes c (x ∷ xs) = c == x || includes c xs

-- The texts `localhost`, `.localhost`, `[::1]` and `127.`.
abbrev pub localhost : List ℕ
localhost = 108 ∷ 111 ∷ 99 ∷ 97 ∷ 108 ∷ 104 ∷ 111 ∷ 115 ∷ 116 ∷ []

abbrev pub dot_localhost : List ℕ
dot_localhost = 46 ∷ localhost

abbrev pub loopback_v6 : List ℕ
loopback_v6 = 91 ∷ 58 ∷ 58 ∷ 49 ∷ 93 ∷ []

abbrev pub loopback_v4 : List ℕ
loopback_v4 = 49 ∷ 50 ∷ 55 ∷ 46 ∷ []

unfoldable pub is_loopback_host : List ℕ → Bool
is_loopback_host host =
    same_text host localhost
    || (ends_with dot_localhost host
        || (same_text host loopback_v6 || starts_with loopback_v4 host))

abbrev pub is_https : Protocol → Bool
is_https https = true
is_https _ = false

-- `['http:','https:'].includes(endpoint.protocol)`
abbrev pub is_web : Protocol → Bool
is_web other_protocol = false
is_web _ = true

unfoldable pub validate_browser_endpoint : Url → Url → Result (Unit {0})
unfolding is_loopback_host
validate_browser_endpoint app endpoint = do
  throw_if (not (is_web endpoint.protocol) || (endpoint.has_username || endpoint.has_password))
      plain_error
  throw_if (is_https app.protocol && not (is_https endpoint.protocol)) plain_error
  throw_if
      (not (is_loopback_host app.hostname)
        && (is_loopback_host endpoint.hostname
            || (not (includes 46 endpoint.hostname) && not (includes 58 endpoint.hostname))))
      plain_error
