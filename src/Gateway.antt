-- ===== src/Gateway.antt =====
-- apps/api/src/index.ts: the hook that every request passes after authentication, and the answer that
-- an error becomes. The parts of a URL are given by what the hook asks of them.
use astra_file_host.Base.{
  ℕ, Bool, true, false, ◌&&◌, ◌||◌, not, Option, none, some, List, [], ◌∷◌, ◌==◌, ltb, leb,
  if◌then◌else◌, Result, ok, ◌>>=◌, ◌>>◌, throw_if, api_error, request_failed, Code, conflict, find,
}
use astra_file_host.Auth.{Identity}
use astra_file_host.Auth.Guards.{support}

-- The prefixes `/api/auth`, `/api/admin`, `/api/public/shares` and `/api/docs`; any other path under
-- `/api`; and a path that is not under it.
pub data Route : Type 0 where
  auth_path admin_path public_share_path docs_path api_path web_path : Route

pub data Method : Type 0 where
  get head options other_method : Method

pub record Call : Type 0 where
  pub path : Route
  pub method : Method
  pub has_authorization : Bool
  pub same_origin : Bool
  pub is_web_client : Bool
  pub address : ℕ

-- A row of `ip_blocks`.
pub record Block : Type 0 where
  pub reference : ℕ
  pub expires_at : Option ℕ

abbrev pub is_api : Route → Bool
is_api web_path = false
is_api _ = true

abbrev pub is_docs : Route → Bool
is_docs docs_path = true
is_docs _ = false

-- `['GET','HEAD','OPTIONS'].includes(req.method)`
abbrev pub is_safe : Method → Bool
is_safe other_method = false
is_safe _ = true

abbrev pub is_get : Method → Bool
is_get get = true
is_get _ = false

abbrev pub is_exempt : Route → Bool
is_exempt auth_path = true
is_exempt admin_path = true
is_exempt public_share_path = true
is_exempt _ = false

abbrev is_member : ℕ → List ℕ → Bool
is_member x [] = false
is_member x (y ∷ ys) = x == y || is_member x ys

abbrev in_force : ℕ → Option ℕ → Bool
in_force now none = true
in_force now (some t) = ltb now t

abbrev is_block : ℕ → List ℕ → Block → Bool
is_block now references b = is_member b.reference references && in_force now b.expires_at

abbrev is_blocked : ℕ → List ℕ → List Block → Bool
is_blocked now references blocks = elim (find (is_block now references) blocks) [
  | none ↦ false
  | some b ↦ true
]

abbrev staff_if : Bool → Identity → Result (Unit {0})
staff_if false who = ok tt
staff_if true who = support who >>= λ u. ok tt

-- The hook `onRequest`. `references` are the digests of the address under every key, and `rate` is the
-- answer of `limited`.
unfoldable pub on_request :
    ℕ → (ℕ → List ℕ) → List Block → Result (Unit {0}) → Bool → Call → Identity → Result (Unit {0})
on_request now references blocks rate maintenance call who =
    if not (is_api call.path) then ok tt else (do
      throw_if
          (not (is_safe call.method)
            && (not call.has_authorization && not (call.same_origin && call.is_web_client)))
          (api_error 403 request_failed)
      staff_if (is_docs call.path) who
      throw_if (is_blocked now (references call.address) blocks) (api_error 403 request_failed)
      rate
      throw_if (maintenance && (not (is_exempt call.path) && not (is_get call.method)))
          (api_error 503 request_failed))

-- What a handler may throw: a parse error, a violated unique column, an `ApiError`, or another error
-- with a status or without.
pub data Thrown : Type 0 where
  invalid : Thrown
  duplicate : Thrown
  api : ℕ → Code → Thrown
  other : Option ℕ → Thrown

pub data ReplyCode : Type 0 where
  validation service_error : ReplyCode
  own : Code → ReplyCode

pub record Reply : Type 0 where
  pub status : ℕ
  pub masked : Bool
  pub code : ReplyCode

abbrev pub status_of : Option ℕ → ℕ
status_of none = 500
status_of (some n) = n

-- `setErrorHandler`: `masked` says that the message of the error is replaced.
unfoldable pub reply_to : Thrown → Reply
reply_to invalid = record { status = 400; masked = true; code = validation }
reply_to duplicate = record { status = 409; masked = true; code = own conflict }
reply_to (api status code) = record { status = status; masked = false; code = own code }
reply_to (other status) = record {
  status = status_of status;
  masked = leb 500 (status_of status);
  code = service_error;
}
