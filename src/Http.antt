-- ===== src/Http.antt =====
-- The replies of the dashboard's HTTP interface (internal/api/handler and internal/app): a status, the
-- cookies that are set, and the body; the other headers are left out.
pub mod Body
pub mod Sessions
pub mod ProviderHandler
pub mod EventsHandler
pub mod Routes
pub mod Stream
use vaulthook.Prelude.{
  ℕ, ℤ, pos, negsuc, Bool, true, Option, none, some, List, [], ◌∷◌, Text, codes,
}

-- auth/cookie.go: an http.Cookie; same_site_lax stands for SameSiteLaxMode.
pub record Cookie : Type 0 where
  pub name : Text
  pub value : Text
  pub max_age : ℤ
  pub http_only : Bool
  pub is_secure : Bool
  pub same_site_lax : Bool

abbrev pub access_cookie_name : Text
access_cookie_name = codes "access_token"

abbrev pub refresh_cookie_name : Text
refresh_cookie_name = codes "refresh_token"

abbrev pub new_access_cookie : Text → ℤ → Bool → Cookie
new_access_cookie value max_age secure = record {
  name = access_cookie_name;
  value = value;
  max_age = max_age;
  http_only = true;
  is_secure = secure;
  same_site_lax = true;
}

abbrev pub new_refresh_cookie : Text → ℤ → Bool → Cookie
new_refresh_cookie value max_age secure = record {
  name = refresh_cookie_name;
  value = value;
  max_age = max_age;
  http_only = true;
  is_secure = secure;
  same_site_lax = true;
}

abbrev pub expired_access_cookie : Bool → Cookie
expired_access_cookie secure = new_access_cookie [] (negsuc 0) secure

abbrev pub expired_refresh_cookie : Bool → Cookie
expired_refresh_cookie secure = new_refresh_cookie [] (negsuc 0) secure

pub record Reply : Type 0 where
  pub status : ℕ
  pub cookies : List Cookie
  pub body : Text

-- http.Error, and a reply without a cookie.
abbrev pub http_error : Text → ℕ → Reply
http_error message status = record { status = status; cookies = []; body = message }

-- WriteHeader without a body.
abbrev pub write_header : ℕ → Reply
write_header status = record { status = status; cookies = []; body = [] }

-- The end of a handler that writes JSON: the marshalled value, or the reply to a failure.
abbrev pub json_reply : Reply → Option Text → Reply
json_reply failure none = failure
json_reply failure (some body) = record { status = 200; cookies = []; body = body }
