-- ===== src/Dispatcher/Conditions.antt =====
-- goproxy/dispatcher.go, the tests behind the ready-made conditions, as functions of what they read.
pub mod Local
use cffi_proxy.Base.{
  ℕ, Bool, false, ◌&&◌, ◌||◌, Option, none, some, List, [], ◌∷◌, ◌++◌, Text, codes, text_eq,
  has_prefix, any, drop, leb, ◌==◌,
}
use cffi_proxy.Http.{Request, Response}
use cffi_proxy.Http.Headers.{HeaderLib, header_of}

abbrev pub is_digit : ℕ → Bool
is_digit c = leb b'0' c && leb c b'9'

-- A set of strings, map[string]bool, by its keys.
unfoldable pub member : Text → List Text → Bool
member k ks = any (λ u. text_eq u k) ks

unfoldable pub url_has_prefix : Text → Request → Bool
url_has_prefix prefix req =
    has_prefix req.url.path prefix
    || has_prefix (req.url.host ++ req.url.path) prefix
    || has_prefix (req.url.scheme ++ req.url.host ++ req.url.path) prefix

unfoldable pub url_is : List Text → Request → Bool
unfolding member
url_is urls req = member req.url.path urls || member (req.url.host ++ req.url.path) urls

-- A compiled regular expression is its MatchString.
unfoldable pub req_host_matches : List (Text → Bool) → Request → Bool
req_host_matches regexps req = any (λ re. re req.host) regexps

unfoldable pub req_host_is : List Text → Request → Bool
unfolding member
req_host_is hosts req = member req.url.host hosts

starts_with_digit : Text → Bool
starts_with_digit [] = false
starts_with_digit (c ∷ s) = is_digit c

-- `127\.0\.0\.\d+`, anywhere in the text.
unfoldable pub local_host_ipv4 : Text → Bool
unfolding starts_with_digit
local_host_ipv4 [] = false
local_host_ipv4 (c ∷ s) =
    (has_prefix (c ∷ s) (codes "127.0.0.") && starts_with_digit (drop 7 s)) || local_host_ipv4 s

unfoldable pub is_local_host : Request → Bool
unfolding local_host_ipv4
is_local_host req =
    text_eq req.url.host (codes "::1")
    || text_eq req.url.host (codes "0:0:0:0:0:0:0:1")
    || local_host_ipv4 req.url.host
    || text_eq req.url.host (codes "localhost")

unfoldable pub url_matches : (Text → Bool) → Request → Bool
url_matches re req = re req.url.path || re (req.url.host ++ req.url.path)

unfoldable pub dst_host_is : Text → Request → Bool
dst_host_is host req = text_eq req.url.host host

unfoldable pub src_ip_is : List Text → Request → Bool
src_ip_is ips req = any (λ ip. has_prefix req.remote_addr (ip ++ b':' ∷ [])) ips

-- The header lookup of ContentTypeIs; a nil map reads as an empty one.
unfoldable pub content_type : HeaderLib → Response → Text
content_type lib resp = lib.get (header_of resp.header) (codes "Content-Type")

unfoldable pub content_type_is : HeaderLib → Text → List Text → Option Response → Bool
content_type_is lib typ types none = false
content_type_is lib typ types (some resp) =
    let content = content_type lib resp in
    any (λ t. text_eq content t || has_prefix content (t ++ b';' ∷ [])) (types ++ typ ∷ [])

unfoldable pub status_code_is : List ℕ → Option Response → Bool
status_code_is codes none = false
status_code_is codes (some resp) = any (λ c. c == resp.status_code) codes
