-- ===== src/Transport/Method.antt =====
-- goproxy/transport/transport.go and util.go: addresses, the keys of connections, the choice of a
-- proxy, and RegisterProtocol. Texts to be compared in small letters are taken to be ASCII.
pub mod Keys
pub mod Exceptions
use mathlib.Core.List.{reverse}
use cffi_proxy.Base.{
  ℕ, suc, ◌+◌, Bool, true, false, not, ◌&&◌, ◌||◌, Option, none, some, List, [], ◌∷◌, ◌++◌, map,
  Text, codes, text_eq, has_prefix, last_index_of, take, ltb, leb, ◌==◌, if◌then◌else◌, is_some,
}
use cffi_proxy.Base.Maps.{Map, lookup, store}
use cffi_proxy.Action.{Outcome, ok, panics, message, slice_bounds}
use cffi_proxy.Http.{Url, Err, Request}
use cffi_proxy.Websocket.Upgrade.{split, trim_space}

abbrev pub colon : ℕ
colon = 58

abbrev pub close_bracket : ℕ
close_bracket = 93

-- Whether the first of two indices is greater, where `none` is -1.
abbrev pub beyond : Option ℕ → Option ℕ → Bool
beyond none j = false
beyond (some i) none = true
beyond (some i) (some j) = ltb j i

-- hasPort of util.go
unfoldable pub host_has_port : Text → Bool
unfolding last_index_of
host_has_port s = beyond (last_index_of colon s) (last_index_of close_bracket s)

-- s[:strings.LastIndex(s, ":")] if s has a port
unfoldable pub without_port : Text → Text
unfolding host_has_port last_index_of
without_port s =
    if host_has_port s then elim (last_index_of colon s) [ none ↦ s | some ix ↦ take ix s ] else s

-- portMap[scheme]
unfoldable pub port_of : Text → Text
port_of scheme =
    if text_eq scheme (codes "http")
    then codes "80"
    else if text_eq scheme (codes "https")
    then codes "443"
    else []

unfoldable pub canonical_addr : Url → Text
unfolding host_has_port port_of
canonical_addr url =
    if not (host_has_port url.host) then url.host ++ colon ∷ port_of url.scheme else url.host

pub record ConnectMethod : Type 0 where
  pub proxy_url : Option Url
  pub target_scheme : Text
  pub target_addr : Text

-- connectMethodForRequest; `proxy` is the transport's Proxy, which may be nil.
unfoldable pub connect_method_for_request :
    Option (Request → Option Url × Option Err) → Request → Option ConnectMethod × Option Err
unfolding canonical_addr
connect_method_for_request proxy req =
    let cm : Option Url → ConnectMethod = λ proxy_url. record {
      proxy_url = proxy_url;
      target_scheme = req.url.scheme;
      target_addr = canonical_addr req.url;
    } in
    elim proxy [
      | none ↦ (some (cm none), none)
      | some f ↦
          let (proxy_url, err) = f req in
          elim err [ some e ↦ (none, some e) | none ↦ (some (cm proxy_url), none) ]
    ]

-- connectMethod.String; `url_string` is url.URL.String.
unfoldable pub to_string : (Url → Text) → ConnectMethod → Text
to_string url_string cm =
    elim cm.proxy_url [ none ↦ [] | some u ↦ url_string u ]
    ++ (codes "|" ++ (cm.target_scheme ++ (codes "|" ++ cm.target_addr)))

-- connectMethod.addr
unfoldable pub addr : ConnectMethod → Text
unfolding canonical_addr
addr cm = elim cm.proxy_url [ none ↦ cm.target_addr | some u ↦ canonical_addr u ]

-- connectMethod.tlsHost
unfoldable pub tls_host : ConnectMethod → Text
unfolding without_port
tls_host cm = without_port cm.target_addr

unfoldable pub to_lower : Text → Text
to_lower s = map (λ c. if leb 65 c && leb c 90 then c + 32 else c) s

unfoldable pub has_suffix : Text → Text → Bool
has_suffix s suffix = has_prefix (reverse s) (reverse suffix)

-- The comparison with an entry; the first byte of an empty entry is out of range.
unfoldable pub covers : Text → Text → Outcome Bool
unfolding has_suffix
covers target [] = if text_eq target [] then ok true else panics slice_bounds
covers target (d ∷ p) =
    ok (text_eq target (d ∷ p) || ((d == b'.') && (has_suffix target (d ∷ p) || text_eq target p)))

-- One entry of NO_PROXY against the address.
unfoldable pub excludes : Text → Text → Outcome Bool
unfolding to_lower without_port covers
excludes target entry =
    let p = to_lower (trim_space entry) in
    elim p [ [] ↦ ok false | c ∷ s ↦ covers target (without_port (c ∷ s)) ]

-- The loop over the entries: whether a proxy is used.
unfoldable pub none_excludes : Text → List Text → Outcome Bool
unfolding excludes
none_excludes target [] = ok true
none_excludes target (p ∷ ps) =
    let rest = none_excludes target ps in
    elim (excludes target p) [
      | panics e ↦ panics e
      | ok excluded ↦ if excluded then ok false else rest
    ]

-- useProxy; the host of net.SplitHostPort, whether it is a loopback address, and NO_PROXY.
unfoldable pub use_proxy : (Text → Option Text) → (Text → Bool) → Text → Text → Outcome Bool
unfolding none_excludes
use_proxy split_host is_loopback no_proxy [] = ok true
use_proxy split_host is_loopback no_proxy (c ∷ s) = elim (split_host (c ∷ s)) [
  | none ↦ ok false
  | some host ↦
      if text_eq host (codes "localhost") || is_loopback host || text_eq no_proxy (codes "*")
      then ok false
      else none_excludes (without_port (to_lower (trim_space (c ∷ s)))) (split 44 no_proxy)
]

-- `if t.altProto == nil { t.altProto = make(…) }`
abbrev pub made_protocols : Option (Map ℕ) → Map ℕ
made_protocols none = []
made_protocols (some m) = m

-- RegisterProtocol, on the map altProto, which may be nil; `rt` is the identity of a round tripper.
unfoldable pub register_protocol : Text → ℕ → Option (Map ℕ) → Outcome (Unit {0}) × Option (Map ℕ)
register_protocol scheme rt protocols =
    let refused = panics (message (codes "protocol " ++ (scheme ++ codes " already registered"))) in
    if text_eq scheme (codes "http") || text_eq scheme (codes "https")
    then (refused, protocols)
    else if is_some (lookup scheme (made_protocols protocols))
    then (refused, some (made_protocols protocols))
    else (ok tt, some (store scheme rt (made_protocols protocols)))
