-- ===== src/Transport/Method/Keys.antt =====
-- What the addresses and keys of connections are.
use cffi_proxy.Base.{
  last_index-append, last_index-snoc, last_index-lt, ℕ, ◌<◌, true, false, ◌≡◌, refl, ap, ◌∙◌,
  Option, none, some, Text, ◌∷◌, ◌++◌, codes, text_eq, contains, last_index_of, length, arith,
  take-append_length, text_eq_refl,
}
use cffi_proxy.Base.Maps.{Map, lookup, lookup-store}
use cffi_proxy.Action.{ok, panics, message}
use cffi_proxy.Http.{Url, Err, Request}
use cffi_proxy.Transport.Method.{
  colon, close_bracket, beyond, host_has_port, without_port, port_of, canonical_addr, ConnectMethod,
  connect_method_for_request, tls_host, made_protocols, register_protocol,
}

beyond-length : (n : ℕ) (o : Option ℕ) → ((i : ℕ) → o ≡ some i → i < n) → beyond (some n) o ≡ true
beyond-length n none h = refl
beyond-length n (some i) h = ground (arith, h i refl)

-- A host with a port added has a port.
host_has_port-colon :
    (s t : Text)
    → contains t colon ≡ false
    → contains t close_bracket ≡ false
    → host_has_port (s ++ colon ∷ t) ≡ true
unfolding host_has_port
host_has_port-colon s t h b =
    let no_bracket : contains (colon ∷ t) close_bracket ≡ false = unfold contains in b in
    rw (last_index-snoc colon s t h, last_index-append close_bracket s (colon ∷ t) no_bracket)
      (beyond-length (length s) (last_index_of close_bracket s) (last_index-lt close_bracket s))

port_of-plain :
    (scheme : Text)
    → (contains (port_of scheme) colon ≡ false) × (contains (port_of scheme) close_bracket ≡ false)
unfolding port_of codes contains
port_of-plain scheme = ground arith

-- canonicalAddr always gives an address with a port, and leaves a host that has one.
pub host_has_port-canonical_addr :
    (url : Url)
    → (host_has_port (canonical_addr url) ≡ true)
      × (canonical_addr (record url { host = canonical_addr url }) ≡ canonical_addr url)
unfolding canonical_addr
host_has_port-canonical_addr url =
    let (no_colon, no_bracket) = port_of-plain url.scheme in
    ground (arith, host_has_port-colon url.host (port_of url.scheme) no_colon no_bracket)

without_port-colon :
    (s t : Text)
    → contains t colon ≡ false
    → contains t close_bracket ≡ false
    → without_port (s ++ colon ∷ t) ≡ s
unfolding without_port
without_port-colon s t h b =
    rw (host_has_port-colon s t h b, last_index-snoc colon s t h) (take-append_length s (colon ∷ t))

without_port-canonical_addr :
    (url : Url) → host_has_port url.host ≡ false → without_port (canonical_addr url) ≡ url.host
unfolding canonical_addr
without_port-canonical_addr url h =
    let (no_colon, no_bracket) = port_of-plain url.scheme in
    let with_port : canonical_addr url ≡ url.host ++ colon ∷ port_of url.scheme = rw h in
    ap without_port with_port ∙ without_port-colon url.host (port_of url.scheme) no_colon no_bracket

-- For a request whose host has no port, the host that a TLS certificate is checked against is this
-- host, without a proxy and with any proxy that is chosen without an error.
pub tls_host-connect_method_for_request :
    (proxy : Option (Request → Option Url × Option Err)) (req : Request) (cm : ConnectMethod)
    (err : Option Err)
    → host_has_port req.url.host ≡ false
    → connect_method_for_request proxy req ≡ (some cm, err)
    → tls_host cm ≡ req.url.host
unfolding connect_method_for_request tls_host
tls_host-connect_method_for_request proxy req cm err h e =
    ground (arith, without_port-canonical_addr req.url h)

-- RegisterProtocol refuses http and https with a panic. It takes any other scheme once: then the
-- scheme has its round tripper, the other schemes have theirs, and a second registration of the
-- scheme panics and changes nothing.
pub register_protocol-twice :
    (scheme : Text) (rt rt' : ℕ) (protocols : Option (Map ℕ)) (m : Map ℕ)
    → register_protocol scheme rt protocols ≡ (ok tt, some m)
    → (lookup scheme m ≡ some rt)
      × (text_eq scheme (codes "http") ≡ false)
      × (text_eq scheme (codes "https") ≡ false)
      × ((j : Text) → text_eq scheme j ≡ false → lookup j m ≡ lookup j (made_protocols protocols))
      × (register_protocol scheme rt' (some m) ≡ (
        panics (message (codes "protocol " ++ (scheme ++ codes " already registered"))),
        some m,
      ))
unfolding register_protocol
register_protocol-twice scheme rt rt' protocols m e = (
  ground (arith, lookup-store scheme scheme rt (made_protocols protocols), text_eq_refl scheme),
  ground arith,
  ground arith,
  λ j other. ground (arith, lookup-store scheme j rt (made_protocols protocols)),
  ground (arith, lookup-store scheme scheme rt (made_protocols protocols), text_eq_refl scheme),
)
