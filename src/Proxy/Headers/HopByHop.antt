-- ===== src/Proxy/Headers/HopByHop.antt =====
-- What removeProxyHeaders takes out of a request, and what it leaves.
use cffi_proxy.Base.{
  ◌≡◌, refl, false, none, List, [], ◌∷◌, Text, codes, text_eq, any, if◌then◌else◌, arith,
}
use cffi_proxy.Http.{Request}
use cffi_proxy.Http.Headers.{HeaderLib, lookup, first_value, values}
use cffi_proxy.Proxy.Headers.{remove_proxy_headers}

abbrev pub hop_by_hop : List Text
hop_by_hop =
    codes "Accept-Encoding"
    ∷ codes "Proxy-Connection"
    ∷ codes "Proxy-Authenticate"
    ∷ codes "Proxy-Authorization"
    ∷ codes "Connection"
    ∷ []

-- The five names are gone, every other entry and field is as it was, but the request URI, which is
-- emptied, and `close`, which is reset exactly if the Connection header said "close".
pub record IsStripped (r r' : Request) : Type 0 where
  pub entries :
      (k : Text)
      → lookup k r'.header ≡ (if any (λ n. text_eq n k) hop_by_hop then none else lookup k r.header)
  pub closing : r'.close ≡ (
      if text_eq (first_value (values r.header (codes "Connection"))) (codes "close")
      then false
      else r.close)
  pub request_uri : r'.request_uri ≡ []
  pub method : r'.method ≡ r.method
  pub url : r'.url ≡ r.url
  pub host : r'.host ≡ r.host
  pub remote_addr : r'.remote_addr ≡ r.remote_addr
  pub body : r'.body ≡ r.body

others_differ :
    (text_eq (codes "Accept-Encoding") (codes "Connection") ≡ false)
    × (text_eq (codes "Proxy-Connection") (codes "Connection") ≡ false)
    × (text_eq (codes "Proxy-Authenticate") (codes "Connection") ≡ false)
    × (text_eq (codes "Proxy-Authorization") (codes "Connection") ≡ false)
unfolding codes text_eq
others_differ = (refl, refl, refl, refl)

module _ (lib : HeaderLib) where
  lookup-remove_proxy_headers :
      (r : Request) (k : Text)
      → lookup k (remove_proxy_headers lib r).header
        ≡ (if any (λ n. text_eq n k) hop_by_hop then none else lookup k r.header)
  unfolding remove_proxy_headers
  lookup-remove_proxy_headers r k =
      simp
        (
          lib.lookup-del, lib.standard.0, lib.standard.1.0, lib.standard.1.1.0,
          lib.standard.1.1.1.0, lib.standard.1.1.1.1.0,
        )
        (ground arith)

  connection-remove_proxy_headers :
      (r : Request)
      → (remove_proxy_headers lib r).close ≡ (
          if text_eq (first_value (values r.header (codes "Connection"))) (codes "close")
          then false
          else r.close)
  unfolding remove_proxy_headers
  connection-remove_proxy_headers r = simp (
    lib.get_lem, lib.lookup-del, lib.standard.0, lib.standard.1.0, lib.standard.1.1.0,
    lib.standard.1.1.1.0, lib.standard.1.1.1.1.0, others_differ.0, others_differ.1, others_differ.2,
    others_differ.3,
  )

  -- removeProxyHeaders deletes the entries Accept-Encoding, Proxy-Connection, Proxy-Authenticate,
  -- Proxy-Authorization and Connection of any request's header, and changes no other entry. It empties
  -- the request URI, resets `close` exactly if the first value of Connection was "close", and leaves
  -- all other fields as they are.
  pub remove_proxy_headers-IsStripped : (r : Request) → IsStripped r (remove_proxy_headers lib r)
  unfolding remove_proxy_headers
  remove_proxy_headers-IsStripped r = record {
    entries = lookup-remove_proxy_headers r;
    closing = connection-remove_proxy_headers r;
    request_uri = refl;
    method = refl;
    url = refl;
    host = refl;
    remote_addr = refl;
    body = refl;
  }
