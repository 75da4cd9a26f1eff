-- ===== src/Proxy/Headers.antt =====
-- goproxy/proxy.go, copyHeaders and removeProxyHeaders.
pub mod Copy
pub mod HopByHop
use cffi_proxy.Base.{Bool, false, List, [], ◌∷◌, Text, codes, text_eq, if◌then◌else◌}
use cffi_proxy.Http.{Request}
use cffi_proxy.Http.Headers.{Header, HeaderLib}

-- `for k := range dst { dst.Del(k) }`. A key that an earlier round removed is deleted once more
-- here, which changes nothing.
unfoldable pub clear_headers : HeaderLib → Header → Header → Header
clear_headers lib [] dst = dst
clear_headers lib ((k, vs) ∷ rest) dst = clear_headers lib rest (lib.del dst k)

unfoldable pub add_values : HeaderLib → Text → List Text → Header → Header
add_values lib k [] dst = dst
add_values lib k (v ∷ vs) dst = add_values lib k vs (lib.add dst k v)

unfoldable pub add_headers : HeaderLib → Header → Header → Header
unfolding add_values
add_headers lib [] dst = dst
add_headers lib ((k, vs) ∷ src) dst = add_headers lib src (add_values lib k vs dst)

unfoldable pub copy_headers : HeaderLib → Header → Header → Bool → Header
unfolding clear_headers add_headers
copy_headers lib dst src keep_dest_headers =
    add_headers lib src (if keep_dest_headers then dst else clear_headers lib dst dst)

-- removeProxyHeaders, on the request that its pointer names.
unfoldable pub remove_proxy_headers : HeaderLib → Request → Request
remove_proxy_headers lib r =
    let h = lib.del r.header (codes "Accept-Encoding") in
    let h = lib.del h (codes "Proxy-Connection") in
    let h = lib.del h (codes "Proxy-Authenticate") in
    let h = lib.del h (codes "Proxy-Authorization") in
    record r {
      request_uri = [];
      close = if text_eq (lib.get h (codes "Connection")) (codes "close") then false else r.close;
      header = lib.del h (codes "Connection");
    }
