-- ===== src/Server.antt =====
-- goproxy/proxy.go, ServeHTTP: the choice between a CONNECT and any other request.
use cffi_proxy.Base.{ℕ, codes, text_eq, if◌then◌else◌}
use cffi_proxy.Action.{Action, gets, ◌>>=◌}
use cffi_proxy.Http.{ReqRef}
use cffi_proxy.Http.Headers.{HeaderLib}
use cffi_proxy.Http.World.{World}
use cffi_proxy.Dispatcher.{ProxyHttpServer, ConnectAction}
use cffi_proxy.Proxy.Network.{Network}
use cffi_proxy.Proxy.Serve.{serve_http}
use cffi_proxy.Https.Tunnels.{Tunnels}
use cffi_proxy.Https.Connect.{handle_https}

module _ {E : Type 0} (lib : HeaderLib) (net : Network E) (tun : Tunnels E)
    (proxy : ProxyHttpServer E) where
  -- ServeHTTP, for `n` rounds of a loop over an intercepted client.
  unfoldable pub serve_any : ℕ → ConnectAction → ReqRef → Action (World E) (Unit {0})
  serve_any n ok_connect r = do
    connect ← gets (λ w. text_eq (w.requests r).method (codes "CONNECT"))
    if connect then handle_https lib net tun proxy n ok_connect r else serve_http lib net proxy r
