-- ===== src/Program/Private.antt =====
-- main.go with goproxy/proxy.go and goproxy/https.go: whom the program speaks to.
use cffi_proxy.Base.{Bool-cases, inl, inr, text_eq, ℕ, ◌≡◌, refl, sym, ◌∙◌, codes}
use cffi_proxy.Http.{ReqRef}
use cffi_proxy.Http.Headers.{HeaderLib}
use cffi_proxy.Http.World.{World}
use cffi_proxy.Dispatcher.{
  ConnectAction, mitm_connect, guarded_connect, always, all_req, handle_connect, do_request,
  do_response,
}
use cffi_proxy.Proxy.Network.{Network}
use cffi_proxy.Proxy.Serve.{begin_request}
use cffi_proxy.Server.{serve_any}
use cffi_proxy.Https.Tunnels.{Tunnels, write_string, http_error}
use cffi_proxy.Https.Mitm.{mitm_rounds}
use cffi_proxy.Https.Connect.{decide, act, mitm, handle_https}
use cffi_proxy.Program.Connecting.{connect_with, connect_program}
use cffi_proxy.Program.Answered.{program-Answers}
use cffi_proxy.Program.Rewired.{Outward, rewired, rewired_tunnels, serve_from, rounds_rewired}
use cffi_proxy.Program.{TlsClient, new_proxy_http_server, program}

module _ {E : Type 0} (lib : HeaderLib) (tls : TlsClient E) (ca : ℕ) (out : Outward E)
    (net : Network E) (tun : Tunnels E) (n : ℕ) (r : ReqRef) where
  connect_rewired :
      (default : ConnectAction)
      → handle_https lib
          (rewired out net)
          (rewired_tunnels out tun)
          (program lib tls (mitm_connect ca))
          n
          default
          r
        ≡ connect_with ca net tun r (λ host config raw.
          mitm_rounds lib
            (rewired out net)
            (rewired_tunnels out tun)
            (program lib tls (mitm_connect ca))
            host
            r
            config
            raw
            n)
  unfolding handle_https act mitm decide program handle_connect do_request do_response
      guarded_connect always new_proxy_http_server all_req mitm_connect http_error write_string
  connect_rewired default = refl

-- The program reaches other hosts by its TLS client alone: whatever the ways are in which the proxy
-- itself sends requests, dials, or speaks to a server, ServeHTTP comes to the same result, in the same
-- world, with these ways as with any others; for a CONNECT too, with any number of requests inside it.
pub program-private :
    {E : Type 0} (lib : HeaderLib) (tls : TlsClient E) (ca : ℕ) (out : Outward E) (net : Network E)
    (tun : Tunnels E) (n : ℕ) (default : ConnectAction) (r : ReqRef) (w : World E)
    → let proxy = program lib tls (mitm_connect ca) in
      serve_any lib (rewired out net) (rewired_tunnels out tun) proxy n default r w
      ≡ serve_any lib net tun proxy n default r w
unfolding serve_any
program-private lib tls ca out net tun n default r w =
    let todo = mitm_connect ca in
    let (o, v, e) = program-Answers lib tls todo r (begin_request r w) in
    elim (Bool-cases (text_eq (w.requests r).method (codes "CONNECT"))) [
      | inl connect ↦ rw connect (λ i.
          (connect_rewired lib tls ca out net tun n r default
              ∙ (λ j. connect_with ca net tun r (λ host config raw.
                  rounds_rewired lib tls todo out net tun host r config raw n j))
              ∙ sym (connect_program lib tls ca net tun n r default))
            i w)
      | inr other ↦ rw other (serve_from lib tls todo out net tun r w o v e)
    ]
