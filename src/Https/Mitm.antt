-- ===== src/Https/Mitm.antt =====
-- goproxy/https.go, handleHttps: the requests that come through a TLS connection with a client
-- whose CONNECT is intercepted. UserData, which handlers pass to each other, is part of `env`.
pub mod Closing
use cffi_proxy.Base.{
  ℕ, zero, suc, Option, none, some, Text, codes, text_eq, ◌++◌, has_prefix, if◌then◌else◌,
}
use cffi_proxy.Action.{Action, pure, panic, modify, gets, defers, ◌>>=◌, ◌>>◌, nil_dereference}
use cffi_proxy.Http.{ReqRef, RespRef, ConnRef, Err, Request}
use cffi_proxy.Http.Headers.{HeaderLib}
use cffi_proxy.Http.World.{World, put_request, close_body}
use cffi_proxy.Dispatcher.{ProxyHttpServer}
use cffi_proxy.Websocket.Upgrade.{is_web_socket_request}
use cffi_proxy.Proxy.Headers.{remove_proxy_headers}
use cffi_proxy.Proxy.Filters.{filter_request, filter_response}
use cffi_proxy.Proxy.Network.{Network, ctx_round_trip}
use cffi_proxy.Proxy.Serve.{next_session, begin_request}
use cffi_proxy.Https.Tunnels.{Tunnels, is_eof, serve_websocket_tls, serve_websocket_http_over_tls}
use cffi_proxy.Https.Answer.{write_mitm}

module _ {E : Type 0} (lib : HeaderLib) (net : Network E) (tun : Tunnels E)
    (proxy : ProxyHttpServer E) (host : Text) (outer : ReqRef) (config : ℕ) (client : ConnRef) where
  -- The request as the handlers see it; `outer` is the CONNECT.
  unfoldable pub inner_request : Request → Request → Request
  inner_request connect req =
      let printed = tun.url_string req.url in
      record req {
        remote_addr = connect.remote_addr;
        url =
            if has_prefix printed (codes "https://")
            then req.url
            else tun.parse_url (codes "https://" ++ (connect.host ++ printed));
      }

  -- A request for HTTP/2.
  serve_h2 : ReqRef → Action (World E) (Unit {0})
  serve_h2 r = do
    err ← tun.discard 6 client
    elim err [
      | some e ↦ pure tt
      | none ↦ if proxy.allow_http2 then tun.h2_round_trip r client config host else pure tt
    ]

  serve_upgrade : ReqRef → Action (World E) (Unit {0})
  serve_upgrade r = do
    plain ← gets (λ w. text_eq (w.requests r).url.scheme (codes "http"))
    if plain
        then serve_websocket_http_over_tls net tun proxy.resp_handlers r client
        else serve_websocket_tls net tun proxy.resp_handlers r config client

  -- The round trip, with the request's body closed after it; `none` is a return.
  forward : ReqRef → Action (World E) (Option RespRef)
  forward r = do
    modify (λ w. put_request r (remove_proxy_headers lib (w.requests r)) w)
    body ← gets (λ w. (w.requests r).body)
    elim body [
      | none ↦ panic nil_dereference
      | some b ↦ do
        out ← defers (close_body b) (ctx_round_trip net r)
        elim out.1 [
          | some e ↦ pure none
          | none ↦ elim out.0 [ none ↦ panic nil_dereference | some p ↦ pure (some p) ]
        ]
    ]

  -- A request that no handler has answered; `none` is a return.
  unfoldable pub send_inner : Option ReqRef → Action (World E) (Option RespRef)
  unfolding serve_h2 serve_upgrade forward
  send_inner none = panic nil_dereference
  send_inner (some r) = do
    preface ← gets (λ w. text_eq (w.requests r).method (codes "PRI"))
    upgrade ← gets (λ w. is_web_socket_request (w.requests r))
    if preface
        then (do serve_h2 r; pure none)
        else if upgrade
        then (do serve_upgrade r; pure none)
        else forward r

  -- One request up to its response before the response handlers; `none` is a return.
  unfoldable pub take_request : Option ReqRef × Option Err → Action (World E) (Option RespRef)
  unfolding inner_request send_inner
  take_request (read, some e) = do modify (λ w. record w { sess = next_session w.sess }); pure none
  take_request (none, none) = panic nil_dereference
  take_request (some r, none) = do
    modify (begin_request r)
    modify (λ w. put_request r (inner_request (w.requests outer) (w.requests r)) w)
    (r', answer) ← filter_request proxy.req_handlers r
    elim answer [ some p ↦ pure (some p) | none ↦ send_inner r' ]

  -- One round and what follows it. The body of the response is closed when the loop is left.
  unfoldable pub mitm_round : Action (World E) (Unit {0}) → Action (World E) (Unit {0})
  unfolding take_request
  mitm_round next = do
    read ← tun.read_request client
    got ← take_request read
    elim got [
      | none ↦ pure tt
      | some p ↦ do
        final ← filter_response proxy.resp_handlers (some p)
        elim final [
          | none ↦ panic nil_dereference
          | some p' ↦ do
            body ← gets (λ w. (w.responses p').body)
            elim body [
              | none ↦ panic nil_dereference
              | some b ↦
                  defers (close_body b)
                    (do more ← write_mitm lib net tun client p' b; if more then next else pure tt)
            ]
        ]
    ]

  -- The first `n` rounds of the loop: a client decides how many there are.
  unfoldable pub mitm_rounds : ℕ → Action (World E) (Unit {0})
  unfolding mitm_round
  mitm_rounds zero = pure tt
  mitm_rounds (suc n) = do
    eof ← is_eof tun client
    if eof then pure tt else mitm_round (mitm_rounds n)
