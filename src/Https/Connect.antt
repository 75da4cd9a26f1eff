-- ===== src/Https/Connect.antt =====
-- goproxy/https.go, handleHttps: the answer to a CONNECT. The goroutine that serves an intercepted
-- client is run to its end here, while the Go handler returns at once.
pub mod Decision
use cffi_proxy.Base.{
  ℕ, zero, suc, Bool, true, false, not, ◌&&◌, Option, none, some, List, [], ◌∷◌, ◌++◌, Text, codes,
  if◌then◌else◌,
}
use cffi_proxy.Action.{
  Action, ok, pure, panic, modify, gets, defers, ◌>>=◌, ◌>>◌, nil_dereference, message,
}
use cffi_proxy.Http.{ReqRef, RespRef, ConnRef, Err}
use cffi_proxy.Http.Headers.{HeaderLib}
use cffi_proxy.Http.World.{World, emit, close_body, conn_closed, tunnelled, half_tunnelled}
use cffi_proxy.Dispatcher.{
  ProxyHttpServer, HttpsHandler, ConnectAction, connect_accept, connect_reject, connect_mitm,
  connect_hijack, connect_http_mitm, connect_proxy_auth_hijack,
}
use cffi_proxy.Websocket.Serve.{write_back}
use cffi_proxy.Proxy.Filters.{filter_request, filter_response}
use cffi_proxy.Proxy.Network.{Network}
use cffi_proxy.Proxy.Serve.{begin_request}
use cffi_proxy.Https.Address.{with_port}
use cffi_proxy.Https.Tunnels.{Tunnels, write_string, http_error}
use cffi_proxy.Https.Mitm.{mitm_rounds}

-- The CONNECT handlers, until one of them has an action; `todo` and `host` are what holds if none has.
unfoldable pub decide :
    {E : Type 0}
    → List (HttpsHandler E)
    → ConnectAction
    → Text
    → Action (World E) (ConnectAction × Text)
decide [] todo host = pure (todo, host)
decide (h ∷ hs) todo host = do
  out ← h host
  elim out.0 [ some a ↦ pure (a, out.1) | none ↦ decide hs todo host ]

module _ {E : Type 0} (lib : HeaderLib) (net : Network E) (tun : Tunnels E)
    (proxy : ProxyHttpServer E) where
  -- Bytes are copied in both directions until both are at their ends.
  copy_both : ConnRef → ConnRef → World E → World E
  copy_both target client = emit (
      if tun.half_closable target && tun.half_closable client
      then half_tunnelled target client
      else tunnelled target client)

  -- ConnectAccept
  unfoldable pub accept : ConnRef → Text → Action (World E) (Unit {0})
  unfolding copy_both
  accept client host = do
    (target, err) ← net.connect_dial (with_port host)
    elim err [
      | some e ↦ http_error net tun client e
      | none ↦ do
        _ ← write_string net tun client (codes "HTTP/1.0 200 Connection established\r\n\r\n")
        elim target [ none ↦ panic nil_dereference | some t ↦ modify (copy_both t client) ]
    ]

  -- What the plain HTTP interception sends for a request that no handler has answered: the
  -- response, or the error that ends the loop.
  unfoldable ask_target : ConnRef → Option ReqRef → Action (World E) (Option RespRef × Option Err)
  ask_target target none = panic nil_dereference
  ask_target target (some r) = do
    err ← net.write_request r target
    elim err [ some e ↦ pure (none, some e) | none ↦ net.read_response target r ]

  -- The end of a round: the response goes through the handlers and to the client.
  unfoldable give_client :
      ConnRef → Action (World E) (Unit {0}) → Option RespRef → Action (World E) (Unit {0})
  give_client client next resp = do
    final ← filter_response proxy.resp_handlers resp
    err ← write_back net final client
    elim err [ some e ↦ http_error net tun client e | none ↦ next ]

  -- The middle of a round. The body of a response that was read is closed when the loop is left.
  unfoldable after_filter :
      ConnRef
      → ConnRef
      → Action (World E) (Unit {0})
      → Option ReqRef × Option RespRef
      → Action (World E) (Unit {0})
  unfolding ask_target give_client
  after_filter client target next (r, some p) = give_client client next (some p)
  after_filter client target next (r, none) = do
    (resp, err) ← ask_target target r
    elim err [
      | some e ↦ http_error net tun client e
      | none ↦ elim resp [
        | none ↦ panic nil_dereference
        | some p ↦ λ w. elim (w.responses p).body [
          | none ↦ panic nil_dereference w
          | some b ↦ defers (close_body b) (give_client client next (some p)) w
        ]
      ]
    ]

  -- ConnectHTTPMitm: the first `n` rounds of its loop.
  unfoldable pub http_mitm_rounds : ℕ → ConnRef → ConnRef → Action (World E) (Unit {0})
  unfolding after_filter
  http_mitm_rounds zero client target = pure tt
  http_mitm_rounds (suc n) client target = do
    (req, err) ← tun.read_request client
    elim err [
      | some e ↦ pure tt
      | none ↦ elim req [
        | none ↦ panic nil_dereference
        | some r ↦ do
          out ← filter_request proxy.req_handlers r
          after_filter client target (http_mitm_rounds n client target) out
      ]
    ]

  unfoldable pub http_mitm : ℕ → ConnRef → Text → Action (World E) (Unit {0})
  unfolding http_mitm_rounds
  http_mitm n client host = do
    _ ← write_string net tun client (codes "HTTP/1.0 200 OK\r\n\r\n")
    (target, err) ← net.connect_dial host
    elim err [
      | some e ↦ pure tt
      | none ↦ elim target [ none ↦ panic nil_dereference | some t ↦ http_mitm_rounds n client t ]
    ]

  serve_tls : ℕ → ReqRef → ConnRef → Text → ℕ → Action (World E) (Unit {0})
  serve_tls n r client host config = do
    raw ← tun.tls_server client config
    defers (emit (conn_closed raw)) (do
      err ← tun.tls_handshake raw
      elim err [ some e ↦ pure tt | none ↦ mitm_rounds lib net tun proxy host r config raw n ])

  -- ConnectMitm
  unfoldable pub mitm : ℕ → ReqRef → ConnRef → Text → Option ℕ → Action (World E) (Unit {0})
  unfolding serve_tls
  mitm n r client host tls_config = do
    _ ← write_string net tun client (codes "HTTP/1.0 200 OK\r\n\r\n")
    elim tls_config [
      | none ↦ serve_tls n r client host tun.default_tls_config
      | some f ↦ do
        (config, err) ← tun.make_tls_config f host
        elim err [ some e ↦ http_error net tun client e | none ↦ serve_tls n r client host config ]
    ]

  run_hijack : ConnectAction → ReqRef → ConnRef → Action (World E) (Unit {0})
  run_hijack todo r client = elim todo.hijack [
    | none ↦ panic nil_dereference
    | some f ↦ tun.call_hijack f r client
  ]

  -- ConnectReject: the response of the context, if a handler has put one there.
  unfoldable pub reject : ConnRef → Action (World E) (Unit {0})
  reject client = do
    resp ← gets (λ w. w.ctx.resp)
    elim resp [ none ↦ pure tt | some p ↦ do _ ← net.write_response p client; pure tt ]
    modify (emit (conn_closed client))

  -- The switch over the action.
  unfoldable pub act : ℕ → ReqRef → ConnRef → ConnectAction → Text → Action (World E) (Unit {0})
  unfolding accept http_mitm mitm reject run_hijack
  act n r client todo host = elim todo.action [
    | connect_accept ↦ accept client host
    | connect_hijack ↦ run_hijack todo r client
    | connect_http_mitm ↦ http_mitm n client host
    | connect_mitm ↦ mitm n r client host todo.tls_config
    | connect_proxy_auth_hijack ↦ do
      _ ← write_string net tun client (codes "HTTP/1.1 407 Proxy Authentication Required\r\n")
      run_hijack todo r client
    | connect_reject ↦ reject client
  ]

  -- handleHttps; `ok_connect` is goproxy.OkConnect.
  unfoldable pub handle_https : ℕ → ConnectAction → ReqRef → Action (World E) (Unit {0})
  unfolding decide act
  handle_https n ok_connect r = do
    modify (begin_request r)
    if not net.can_hijack
        then panic (message (codes "httpserver does not support hijacking"))
        else do
          (client, err) ← net.hijack
          elim err [
            | some e ↦ panic (message (codes "Cannot hijack connection " ++ e))
            | none ↦ λ w.
                (do
                  (todo, host) ← decide proxy.https_handlers ok_connect (w.requests r).url.host
                  act n r client todo host)
                  w
          ]
