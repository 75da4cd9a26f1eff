-- ===== src/Program.antt =====
-- main.go: the handlers of the program and their registration; goproxy/mitm/transport.go: the sending
-- of a request by a TLS client. The flags, the listener and the shutdown are not modelled.
pub mod Relaying
pub mod Intercepting
pub mod Serving
pub mod Answered
pub mod Rewired
pub mod Connecting
pub mod Private
use cffi_proxy.Base.{
  ℕ, ◌<◌, Bool, false, Option, none, some, List, [], ◌∷◌, ◌++◌, Text, codes, length, get_elem?, map,
  ◌≡◌,
}
use cffi_proxy.Action.{
  Action, ok, pure, panic, modify, gets, ◌>>=◌, ◌>>◌, nil_dereference, nil_map_write, slice_bounds,
}
use cffi_proxy.Http.{ReqRef, RespRef, Err, Response}
use cffi_proxy.Http.Headers.{HeaderLib, lookup}
use cffi_proxy.Http.World.{World, put_request, put_response, alloc_response, drain_body, new_body}
use cffi_proxy.Dispatcher.{
  ProxyHttpServer, ReqHandler, RespHandler, HttpsHandler, ConnectAction, always, do_request,
  do_response, handle_connect,
}

-- The packages tls-client and rand, as the code calls them: a profile is its identity. `mapped` is
-- profiles.MappedTLSClients, its entries in the order in which `range` visits them.
pub record TlsClient (E : Type 0) : Type 0 where
  pub mapped : List (Text × ℕ)
  -- rand.Intn(n) gives a number below n, or panics if n is not positive
  pub intn : ℕ → Action (World E) ℕ
  -- NewHttpClient with the options of the code and a profile
  pub new_http_client : Option ℕ → Action (World E) (ℕ × Option Err)
  -- Do, by the client of that identity
  pub send : ℕ → ReqRef → Action (World E) (Option RespRef × Option Err)

-- &http.Response{}
abbrev pub blank_response : Response
blank_response = record { status = []; status_code = 0; header = none; body = none; request = none }

module _ {E : Type 0} (tls : TlsClient E) where
  -- getRandomProfileString; `none` is a zero profile.
  unfoldable pub random_profile : Action (World E) (Option ℕ)
  random_profile = do
    let keys = map (λ (entry : Text × ℕ). entry.0) tls.mapped
    i ← tls.intn (length keys)
    elim (get_elem? keys i) [ none ↦ panic slice_bounds | some key ↦ pure (lookup key tls.mapped) ]

  -- createHttpClient
  unfoldable pub create_http_client : Action (World E) (ℕ × Option Err)
  unfolding random_profile
  create_http_client = do profile ← random_profile; tls.new_http_client profile

  answer_blank : Option Err → Action (World E) (RespRef × Option Err)
  answer_blank err = do p ← alloc_response blank_response; pure (p, err)

  -- CffiRequestTransport.HandleRequest
  unfoldable pub transport_handle_request : ReqRef → Action (World E) (RespRef × Option Err)
  unfolding create_http_client answer_blank
  transport_handle_request r = do
    modify (λ w. put_request r (record (w.requests r) { request_uri = [] }) w)
    made ← create_http_client
    elim made.1 [
      | some e ↦ answer_blank (some e)
      | none ↦ do
        out ← tls.send made.0 r
        elim out.1 [
          | some e ↦ answer_blank (some e)
          | none ↦ elim out.0 [ none ↦ answer_blank none | some p ↦ pure (p, none) ]
        ]
    ]

  -- MitmRequestHandler.handleRequest
  unfoldable pub handle_request : ReqHandler E
  unfolding transport_handle_request
  handle_request r = do
    out ← transport_handle_request r
    elim out.1 [
      | none ↦ pure (none, some (out.0))
      | some e ↦ do
        b ← new_body (codes "Proxy error: " ++ e)
        p ← alloc_response (record {
          status = [];
          status_code = 502;
          header = none;
          body = some b;
          request = some r;
        })
        pure (some r, some p)
    ]

-- What handleResponse does to the body: what could be read of it becomes the new body.
unfoldable pub copy_whole_body : {E : Type 0} → RespRef → Action (World E) (Unit {0})
copy_whole_body p w = elim (w.responses p).body [
  | none ↦ (ok tt, w)
  | some b ↦
      (do
        modify (drain_body b)
        new ← new_body (w.bodies b).content
        modify (λ v. put_response p (record (v.responses p) { body = some new }) v))
        w
]

-- The response with the header that handleResponse sets.
set_handler_header : HeaderLib → Response → Option Response
set_handler_header lib resp = elim resp.header [
  | none ↦ none
  | some h ↦ some (record resp {
    header = some (lib.set h (codes "X-Proxy-Handler") (codes "MitmRequestHandler"));
  })
]

-- NewProxyHttpServer: no handlers, all settings off.
unfoldable pub new_proxy_http_server : {E : Type 0} → ProxyHttpServer E
new_proxy_http_server = record {
  keep_destination_headers = false;
  keep_header = false;
  allow_http2 = false;
  req_handlers = [];
  resp_handlers = [];
  https_handlers = [];
}

module _ {E : Type 0} (lib : HeaderLib) where
  -- MitmRequestHandler.handleResponse; the URL of the response's request is read for the log.
  unfoldable pub handle_response : RespHandler E
  unfolding copy_whole_body set_handler_header
  handle_response none = panic nil_dereference
  handle_response (some p) = do
    resp ← gets (λ w. w.responses p)
    elim resp.request [
      | none ↦ panic nil_dereference
      | some r ↦ elim (set_handler_header lib resp) [
        | none ↦ panic nil_map_write
        | some resp' ↦ do modify (put_response p resp'); copy_whole_body p; pure (some p)
      ]
    ]

  -- main, up to the server: the handlers that it registers. `mitm` is MitmConnect, which AlwaysMitm
  -- returns.
  unfoldable pub program : TlsClient E → ConnectAction → ProxyHttpServer E
  unfolding new_proxy_http_server handle_request handle_response
  program tls mitm =
      do_response [] handle_response
        (do_request [] (handle_request tls) (handle_connect [] (always mitm) new_proxy_http_server))
