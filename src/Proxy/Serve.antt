-- ===== src/Proxy/Serve.antt =====
-- goproxy/proxy.go, ServeHTTP for every method but CONNECT. What ctx.Logf and ctx.Warnf print is
-- not modelled.
pub mod Outcomes
pub mod Transparent
use cffi_proxy.Base.{
  ℕ, ◌+◌, ◌%◌, ◌^◌, Bool, true, false, Option, none, some, [], ◌++◌, codes, text_eq, ◌==◌, leb,
  ◌&&◌, if◌then◌else◌,
}
use cffi_proxy.Action.{
  Action, pure, panic, gets, modify, defers, ◌>>=◌, ◌>>◌, nil_dereference, message,
}
use cffi_proxy.Http.{ReqRef, RespRef, BodyRef, Err}
use cffi_proxy.Http.Headers.{HeaderLib, header_of, drop_header}
use cffi_proxy.Http.World.{
  World, client_error, client_head, client_copy, emit, put_request, put_response, close_body,
  drain_body,
}
use cffi_proxy.Dispatcher.{ProxyHttpServer}
use cffi_proxy.Websocket.Upgrade.{is_web_socket_request}
use cffi_proxy.Websocket.Serve.{serve_websocket}
use cffi_proxy.Proxy.Headers.{copy_headers, remove_proxy_headers}
use cffi_proxy.Proxy.Filters.{filter_request, filter_response}
use cffi_proxy.Proxy.Network.{Network, ctx_round_trip}

-- atomic.AddInt64(&proxy.sess, 1), as a bit pattern of 64 bits.
unfoldable pub next_session : ℕ → ℕ
next_session s = (s + 1) % 2 ^ 64

-- The new ProxyCtx of a request, under the next session number.
unfoldable pub begin_request : {E : Type 0} → ReqRef → World E → World E
unfolding next_session
begin_request r w = record w {
  sess = next_session w.sess;
  ctx = record {
    req = r;
    resp = none;
    round_tripper = none;
    error = none;
    session = next_session w.sess;
  };
}

-- The codes with which the server's WriteHeader does not panic.
unfoldable pub valid_status : ℕ → Bool
valid_status n = leb 100 n && leb n 999

-- `origBody != resp.Body`, a comparison of identities.
unfoldable pub same_body : Option BodyRef → Option BodyRef → Bool
same_body none none = true
same_body none (some b) = false
same_body (some a) none = false
same_body (some a) (some b) = a == b

module _ {E : Type 0} (lib : HeaderLib) (proxy : ProxyHttpServer E) where
  -- `resp, err = ctx.RoundTrip(r)` and what follows: an error is put into the context, and the
  -- response handlers are run on a nil response.
  unfoldable pub after_round_trip : Option RespRef × Option Err → Action (World E) (Option RespRef)
  after_round_trip (resp, none) = pure resp
  after_round_trip (resp, some e) = do
    modify (λ w. record w { ctx = record (w.ctx) { error = some e } })
    filter_response proxy.resp_handlers none

  -- Copies the final response to the client; `orig` is the body of the response before filtering.
  unfoldable pub write_client : Option BodyRef → RespRef → Action (World E) (Unit {0})
  unfolding same_body valid_status
  write_client orig p = do
    modify (λ w.
        let resp = w.responses p in
        if same_body orig resp.body
        then w
        else put_response p
            (record resp { header = drop_header lib resp.header (codes "Content-Length") }) w)
    modify (λ w. record w {
      client_header =
          copy_headers lib w.client_header (header_of (w.responses p).header)
            proxy.keep_destination_headers;
    })
    code ← gets (λ w. (w.responses p).status_code)
    if valid_status code
        then modify (λ w. emit (client_head code w.client_header) w)
        else panic (message (codes "invalid WriteHeader code"))
    body ← gets (λ w. (w.responses p).body)
    elim body [
      | none ↦ panic nil_dereference
      | some b ↦ modify (λ w.
          let flush =
            text_eq (lib.get w.client_header (codes "content-type")) (codes "text/event-stream") in
          close_body b (drain_body b (emit (client_copy flush (w.bodies b).content) w)))
    ]

  -- What the client gets if there is no response at the end. The host of `r` is read in any case.
  unfoldable pub write_failure : Option ReqRef → Action (World E) (Unit {0})
  write_failure none = panic nil_dereference
  write_failure (some r) = modify λ w. elim w.ctx.error [
    | some e ↦ emit (client_error 500 e) w
    | none ↦ emit (client_error 500 (codes "error read response " ++ (w.requests r).url.host)) w
  ]

  -- From the filtering of the response on.
  unfoldable pub finish :
      Option ReqRef → Option BodyRef → Option RespRef → Action (World E) (Unit {0})
  unfolding write_failure write_client
  finish r orig resp = do
    final ← filter_response proxy.resp_handlers resp
    elim final [ none ↦ write_failure r | some p ↦ write_client orig p ]

  -- `origBody = resp.Body; defer origBody.Close()`, which panics at once if the body is nil.
  unfoldable pub respond : Option ReqRef → Option RespRef → Action (World E) (Unit {0})
  unfolding finish
  respond r none w = finish r none none w
  respond r (some p) w = elim (w.responses p).body [
    | none ↦ panic nil_dereference w
    | some b ↦ defers (close_body b) (finish r (some b) (some p)) w
  ]

module _ {E : Type 0} (lib : HeaderLib) (net : Network E) (proxy : ProxyHttpServer E) where
  -- The branch of ServeHTTP for a request that no handler has answered; `r` is not nil. When a
  -- websocket has been served the code goes on.
  unfoldable pub send_request : ReqRef → Action (World E) (Option RespRef)
  unfolding after_round_trip
  send_request r = do
    upgrade ← gets (λ w. is_web_socket_request (w.requests r))
    if upgrade then serve_websocket net proxy.resp_handlers r else pure tt
    modify (λ w.
        if proxy.keep_header then w else put_request r (remove_proxy_headers lib (w.requests r)) w)
    out ← ctx_round_trip net r
    after_round_trip lib proxy out

  unfoldable pub get_response : Option ReqRef → Option RespRef → Action (World E) (Option RespRef)
  unfolding send_request
  get_response r (some resp) = pure (some resp)
  get_response none none = panic nil_dereference
  get_response (some r) none = send_request r

  -- ServeHTTP, for a request whose method is not CONNECT. `!r.URL.IsAbs()` is an empty scheme.
  unfoldable pub serve_http : ReqRef → Action (World E) (Unit {0})
  unfolding get_response respond begin_request
  serve_http r = do
    modify (begin_request r)
    relative ← gets (λ w. text_eq (w.requests r).url.scheme [])
    if relative then net.nonproxy_handler r else do
      (r', answer) ← filter_request proxy.req_handlers r
      resp ← get_response r' answer
      respond lib proxy r' resp
