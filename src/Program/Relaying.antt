-- ===== src/Program/Relaying.antt =====
-- main.go, goproxy/mitm/transport.go: what a client of the program gets.
use cffi_proxy.Base.{
  ◌<◌, ◌≡◌, refl, true, false, none, some, [], ◌∷◌, ◌++◌, Text, codes, text_eq, ◌==◌, arith,
}
use cffi_proxy.Action.{ok, panics, nil_map_write}
use cffi_proxy.Http.{ReqRef, RespRef, BodyRef, Err}
use cffi_proxy.Http.Headers.{Header, HeaderLib}
use cffi_proxy.Http.World.{
  World, client_head, client_copy, update_self, put_response, drain_body, new_body, alloc_response,
}
use cffi_proxy.Dispatcher.{
  ConnectAction, guarded_req, guarded_resp, all_req, always, guarded_connect, handle_connect,
  do_request, do_response,
}
use cffi_proxy.Proxy.Headers.{copy_headers}
use cffi_proxy.Proxy.Filters.{filter_request, filter_response}
use cffi_proxy.Proxy.Network.{Network}
use cffi_proxy.Proxy.Serve.{begin_request, get_response, respond, finish, serve_http, valid_status}
use cffi_proxy.Proxy.Serve.Outcomes.{respond-delivers}
use cffi_proxy.Https.Connect.{decide}
use cffi_proxy.Program.{
  TlsClient, transport_handle_request, handle_request, handle_response, program,
  new_proxy_http_server,
}

module _ {E : Type 0} (lib : HeaderLib) (tls : TlsClient E) (mitm : ConnectAction) where
  -- The header of the program added.
  abbrev pub named : Header → Header
  named h = lib.set h (codes "X-Proxy-Handler") (codes "MitmRequestHandler")

  -- What the program's response handler leaves.
  abbrev pub relayed : RespRef → BodyRef → Header → World E → World E
  relayed p b h w =
      let w₀ = record w { ctx = record (w.ctx) { resp = some p } } in
      let w₁ = put_response p (record (w.responses p) { header = some (named h) }) w₀ in
      let w₂ = (new_body (w.bodies b).content (drain_body b w₁)).1 in
      put_response p (record (w₂.responses p) { body = some w.next_body }) w₂

  pub program-filter_response :
      (p q : RespRef) (b : BodyRef) (h : Header) (w : World E)
      → (w.responses p).request ≡ some q
      → (w.responses p).header ≡ some h
      → (w.responses p).body ≡ some b
      → filter_response (program lib tls mitm).resp_handlers (some p) w
        ≡ (ok (some p), relayed p b h w)
  unfolding program handle_connect do_request do_response filter_response guarded_resp
      handle_response
  program-filter_response p q b h w req hdr body =
      ground (arith, req, hdr, body, update_self w.responses p)

  pub program-filter_request :
      (r : ReqRef) (p : RespRef) (w w₁ : World E)
      → transport_handle_request tls r w ≡ (ok (p, none), w₁)
      → filter_request (program lib tls mitm).req_handlers r w ≡ (ok (none, some p), w₁)
  unfolding program handle_connect do_request do_response filter_request guarded_req
  program-filter_request r p w w₁ e = rw (e, handle_request) refl

  -- What the client gets of a response with a header `h`.
  abbrev sent : Header → World E → Header
  sent h w = copy_headers lib w.client_header (lib.del (named h) (codes "Content-Length")) false

  pub relayed_response :
      (p : RespRef) (b : BodyRef) (h : Header) (w : World E)
      → (relayed p b h w).responses p
        ≡ record (w.responses p) { header = some (named h); body = some w.next_body }
  relayed_response p b h w = ground arith

  program-respond :
      (p q : RespRef) (b : BodyRef) (h : Header) (w : World E)
      → (w.responses p).request ≡ some q
      → (w.responses p).header ≡ some h
      → (w.responses p).body ≡ some b
      → b < w.next_body
      → valid_status (w.responses p).status_code ≡ true
      → let flush =
          text_eq (lib.get (sent h w) (codes "content-type")) (codes "text/event-stream") in
        let out = respond lib (program lib tls mitm) none (some p) w in
        (out.0 ≡ ok tt)
        × (out.1.events
            ≡ client_copy flush (w.bodies b).content
              ∷ client_head (w.responses p).status_code (sent h w)
              ∷ w.events)
        × ((out.1.bodies b).is_closed ≡ true)
  unfolding program handle_connect do_request do_response new_proxy_http_server
  program-respond p q b h w req hdr body fresh valid =
      let other : (b == w.next_body) ≡ false = ground arith in
      let d =
        respond-delivers lib (program lib tls mitm) none p p b w.next_body w (relayed p b h w) body
          (program-filter_response p q b h w req hdr body) (rw (relayed_response p b h w))
          (rw (relayed_response p b h w) valid) in
      (
        d.0,
        ground
            (arith, other, d.1, relayed_response p b h w, update_self (relayed p b h w).bodies b),
        d.2,
      )

  -- If the request is for a proxy, and the TLS client gets a response with a request, a header and a
  -- body, which is one of those made so far, and with a status from 100 to 999, the program's client is sent one head and one body: the
  -- response's status; its header, with X-Proxy-Handler set and without Content-Length, in place of
  -- what the writer's header held; and what can be read of its body. This holds for every method,
  -- HEAD too. The body is closed at the end, and the proxy's own transport is not asked, whatever it
  -- is.
  pub program-relays :
      (net : Network E) (r p q : RespRef) (b : BodyRef) (h : Header) (w w₁ : World E)
      → text_eq (w.requests r).url.scheme [] ≡ false
      → transport_handle_request tls r (begin_request r w) ≡ (ok (p, none), w₁)
      → (w₁.responses p).request ≡ some q
      → (w₁.responses p).header ≡ some h
      → (w₁.responses p).body ≡ some b
      → b < w₁.next_body
      → valid_status (w₁.responses p).status_code ≡ true
      → let flush =
          text_eq (lib.get (sent h w₁) (codes "content-type")) (codes "text/event-stream") in
        let out = serve_http lib net (program lib tls mitm) r w in
        (out.0 ≡ ok tt)
        × (out.1.events
            ≡ client_copy flush (w₁.bodies b).content
              ∷ client_head (w₁.responses p).status_code (sent h w₁)
              ∷ w₁.events)
        × ((out.1.bodies b).is_closed ≡ true)
  unfolding serve_http get_response
  program-relays net r p q b h w w₁ absolute sends req hdr body fresh valid =
      rw (absolute, program-filter_request r p (begin_request r w) w₁ sends)
        (program-respond p q b h w₁ req hdr body fresh valid)

  -- The world after the answer to an error of the transport.
  abbrev pub refused : ReqRef → Err → World E → World E
  refused r e w =
      let w₁ = (new_body (codes "Proxy error: " ++ e) w).1 in
      (alloc_response
        (record {
          status = [];
          status_code = 502;
          header = none;
          body = some w.next_body;
          request = some r;
        })
        w₁).1

  pub program-refuses :
      (r : ReqRef) (p : RespRef) (e : Err) (w w₁ : World E)
      → transport_handle_request tls r w ≡ (ok (p, some e), w₁)
      → filter_request (program lib tls mitm).req_handlers r w
        ≡ (ok (some r, some w₁.next_response), refused r e w₁)
  unfolding program handle_connect do_request do_response filter_request guarded_req
  program-refuses r p e w w₁ h = rw (h, handle_request) refl

  respond-refused :
      (r : ReqRef) (e : Err) (w : World E)
      → let out =
          respond lib (program lib tls mitm) (some r) (some w.next_response) (refused r e w) in
        (out.0 ≡ panics nil_map_write) × (out.1.events ≡ w.events)
  unfolding respond finish program handle_connect do_request do_response filter_response
      guarded_resp handle_response
  respond-refused r e w = (ground arith, ground arith)

  -- If the TLS client fails with an error, the answer 502 that the program makes has no header map,
  -- so its own response handler panics, and the client is sent nothing.
  pub program-panics :
      (net : Network E) (r : ReqRef) (p : RespRef) (e : Err) (w w₁ : World E)
      → text_eq (w.requests r).url.scheme [] ≡ false
      → transport_handle_request tls r (begin_request r w) ≡ (ok (p, some e), w₁)
      → let out = serve_http lib net (program lib tls mitm) r w in
        (out.0 ≡ panics nil_map_write) × (out.1.events ≡ w₁.events)
  unfolding serve_http get_response
  program-panics net r p e w w₁ absolute fails =
      rw (absolute, program-refuses r p e (begin_request r w) w₁ fails) (respond-refused r e w₁)

  -- Every CONNECT gets the program's one action, to intercept, whatever the default is.
  pub program-decide :
      (todo : ConnectAction) (host : Text) (w : World E)
      → decide (program lib tls mitm).https_handlers todo host w ≡ (ok (mitm, host), w)
  unfolding decide program handle_connect do_request do_response guarded_connect always
      new_proxy_http_server all_req
  program-decide todo host w = refl
