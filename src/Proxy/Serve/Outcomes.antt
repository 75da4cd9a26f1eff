-- ===== src/Proxy/Serve/Outcomes.antt =====
-- What ServeHTTP does for the client, on its answered, failing and successful paths.
use cffi_proxy.Base.{
  ◌≡◌, refl, Bool, true, false, Option, some, [], ◌∷◌, text_eq, codes, if◌then◌else◌, arith, ◌==◌,
}
use cffi_proxy.Action.{ok}
use cffi_proxy.Http.{ReqRef, RespRef, BodyRef, Response}
use cffi_proxy.Http.Headers.{Header, HeaderLib, header_of, drop_header}
use cffi_proxy.Http.World.{World, client_head, client_copy}
use cffi_proxy.Dispatcher.{ProxyHttpServer}
use cffi_proxy.Proxy.Headers.{copy_headers}
use cffi_proxy.Proxy.Filters.{filter_request, filter_response}
use cffi_proxy.Proxy.Network.{Network}
use cffi_proxy.Proxy.Serve.{
  same_body, valid_status, begin_request, get_response, write_client, finish, respond, serve_http,
}

module _ {E : Type 0} (lib : HeaderLib) (proxy : ProxyHttpServer E) where
  -- A handler's answer is all that is left to be sent.
  pub serve_http_answer :
      (net : Network E) (r : ReqRef) (q : Option ReqRef) (p : RespRef) (w w' : World E)
      → text_eq (w.requests r).url.scheme [] ≡ false
      → filter_request proxy.req_handlers r (begin_request r w) ≡ (ok (q, some p), w')
      → serve_http lib net proxy r w ≡ respond lib proxy q (some p) w'
  unfolding serve_http get_response begin_request
  serve_http_answer net r q p w w' absolute e = rw (absolute, e) refl

  -- If a request handler answers, nothing depends on the network: no round trip is made, no
  -- connection is opened.
  pub serve_http-answered :
      (net net' : Network E) (r : ReqRef) (q : Option ReqRef) (p : RespRef) (w w' : World E)
      → text_eq (w.requests r).url.scheme [] ≡ false
      → filter_request proxy.req_handlers r (begin_request r w) ≡ (ok (q, some p), w')
      → serve_http lib net proxy r w ≡ serve_http lib net' proxy r w
  unfolding serve_http get_response begin_request
  serve_http-answered net net' r q p w w' absolute e = rw (absolute, e)

  -- The header that the client gets with a final response, of which `same` says whether its body
  -- is the one that came in.
  abbrev sent_header : Bool → Response → World E → Header
  sent_header same resp w =
      copy_headers lib w.client_header
        (header_of
          (if same then resp.header else drop_header lib resp.header (codes "Content-Length")))
        proxy.keep_destination_headers

  -- If a response came in and the response handlers end with one whose status is from 100 to 999, the
  -- client is sent exactly one head and then one body: the status of the final response; its header
  -- as copyHeaders puts it into the writer's own, which it replaces unless KeepDestinationHeaders is
  -- set, less Content-Length if a handler changed the body; and the content of its body. The body
  -- that came in and the final one are closed at the end.
  pub respond-delivers :
      (q : Option ReqRef) (p p' : RespRef) (b b' : BodyRef) (w w' : World E)
      → (w.responses p).body ≡ some b
      → filter_response proxy.resp_handlers (some p) w ≡ (ok (some p'), w')
      → (w'.responses p').body ≡ some b'
      → valid_status (w'.responses p').status_code ≡ true
      → let header = sent_header (b == b') (w'.responses p') w' in
        let flush = text_eq (lib.get header (codes "content-type")) (codes "text/event-stream") in
        let out = respond lib proxy q (some p) w in
        (out.0 ≡ ok tt)
        × (out.1.events
            ≡ client_copy flush (w'.bodies b').content
              ∷ client_head (w'.responses p').status_code header
              ∷ w'.events)
        × ((out.1.bodies b).is_closed ≡ true)
        × ((out.1.bodies b').is_closed ≡ true)
  unfolding respond finish write_client same_body
  respond-delivers q p p' b b' w w' h f h' v =
      (ground arith, ground arith, ground arith, ground arith)

  -- If a response with a body comes in, this body is closed whatever the response handlers do, also if they panic.
  pub respond-closes :
      (q : Option ReqRef) (p : RespRef) (b : BodyRef) (w : World E)
      → (w.responses p).body ≡ some b
      → ((respond lib proxy q (some p) w).1.bodies b).is_closed ≡ true
  unfolding respond
  respond-closes q p b w h = ground arith
