-- ===== src/Proxy/Serve/Transparent.antt =====
-- goproxy/proxy.go: a proxy without handlers, as NewProxyHttpServer makes it.
use cffi_proxy.Base.{
  ◌≡◌, refl, true, false, Option, none, some, [], ◌∷◌, ◌++◌, text_eq, codes, if◌then◌else◌, arith,
  ==_refl, subst, sym, ap, ◌∙◌,
}
use cffi_proxy.Action.{Outcome, ok}
use cffi_proxy.Http.{ReqRef, RespRef, BodyRef, Err}
use cffi_proxy.Http.Headers.{HeaderLib, header_of}
use cffi_proxy.Http.World.{World, client_error, client_head, client_copy, put_request}
use cffi_proxy.Dispatcher.{ProxyHttpServer}
use cffi_proxy.Websocket.Upgrade.{is_web_socket_request}
use cffi_proxy.Proxy.Headers.{copy_headers, remove_proxy_headers}
use cffi_proxy.Proxy.Filters.{filter_request, filter_request_loop, filter_response}
use cffi_proxy.Proxy.Network.{Network, ctx_round_trip}
use cffi_proxy.Proxy.Serve.{
  same_body, valid_status, begin_request, after_round_trip, send_request, get_response,
  write_client, write_failure, finish, respond, serve_http,
}

module _ {E : Type 0} (lib : HeaderLib) (proxy : ProxyHttpServer E) where
  -- What the round trip must leave: with a response, a body and a status that can be sent; with
  -- neither a response nor an error, a context without an error.
  abbrev pub Usable : Option RespRef → Option Err → World E → Type 0
  Usable resp (some e) w = Unit
  Usable none none w = w.ctx.error ≡ none
  Usable (some p) none w =
      (b : BodyRef) × ((w.responses p).body ≡ some b)
      × (valid_status (w.responses p).status_code ≡ true)

  -- What the client then gets, as the newest events.
  abbrev pub Delivered :
      ReqRef → Option RespRef → Option Err → World E → Outcome (Unit {0}) × World E → Type 0
  Delivered r resp (some e) w out = (out.0 ≡ ok tt) × (out.1.events ≡ client_error 500 e ∷ w.events)
  Delivered r none none w out =
      (out.0 ≡ ok tt)
      × (out.1.events
          ≡ client_error 500 (codes "error read response " ++ (w.requests r).url.host) ∷ w.events)
  Delivered r (some p) none w out =
      let header =
        copy_headers lib w.client_header (header_of (w.responses p).header)
          proxy.keep_destination_headers in
      let flush = text_eq (lib.get header (codes "content-type")) (codes "text/event-stream") in
      (out.0 ≡ ok tt)
      × ((b : BodyRef) × ((w.responses p).body ≡ some b)
          × (out.1.events
              ≡ client_copy flush (w.bodies b).content
                ∷ client_head (w.responses p).status_code header
                ∷ w.events)
          × ((out.1.bodies b).is_closed ≡ true))

  -- The world in which the request is sent.
  abbrev pub sending : ReqRef → World E → World E
  sending r w =
      let v = begin_request r w in
      if proxy.keep_header then v else put_request r (remove_proxy_headers lib (v.requests r)) v

  delivers :
      (r : ReqRef) (resp : Option RespRef) (err : Option Err) (w : World E)
      → proxy.resp_handlers ≡ []
      → Usable resp err w
      → let (got, v) = after_round_trip lib proxy (resp, err) w in
        (got' : Option RespRef) × (got ≡ ok got')
        × Delivered r resp err w (respond lib proxy (some r) got' v)
  unfolding after_round_trip respond finish write_failure write_client same_body filter_response
  delivers r resp (some e) w none_left usable =
      (none, ground (arith, none_left), (ground (arith, none_left), ground (arith, none_left)))
  delivers r none none w none_left usable =
      (none, refl, (ground (arith, none_left, usable), ground (arith, none_left, usable)))
  delivers r (some p) none w none_left (b, body, valid) = (
    some p,
    refl,
    (
      ground (arith, none_left, body, valid, ==_refl b),
      (
        b,
        body,
        ground (arith, none_left, body, valid, ==_refl b),
        ground (arith, none_left, body, valid, ==_refl b),
      ),
    ),
  )

  not_answered :
      (r : ReqRef) (w : World E)
      → proxy.req_handlers ≡ []
      → filter_request proxy.req_handlers r w ≡ (ok (some r, none), w)
  unfolding filter_request filter_request_loop
  not_answered r w no_req = ap (λ hs. filter_request hs r w) no_req

  -- No handler has set another round tripper.
  own_transport :
      (net : Network E) (r : ReqRef) (w : World E)
      → ctx_round_trip net r (sending r w) ≡ net.round_trip r (sending r w)
  unfolding ctx_round_trip begin_request
  own_transport net r w = ground arith

  steps :
      (net : Network E) (r : ReqRef) (out : Option RespRef × Option Err) (got : Option RespRef)
      (w w₁ w' v : World E)
      → text_eq (w.requests r).url.scheme [] ≡ false
      → filter_request proxy.req_handlers r (begin_request r w) ≡ (ok (some r, none), w₁)
      → is_web_socket_request (w₁.requests r) ≡ false
      → ctx_round_trip net r (
          if proxy.keep_header
          then w₁
          else put_request r (remove_proxy_headers lib (w₁.requests r)) w₁)
        ≡ (ok out, w')
      → after_round_trip lib proxy out w' ≡ (ok got, v)
      → serve_http lib net proxy r w ≡ respond lib proxy (some r) got v
  unfolding serve_http get_response send_request begin_request
  steps net r out got w w₁ w' v absolute not_filtered plain trip after =
      rw (absolute, not_filtered, plain, trip, after) refl

  -- A proxy without handlers passes on what the network gives, for a request to a proxy that asks
  -- for no websocket. If the round trip of the request, less its hop-by-hop headers unless KeepHeader
  -- is set, fails, the client gets one 500 with the error; if it gives neither an error nor a
  -- response, and the context has no error, one 500 that names the host; and if it gives a response
  -- with a body and a status from 100 to 999, one head with this status and the header as
  -- copyHeaders puts it into the writer's own, Content-Length kept, and then what can be read of the
  -- body, which is closed in the end. Nothing else is sent and nothing panics.
  pub serve_http-Delivered :
      (net : Network E) (r : ReqRef) (resp : Option RespRef) (err : Option Err) (w w' : World E)
      → proxy.req_handlers ≡ []
      → proxy.resp_handlers ≡ []
      → text_eq (w.requests r).url.scheme [] ≡ false
      → is_web_socket_request (w.requests r) ≡ false
      → net.round_trip r (sending r w) ≡ (ok (resp, err), w')
      → Usable resp err w'
      → Delivered r resp err w' (serve_http lib net proxy r w)
  unfolding begin_request
  serve_http-Delivered net r resp err w w' no_req no_resp absolute plain trip usable =
      let (got, same, delivered) = delivers r resp err w' no_resp usable in
      let v = (after_round_trip lib proxy (resp, err) w').1 in
      subst (λ out. Delivered r resp err w' out)
        (sym (
          steps net r (resp, err) got w (begin_request r w) w' v absolute
            (not_answered r (begin_request r w) no_req) plain (own_transport net r w ∙ trip)
            (ap (λ (o : Outcome (Option RespRef)). (o, v)) same)))
        delivered
