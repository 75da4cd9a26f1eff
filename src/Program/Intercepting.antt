-- ===== src/Program/Intercepting.antt =====
-- main.go with goproxy/https.go: what a client whose CONNECT is intercepted gets from the program.
use cffi_proxy.Base.{
  append_assoc, sym, zero, ℕ, suc, ◌≡◌, refl, ap, subst, ◌∙◌, true, false, Option, none, some, Text,
  ◌++◌, codes, length, text_eq, arith,
}
use cffi_proxy.Action.{ok, defers}
use cffi_proxy.Http.{ReqRef, RespRef, BodyRef, ConnRef, Response, Err}
use cffi_proxy.Http.Headers.{Header, HeaderLib}
use cffi_proxy.Http.World.{World, put_request, close_body}
use cffi_proxy.Dispatcher.{ConnectAction}
use cffi_proxy.Chunked.{crlf}
use cffi_proxy.Chunked.Decode.{decode}
use cffi_proxy.Proxy.Filters.{filter_response}
use cffi_proxy.Proxy.Network.{Network}
use cffi_proxy.Proxy.Serve.{begin_request}
use cffi_proxy.Https.Tunnels.{Tunnels, is_eof}
use cffi_proxy.Https.Answer.{status_line, mitm_header, write_mitm}
use cffi_proxy.Https.Answer.Wires.{Records, written}
use cffi_proxy.Https.Answer.Sent.{RecordsHeader, write_mitm-sends}
use cffi_proxy.Https.Mitm.{inner_request, take_request, mitm_round, mitm_rounds}
use cffi_proxy.Program.{TlsClient, transport_handle_request, program}
use cffi_proxy.Program.Relaying.{
  named, relayed, relayed_response, program-filter_request, program-filter_response,
}

regroup : (a b c d e : Text) → a ++ b ++ c ++ d ++ e ≡ a ++ (b ++ c ++ d ++ e)
regroup a b c d e = simp append_assoc

module _ {E : Type 0} (lib : HeaderLib) (tls : TlsClient E) (mitm : ConnectAction) (net : Network E)
    (tun : Tunnels E) (host : Text) (outer : ReqRef) (config : ℕ) (client : ConnRef) where
  -- The world in which a request has been read inside the connection and gets its context.
  abbrev pub inside : ReqRef → World E → World E
  inside r w =
      let v = begin_request r w in
      put_request r
        (inner_request lib net tun (program lib tls mitm) host outer config client
          (v.requests outer) (v.requests r))
        v

  -- The new body reads as what could be read of the old one, without an error.
  relayed_content :
      (p : RespRef) (b : BodyRef) (h : Header) (w : World E)
      → ((relayed lib tls mitm p b h w).bodies w.next_body).content ≡ (w.bodies b).content
  relayed_content p b h w = ground arith

  relayed_failure :
      (p : RespRef) (b : BodyRef) (h : Header) (w : World E)
      → ((relayed lib tls mitm p b h w).bodies w.next_body).failure ≡ none
  relayed_failure p b h w = ground arith

  pub program-take_request :
      (r : ReqRef) (p : RespRef) (w w' : World E)
      → transport_handle_request tls r (inside r w) ≡ (ok (p, none), w')
      → take_request lib net tun (program lib tls mitm) host outer config client (some r, none) w
        ≡ (ok (some p), w')
  unfolding take_request
  program-take_request r p w w' sends =
      rw (program-filter_request lib tls mitm r p (inside r w) w' sends) refl

  -- A round whose answer is written without an error: the next rounds follow, and the body is closed
  -- after them.
  pub rounds_step :
      (n : ℕ) (read : Option ReqRef × Option Err) (p p' : RespRef) (b : BodyRef)
      (w w₁ w₂ w₃ w₄ v : World E)
      → is_eof tun client w ≡ (ok false, w₁)
      → tun.read_request client w₁ ≡ (ok read, w₂)
      → take_request lib net tun (program lib tls mitm) host outer config client read w₂
        ≡ (ok (some p), w₃)
      → filter_response (program lib tls mitm).resp_handlers (some p) w₃ ≡ (ok (some p'), w₄)
      → (w₄.responses p').body ≡ some b
      → write_mitm lib net tun client p' b w₄ ≡ (ok true, v)
      → mitm_rounds lib net tun (program lib tls mitm) host outer config client (suc n) w
        ≡ defers
            (close_body b)
            (mitm_rounds lib net tun (program lib tls mitm) host outer config client n)
            v
  unfolding mitm_rounds mitm_round
  rounds_step n read p p' b w w₁ w₂ w₃ w₄ v e r t f h s = rw (e, r, t, f, h, s) refl

  status_line-relayed :
      (resp : Response) (h : Option Header) (b : Option BodyRef)
      → status_line lib net tun (record resp { header = h; body = b })
        ≡ status_line lib net tun resp
  unfolding status_line
  status_line-relayed resp h b = refl

  -- What is written for a response with a header `h` and a body that reads as `content`: the status
  -- line of the response, the header with X-Proxy-Handler set and as `mitm_header` changes it, an
  -- empty line, and bytes that decode, as chunked coding, to the content, whatever comes after them.
  abbrev pub Message : (Header → Text) → Response → Header → Text → Text → Type 0
  Message print resp h content text =
      (bytes : Text) × (text
        ≡ status_line lib net tun resp
          ++ print (mitm_header lib net tun false (named lib tls mitm h))
          ++ crlf
          ++ bytes)
      × ((rest : Text)
          → decode (suc (length (tun.pieces content))) (bytes ++ rest) ≡ some (content, rest))

  -- The writing of an answer.
  pub program-writes :
      (print : Header → Text) (p q : RespRef) (b : BodyRef) (h : Header) (w : World E)
      → Records tun client
      → RecordsHeader lib net tun print client
      → (w.responses p).request ≡ some q
      → (w.responses p).header ≡ some h
      → (w.responses p).body ≡ some b
      → text_eq (w.requests q).method (codes "HEAD") ≡ false
      → (v : World E) × (text : Text) × (write_mitm lib net tun client p w.next_body
            (relayed lib tls mitm p b h w)
          ≡ (ok true, v))
        × (written client v.events ≡ written client w.events ++ text)
        × Message print (w.responses p) h (w.bodies b).content text
  program-writes print p q b h w rec rech req hdr body method =
      let w₄ = relayed lib tls mitm p b h w in
      let b' = w.next_body in
      let resp = relayed_response lib tls mitm p b h w in
      let line : status_line lib net tun (w₄.responses p)
          ≡ status_line lib net tun (w.responses p) =
        ap (status_line lib net tun) resp ∙ status_line-relayed (w.responses p) _ _ in
      let (v, bytes, run, out, decodes) =
        write_mitm-sends lib net tun print client p b' q (named lib tls mitm h) w₄ rec rech
          (ap (λ (x : Response). x.request) resp ∙ req) (ap (λ (x : Response). x.header) resp)
          method (relayed_failure p b h w) in
      (
        v,
        status_line lib net tun (w.responses p)
            ++ print (mitm_header lib net tun false (named lib tls mitm h))
            ++ crlf
            ++ bytes,
        run,
        out
            ∙ ap
                (λ (t : Text).
                  written client w.events
                  ++ t
                  ++ print (mitm_header lib net tun false (named lib tls mitm h))
                  ++ crlf
                  ++ bytes)
                line
            ∙ regroup (written client w.events) (status_line lib net tun (w.responses p))
                (print (mitm_header lib net tun false (named lib tls mitm h))) crlf bytes,
        (
          bytes,
          refl,
          λ rest.
              subst
                (λ (c : Text).
                  decode (suc (length (tun.pieces c))) (bytes ++ rest) ≡ some (c, rest))
                (relayed_content p b h w) (decodes rest),
        ),
      )

  -- On a connection that takes every write: if the client sends a request and the TLS client gets a
  -- response to it with a request that is not a HEAD, a header and a body, then one round of the loop
  -- ends without an error and sends the status line of this response, its header with X-Proxy-Handler
  -- set and as `mitm_header` changes it, an empty line, and bytes that decode, as chunked coding, to
  -- what can be read of its body, whatever bytes come after them.
  pub program-intercepts :
      (print : Header → Text) (r p q : RespRef) (b : BodyRef) (h : Header) (w w₁ w₂ w₃ : World E)
      → Records tun client
      → RecordsHeader lib net tun print client
      → is_eof tun client w ≡ (ok false, w₁)
      → tun.read_request client w₁ ≡ (ok (some r, none), w₂)
      → transport_handle_request tls r (inside r w₂) ≡ (ok (p, none), w₃)
      → (w₃.responses p).request ≡ some q
      → (w₃.responses p).header ≡ some h
      → (w₃.responses p).body ≡ some b
      → text_eq (w₃.requests q).method (codes "HEAD") ≡ false
      → let content = (w₃.bodies b).content in
        (v : World E) × (bytes : Text) × (mitm_rounds lib net tun
            (program lib tls mitm)
            host
            outer
            config
            client
            1
            w
          ≡ (ok tt, v))
        × (written client v.events
            ≡ written client w₃.events
              ++ status_line lib net tun (w₃.responses p)
              ++ print (mitm_header lib net tun false (named lib tls mitm h))
              ++ crlf
              ++ bytes)
        × ((rest : Text)
            → decode (suc (length (tun.pieces content))) (bytes ++ rest) ≡ some (content, rest))
  unfolding mitm_rounds
  program-intercepts print r p q b h w w₁ w₂ w₃ rec rech eof read sends req hdr body method =
      let w₄ = relayed lib tls mitm p b h w₃ in
      let b' = w₃.next_body in
      let (v, text, run, out, (bytes, same, decodes)) =
        program-writes print p q b h w₃ rec rech req hdr body method in
      (
        close_body b' v,
        bytes,
        rounds_step zero (some r, none) p p b' w w₁ w₂ w₃ w₄ v eof read
              (program-take_request r p w₂ w₃ sends)
              (program-filter_response lib tls mitm p q b h w₃ req hdr body)
              (ap (λ (x : Response). x.body) (relayed_response lib tls mitm p b h w₃)) run
            ∙ refl,
        out
            ∙ ap (λ (t : Text). written client w₃.events ++ t) same
            ∙ sym (
                regroup (written client w₃.events) (status_line lib net tun (w₃.responses p))
                  (print (mitm_header lib net tun false (named lib tls mitm h))) crlf bytes),
        decodes,
      )
