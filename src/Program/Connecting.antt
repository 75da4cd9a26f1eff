-- ===== src/Program/Connecting.antt =====
-- main.go with goproxy/https.go: a CONNECT to the program.
use cffi_proxy.Base.{
  ℕ, ◌≡◌, refl, ap, ◌∙◌, true, List, ◌∷◌, Option, codes, ◌++◌, not, none, some, Text, if◌then◌else◌,
}
use cffi_proxy.Action.{Outcome, ok, Action, modify, message, pure, panic, defers, ◌>>=◌, ◌>>◌}
use cffi_proxy.Http.{ReqRef, ConnRef}
use cffi_proxy.Http.Headers.{HeaderLib}
use cffi_proxy.Http.World.{Event, World, emit, conn_closed}
use cffi_proxy.Dispatcher.{
  ConnectAction, mitm_connect, guarded_connect, always, all_req, handle_connect, do_request,
  do_response,
}
use cffi_proxy.Proxy.Network.{Network}
use cffi_proxy.Proxy.Serve.{begin_request}
use cffi_proxy.Https.Tunnels.{Tunnels, write_string, http_error}
use cffi_proxy.Https.Mitm.{mitm_rounds}
use cffi_proxy.Https.Connect.{decide, act, mitm, handle_https}
use cffi_proxy.Program.Serving.{Got, Exchanges, Messages, program-serves}
use cffi_proxy.Https.Answer.Wires.{Records, written}
use cffi_proxy.Https.Answer.Sent.{RecordsHeader}
use cffi_proxy.Http.Headers.{Header}
use cffi_proxy.Http.{Err}
use cffi_proxy.Program.{TlsClient, new_proxy_http_server, program}

module _ {E : Type 0} (ca : ℕ) (net : Network E) (tun : Tunnels E) (r : ReqRef) where
  -- What a CONNECT comes to, given what is done with a connection inside TLS: its host, its
  -- configuration and the connection.
  abbrev pub connect_with :
      (Text → ℕ → ConnRef → Action (World E) (Unit {0})) → Action (World E) (Unit {0})
  connect_with rounds = do
    modify (begin_request r)
    if not net.can_hijack
        then panic (message (codes "httpserver does not support hijacking"))
        else do
          (client, err) ← net.hijack
          elim err [
            | some e ↦ panic (message (codes "Cannot hijack connection " ++ e))
            | none ↦ λ w.
                (let host = (w.requests r).url.host in
                    do
                      _ ← write_string net tun client (codes "HTTP/1.0 200 OK\r\n\r\n")
                      (config, config_err) ← tun.make_tls_config ca host
                      elim config_err [
                        | some e ↦ http_error net tun client e
                        | none ↦ do
                          raw ← tun.tls_server client config
                          defers (emit (conn_closed raw)) (do
                            tls_err ← tun.tls_handshake raw
                            elim tls_err [ some e ↦ pure tt | none ↦ rounds host config raw ])
                      ])
                  w
          ]

  connect_runs :
      (rounds : Text → ℕ → ConnRef → Action (World E) (Unit {0})) (client raw : ConnRef)
      (config : ℕ) (err : Option Err) (w w₁ w₂ w₃ w₄ w₅ : World E)
      → net.can_hijack ≡ true
      → net.hijack (begin_request r w) ≡ (ok (client, none), w₁)
      → write_string net tun client (codes "HTTP/1.0 200 OK\r\n\r\n") w₁ ≡ (ok err, w₂)
      → tun.make_tls_config ca (w₁.requests r).url.host w₂ ≡ (ok (config, none), w₃)
      → tun.tls_server client config w₃ ≡ (ok raw, w₄)
      → tun.tls_handshake raw w₄ ≡ (ok none, w₅)
      → connect_with rounds w
        ≡ defers (emit (conn_closed raw)) (rounds (w₁.requests r).url.host config raw) w₅
  connect_runs rounds client raw config err w w₁ w₂ w₃ w₄ w₅ can h s m t k =
      rw (can, h, s, m, t, k) refl

module _ {E : Type 0} (lib : HeaderLib) (tls : TlsClient E) (ca : ℕ) (net : Network E)
    (tun : Tunnels E) (n : ℕ) (r : ReqRef) where
  pub connect_program :
      (default : ConnectAction)
      → handle_https lib net tun (program lib tls (mitm_connect ca)) n default r
        ≡ connect_with ca net tun r (λ host config raw.
          mitm_rounds lib net tun (program lib tls (mitm_connect ca)) host r config raw n)
  unfolding handle_https act mitm decide program handle_connect do_request do_response
      guarded_connect always new_proxy_http_server all_req mitm_connect
  connect_program default = refl

  -- If the connection can be hijacked, the certificate is made and the TLS handshake succeeds, then
  -- on a TLS connection that takes every write a CONNECT to the program serves any number of requests
  -- inside it: it ends without an error, with the closing of the TLS connection as the last of all;
  -- and what is written to that connection is one message for each of the TLS client's responses, in
  -- order. Each request is read without an error; until it is answered nothing is written to the
  -- connection; and the TLS client gets a response to it with a request that is not a HEAD, a header
  -- and a body. A message is the response's status line, its header with X-Proxy-Handler set and as
  -- `mitm_header` changes it, an empty line, and bytes that decode, as chunked coding, to what can be
  -- read of the body, whatever bytes come after them.
  pub program-connects :
      (default : ConnectAction) (print : Header → Text) (client raw : ConnRef) (config : ℕ)
      (err : Option Err) (w w₁ w₂ w₃ w₄ w₅ : World E) (gots : List Got)
      → net.can_hijack ≡ true
      → net.hijack (begin_request r w) ≡ (ok (client, none), w₁)
      → write_string net tun client (codes "HTTP/1.0 200 OK\r\n\r\n") w₁ ≡ (ok err, w₂)
      → tun.make_tls_config ca (w₁.requests r).url.host w₂ ≡ (ok (config, none), w₃)
      → tun.tls_server client config w₃ ≡ (ok raw, w₄)
      → tun.tls_handshake raw w₄ ≡ (ok none, w₅)
      → Records tun raw
      → RecordsHeader lib net tun print raw
      → Exchanges lib tls (mitm_connect ca) net tun (w₁.requests r).url.host r config raw n w₅ gots
      → let out = handle_https lib net tun (program lib tls (mitm_connect ca)) n default r w in
        (text : Text) × (before : List Event) × (out.0 ≡ ok tt)
        × (out.1.events ≡ conn_closed raw ∷ before)
        × (written raw before ≡ written raw w₅.events ++ text)
        × Messages lib tls
            (mitm_connect ca)
            net
            tun
            (w₁.requests r).url.host
            r
            config
            raw
            print
            gots
            text
  program-connects default print client raw config err w w₁ w₂ w₃ w₄ w₅ gots can h s m t k rec rech
        more =
      let host = (w₁.requests r).url.host in
      let (text, done, sent, ms) =
        program-serves lib tls (mitm_connect ca) net tun host r config raw print rec rech more in
      let end =
        mitm_rounds lib net tun (program lib tls (mitm_connect ca)) host r config raw n w₅ in
      let run : handle_https lib net tun (program lib tls (mitm_connect ca)) n default r w
          ≡ (end.0, emit (conn_closed raw) (end.1)) =
        ap (λ (a : Action (World E) (Unit {0})). a w) (connect_program default)
        ∙ connect_runs ca net tun r
            (λ host config raw.
              mitm_rounds lib net tun (program lib tls (mitm_connect ca)) host r config raw n)
            client raw config err w w₁ w₂ w₃ w₄ w₅ can h s m t k in
      (
        text,
        end.1.events,
        ap (λ (x : Outcome (Unit {0}) × World E). x.0) run ∙ done,
        ap (λ (x : Outcome (Unit {0}) × World E). x.1.events) run,
        sent,
        ms,
      )
