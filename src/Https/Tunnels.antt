-- ===== src/Https/Tunnels.antt =====
-- What handleHttps calls and does not implement: connections, TLS, and the reading of requests
-- from connections; goproxy/https.go, httpError; goproxy/proxy.go, isEof; goproxy/websocket.go, the websockets inside TLS.
use cffi_proxy.Base.{ℕ, Bool, true, false, Option, none, some, List, Text, codes, ◌++◌, length, ◌≡◌}
use cffi_proxy.Action.{Action, ok, pure, panic, modify, gets, defers, ◌>>=◌, nil_dereference}
use cffi_proxy.Http.{ReqRef, ConnRef, Err, Url}
use cffi_proxy.Http.Headers.{Header}
use cffi_proxy.Http.World.{World, emit, conn_closed, tunnelled}
use cffi_proxy.Dispatcher.{RespHandler}
use cffi_proxy.Proxy.Network.{Network}
use cffi_proxy.Websocket.Serve.{websocket_handshake}
use cffi_proxy.Chunked.{Wire}
use cffi_proxy.Chunked.Decode.{joined}

-- io.EOF, or another error.
pub data PeekErr : Type 0 where
  end_of_file : PeekErr
  other : Err → PeekErr

-- An identity that is a number stands for a function or a configuration of the Go code.
pub record Tunnels (E : Type 0) : Type 0 where
  -- conn.Write
  pub wire : ConnRef → Wire (World E)
  -- whether a net.Conn has CloseWrite and CloseRead
  pub half_closable : ConnRef → Bool
  -- todo.Hijack(r, client, ctx)
  pub call_hijack : ℕ → ReqRef → ConnRef → Action (World E) (Unit {0})
  -- http.ReadRequest; an end of file is an error
  pub read_request : ConnRef → Action (World E) (Option ReqRef × Option Err)
  -- Peek of one byte, by its error; Discard(n)
  pub peek : ConnRef → Action (World E) (Option PeekErr)
  pub discard : ℕ → ConnRef → Action (World E) (Option Err)
  -- todo.TLSConfig(host, ctx), tls.Server, Handshake, tls.Dial
  pub default_tls_config : ℕ
  pub make_tls_config : ℕ → Text → Action (World E) (ℕ × Option Err)
  pub tls_server : ConnRef → ℕ → Action (World E) ConnRef
  pub tls_handshake : ConnRef → Action (World E) (Option Err)
  pub tls_dial : Text → ℕ → Action (World E) (Option ConnRef × Option Err)
  -- H2Transport{…}.RoundTrip
  pub h2_round_trip : ReqRef → ConnRef → ℕ → Text → Action (World E) (Unit {0})
  -- resp.Header.Write
  pub write_header : Header → ConnRef → Action (World E) (Option Err)
  -- the pieces that io.Copy reads of a body and writes one by one: all bytes of it, in order
  pub pieces : Text → List Text
  pub joined-pieces : (t : Text) → joined (pieces t) ≡ t
  -- url.URL.String and url.Parse of a URL that it has printed behind a scheme and a host, which
  -- is taken to succeed; strconv.Itoa
  pub url_string : Url → Text
  pub parse_url : Text → Url
  pub itoa : ℕ → Text

module _ {E : Type 0} (tun : Tunnels E) where
  -- isEof of goproxy/proxy.go: another error than io.EOF is left to the next read.
  unfoldable pub is_eof : ConnRef → Action (World E) Bool
  is_eof c = do
    err ← tun.peek c
    pure (elim err [ none ↦ false | some e ↦ elim e [ end_of_file ↦ true | other x ↦ false ] ])

module _ {E : Type 0} (net : Network E) (tun : Tunnels E) where
  -- io.WriteString(conn, s): the error
  unfoldable pub write_string : ConnRef → Text → Action (World E) (Option Err)
  write_string c s w = let (w', _, err) = (tun.wire c).write w s in (ok err, w')

  -- httpError
  unfoldable pub http_error : ConnRef → Err → Action (World E) (Unit {0})
  unfolding write_string
  http_error c e = do
    _ ← write_string c (
        codes "HTTP/1.1 502 Bad Gateway\r\nContent-Type: text/plain\r\nContent-Length: "
        ++ (tun.itoa (length e) ++ (codes "\r\n\r\n" ++ e)))
    modify (emit (conn_closed c))

  -- What serveWebsocketTLS and serveWebsocketHttpOverTLS do with what they have dialled.
  unfoldable serve_dialled_tls :
      List (RespHandler E)
      → ReqRef
      → ConnRef
      → Option ConnRef × Option Err
      → Action (World E) (Unit {0})
  serve_dialled_tls hs req client (conn, some e) = pure tt
  serve_dialled_tls hs req client (none, none) = panic nil_dereference
  serve_dialled_tls hs req client (some target, none) = defers (emit (conn_closed target)) (do
    failed ← websocket_handshake net hs req target client
    elim failed [ some e ↦ pure tt | none ↦ modify (emit (tunnelled target client)) ])

  -- serveWebsocketTLS
  unfoldable pub serve_websocket_tls :
      List (RespHandler E) → ReqRef → ℕ → ConnRef → Action (World E) (Unit {0})
  unfolding serve_dialled_tls
  serve_websocket_tls hs req config client = do
    host ← gets (λ w. (w.requests req).url.host)
    dialled ← tun.tls_dial host config
    serve_dialled_tls hs req client dialled

  -- serveWebsocketHttpOverTLS
  unfoldable pub serve_websocket_http_over_tls :
      List (RespHandler E) → ReqRef → ConnRef → Action (World E) (Unit {0})
  unfolding serve_dialled_tls
  serve_websocket_http_over_tls hs req client = do
    host ← gets (λ w. (w.requests req).url.host)
    dialled ← net.connect_dial host
    serve_dialled_tls hs req client dialled
