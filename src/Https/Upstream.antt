-- ===== src/Https/Upstream.antt =====
-- goproxy/https.go, dial, connectDial and NewConnectDialToProxyWithHandler: tunnels through another
-- proxy. All networks are TCP. A dialler's CONNECT request has its target as its host; that the
-- target is the opaque part of its URL too is not modelled.
pub mod Refusal
use cffi_proxy.Base.{
  ℕ, Bool, true, false, Option, none, some, [], ◌++◌, Text, codes, text_eq, contains, take, length,
  leb, ◌==◌, ◌||◌, if◌then◌else◌,
}
use cffi_proxy.Action.{Action, ok, pure, panic, modify, gets, defers, ◌>>=◌, ◌>>◌, nil_dereference}
use cffi_proxy.Http.{ReqRef, RespRef, BodyRef, ConnRef, Err, Url, Request}
use cffi_proxy.Http.World.{World, Body, emit, close_body, drain_body, conn_closed}

-- The dialling functions in the fields of the proxy and its transport, which may be nil, and net.Dial.
pub record Dialers (E : Type 0) : Type 0 where
  pub tr_dial : Option (Text → Action (World E) (Option ConnRef × Option Err))
  pub connect_dial_with_req :
      Option (ReqRef → Text → Action (World E) (Option ConnRef × Option Err))
  pub connect_dial_func : Option (Text → Action (World E) (Option ConnRef × Option Err))
  pub net_dial : Text → Action (World E) (Option ConnRef × Option Err)

-- Parsing, TLS, and messages on a connection to the other proxy.
pub record Upstream (E : Type 0) : Type 0 where
  pub parse : Text → Option Url
  pub tls_client : ConnRef → Action (World E) ConnRef
  pub write_connect : Request → ConnRef → Action (World E) (Option Err)
  pub read_answer : ConnRef → Action (World E) (Option RespRef × Option Err)

module _ {E : Type 0} (dialers : Dialers E) where
  unfoldable pub dial : Text → Action (World E) (Option ConnRef × Option Err)
  dial addr = elim dialers.tr_dial [ some f ↦ f addr | none ↦ dialers.net_dial addr ]

  unfoldable pub connect_dial : Text → Action (World E) (Option ConnRef × Option Err)
  unfolding dial
  connect_dial addr w = elim dialers.connect_dial_with_req [
    | some f ↦ f w.ctx.req addr w
    | none ↦ elim dialers.connect_dial_func [ some f ↦ f addr w | none ↦ dial addr w ]
  ]

module _ {E : Type 0} (dialers : Dialers E) (up : Upstream E) where
  -- io.ReadAll, of at most `limit` bytes if there is a limit.
  unfoldable pub read_all : Option ℕ → Body → Text × Option Err
  read_all none body = (body.content, body.failure)
  read_all (some limit) body =
      if leb limit (length body.content)
      then (take limit body.content, none)
      else (body.content, body.failure)

  -- What is done with the answer's status. If its body cannot be read, the connection stays open.
  unfoldable pub judge :
      Option ℕ → ConnRef → RespRef → BodyRef → Action (World E) (Option ConnRef × Option Err)
  unfolding read_all
  judge limit c p b w =
      if (w.responses p).status_code == 200
      then (ok (some c, none), w)
      else (let (text, failure) = read_all limit (w.bodies b) in
          elim failure [
            | some e ↦ (ok (none, some e), drain_body b w)
            | none ↦ (
              ok (none, some (codes "proxy refused connection" ++ text)),
              emit (conn_closed c) (drain_body b w),
            )
          ])

  -- From the writing of the CONNECT request on.
  unfoldable pub ask_upstream :
      Option ℕ → Request → ConnRef → Action (World E) (Option ConnRef × Option Err)
  unfolding judge
  ask_upstream limit req c = do
    _ ← up.write_connect req c
    (resp, err) ← up.read_answer c
    elim err [
      | some e ↦ do modify (emit (conn_closed c)); pure (none, some e)
      | none ↦ elim resp [
        | none ↦ panic nil_dereference
        | some p ↦ λ w. elim (w.responses p).body [
          | none ↦ panic nil_dereference w
          | some b ↦ defers (close_body b) (judge limit c p b) w
        ]
      ]
    ]

  -- The CONNECT request, after connectReqHandler, if there is one, has changed it.
  unfoldable pub connect_request :
      Option (Request → Action (World E) Request) → Text → Action (World E) Request
  connect_request handler target =
      let req : Request = record {
        method = codes "CONNECT";
        url = record { scheme = []; host = []; path = [] };
        header = [];
        host = target;
        remote_addr = [];
        request_uri = [];
        close = false;
        body = none;
      } in
      elim handler [ none ↦ pure req | some f ↦ f req ]

  -- The function returned for a proxy without TLS.
  unfoldable pub dial_plain :
      Text
      → Option (Request → Action (World E) Request)
      → Text
      → Action (World E) (Option ConnRef × Option Err)
  unfolding connect_request dial ask_upstream
  dial_plain proxy_host handler target = do
    req ← connect_request handler target
    (conn, err) ← dial dialers proxy_host
    elim err [
      | some e ↦ pure (none, some e)
      | none ↦ elim conn [ none ↦ panic nil_dereference | some c ↦ ask_upstream none req c ]
    ]

  -- The function returned for a proxy behind TLS.
  unfoldable pub dial_tls :
      Text
      → Option (Request → Action (World E) Request)
      → Text
      → Action (World E) (Option ConnRef × Option Err)
  unfolding connect_request dial ask_upstream
  dial_tls proxy_host handler target = do
    (conn, err) ← dial dialers proxy_host
    elim err [
      | some e ↦ pure (none, some e)
      | none ↦ elim conn [
        | none ↦ panic nil_dereference
        | some raw ↦ do
          c ← up.tls_client raw
          req ← connect_request handler target
          ask_upstream (some 500) req c
      ]
    ]

  -- NewConnectDialToProxyWithHandler: no function for an address that does not parse or whose
  -- scheme is none of the four.
  unfoldable pub new_connect_dial_to_proxy_with_handler :
      Text
      → Option (Request → Action (World E) Request)
      → Option (Text → Action (World E) (Option ConnRef × Option Err))
  unfolding dial_plain dial_tls
  new_connect_dial_to_proxy_with_handler https_proxy handler = elim (up.parse https_proxy) [
    | none ↦ none
    | some u ↦
        if text_eq u.scheme [] || text_eq u.scheme (codes "http")
        then some
            (dial_plain (if contains u.host 58 then u.host else u.host ++ codes ":80") handler)
        else if text_eq u.scheme (codes "https") || text_eq u.scheme (codes "wss")
        then some (dial_tls (if contains u.host 58 then u.host else u.host ++ codes ":443") handler)
        else none
  ]

  -- NewConnectDialToProxy
  unfoldable pub new_connect_dial_to_proxy :
      Text → Option (Text → Action (World E) (Option ConnRef × Option Err))
  unfolding new_connect_dial_to_proxy_with_handler
  new_connect_dial_to_proxy https_proxy = new_connect_dial_to_proxy_with_handler https_proxy none

  -- dialerFromEnv; `env` is os.Getenv.
  unfoldable pub dialer_from_env :
      (Text → Text) → Option (Text → Action (World E) (Option ConnRef × Option Err))
  unfolding new_connect_dial_to_proxy
  dialer_from_env env =
      let capital = env (codes "HTTPS_PROXY") in
      let https_proxy = if text_eq capital [] then env (codes "https_proxy") else capital in
      if text_eq https_proxy [] then none else new_connect_dial_to_proxy https_proxy
