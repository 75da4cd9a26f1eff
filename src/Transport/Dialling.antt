-- ===== src/Transport/Dialling.antt =====
-- goproxy/transport/transport.go: getConn, dial, proxyAuth and DetailedRoundTrip. The connections and their goroutines are Transport/Connection's.
pub mod Keyed
pub mod Failing
use cffi_proxy.Base.{
  ℕ, suc, ◌+◌, Bool, true, false, not, ◌&&◌, ◌||◌, Option, none, some, List, [], ◌∷◌, ◌++◌, Text,
  codes, text_eq, ◌==◌, if◌then◌else◌, is_some,
}
use cffi_proxy.Base.Maps.{Map, lookup}
use cffi_proxy.Action.{
  Action, Outcome, ok, panics, pure, panic, modify, gets, ◌>>=◌, ◌>>◌, nil_dereference,
  slice_bounds, message,
}
use cffi_proxy.Http.{Url, Err, Request, ConnRef, RespRef}
use cffi_proxy.Http.World.{update}
use cffi_proxy.Http.Headers.{HeaderLib}
use cffi_proxy.Auth.{split_first}
use cffi_proxy.Transport.Pool.{ConnId, PersistConn, Transport, get_idle_conn}
use cffi_proxy.Transport.Method.{
  ConnectMethod, canonical_addr, connect_method_for_request, to_string, addr, tls_host, use_proxy,
}

-- The fields that getConn gives a persistConn; `proxy_auth` is what its mutateHeaderFunc sets.
pub record Details : Type 0 where
  pub conn : ConnRef
  pub host : Text
  pub is_proxy : Bool
  pub proxy_auth : Option Text

pub data Wired : Type 0 where
  dialled : Text → Wired
  closed : ConnRef → Wired
  -- go pconn.readLoop()
  read_loop : ConnId → Wired

pub record Wiring (E : Type 0) : Type 0 where
  pub pool : Transport
  pub details : ConnId → Details
  pub next : ConnId
  -- newest first
  pub log : List Wired
  pub env : E

-- A CONNECT request: the target, and the value of Proxy-Authorization if there is one.
pub record ConnectReq : Type 0 where
  pub target : Text
  pub authorization : Option Text

-- What the transport calls: addresses and URLs, its Dial or net.DialTCP, the answer of a proxy to a
-- CONNECT (its status code and its status line), and TLS.
pub record Outside (E : Type 0) : Type 0 where
  pub url_string : Url → Text
  pub user_of : Url → Option Text
  pub encode : Text → Text
  -- fmt's %q
  pub quote : Text → Text
  pub resolve : Text → Option Err
  pub custom_dial : Option (Text → Action (Wiring E) (ConnRef × Option Err))
  pub dial_tcp : Text → Action (Wiring E) (ConnRef × Option Err)
  pub connect : ConnectReq → ConnRef → Action (Wiring E) ((ℕ × Text) × Option Err)
  pub tls_client : ConnRef → Action (Wiring E) ConnRef
  pub handshake : ConnRef → Action (Wiring E) (Option Err)
  pub skip_verify : Bool
  pub verify : ConnRef → Text → Option Err

abbrev pub log_wired : {E : Type 0} → Wired → Wiring E → Wiring E
log_wired e w = record w { log = e ∷ w.log }

find_protocol : Text → Option (Map ℕ) → Option ℕ
find_protocol scheme none = none
find_protocol scheme (some m) = lookup scheme m

-- `if pa != ""`
unfoldable pub non_empty : Text → Option Text
non_empty [] = none
non_empty (c ∷ s) = some (c ∷ s)

module _ {E : Type 0} (out : Outside E) where
  -- connectMethod.proxyAuth
  unfoldable pub proxy_auth : ConnectMethod → Text
  proxy_auth cm = elim cm.proxy_url [
    | none ↦ []
    | some u ↦ elim (out.user_of u) [ none ↦ [] | some user ↦ codes "Basic " ++ out.encode user ]
  ]

  -- Transport.dial: the connection, and the error; the address is the one that was asked for.
  unfoldable pub dial_addr : Text → Action (Wiring E) (ConnRef × Option Err)
  dial_addr address = elim (out.resolve address) [
    | some e ↦ pure (0, some e)
    | none ↦ do
      modify (log_wired (dialled address))
      elim out.custom_dial [ some f ↦ f address | none ↦ out.dial_tcp address ]
  ]

  -- `errors.New(f[1])`, where `f` is the status line split at its first space.
  unfoldable pub refusal : ConnRef → Text → Action (Wiring E) (Option Err)
  refusal conn status = do
    modify (log_wired (closed conn))
    elim (split_first 32 status) [
      | none ↦ panic slice_bounds
      | some (code, reason) ↦ pure (some reason)
    ]

  -- The case of a target behind a proxy's CONNECT: the error, if there is one.
  unfoldable pub through_proxy : ConnectMethod → ConnRef → Action (Wiring E) (Option Err)
  unfolding refusal non_empty proxy_auth
  through_proxy cm conn = do
    ((code, status), err) ←
        out.connect (record { target = cm.target_addr; authorization = non_empty (proxy_auth cm) })
          conn
    elim err [
      | some e ↦ do modify (log_wired (closed conn)); pure (some e)
      | none ↦ if code == 200 then pure none else refusal conn status
    ]

  -- TLS, if the target's scheme is https: the connection to use, or the error.
  unfoldable pub secure : ConnectMethod → ConnRef → Action (Wiring E) (ConnRef × Option Err)
  secure cm conn =
      if text_eq cm.target_scheme (codes "https")
      then (do
        tls ← out.tls_client conn
        err ← out.handshake tls
        elim err [
          | some e ↦ pure (tls, some e)
          | none ↦ pure (tls, if out.skip_verify then none else out.verify tls (tls_host cm))
        ])
      else pure (conn, none)

  -- The new persistConn, at the end of getConn.
  unfoldable pub install : ConnectMethod → ConnRef → Action (Wiring E) ConnId
  unfolding non_empty proxy_auth
  install cm conn w =
      let plain_proxy = is_some cm.proxy_url && text_eq cm.target_scheme (codes "http") in
      let c = w.next in
      (
        ok c,
        log_wired (read_loop c) (record w {
          next = c + 1;
          pool = record (w.pool) {
            conns =
                update (w.pool).conns c
                  (record { cache_key = to_string out.url_string cm; broken = false });
          };
          details = update w.details c (record {
            conn = conn;
            host = addr cm;
            is_proxy = plain_proxy;
            proxy_auth = if plain_proxy then non_empty (proxy_auth cm) else none;
          });
        }),
      )

  -- getConn after a successful dial.
  unfoldable pub set_up : ConnectMethod → ConnRef → Action (Wiring E) (Option ConnId × Option Err)
  unfolding through_proxy secure install
  set_up cm conn = do
    refused ←
        (if is_some cm.proxy_url && text_eq cm.target_scheme (codes "https")
          then through_proxy cm conn
          else pure none)
    elim refused [
      | some e ↦ pure (none, some e)
      | none ↦ do
        (secured, err) ← secure cm conn
        elim err [
          | some e ↦ pure (none, some e)
          | none ↦ do c ← install cm secured; pure (some c, none)
        ]
    ]

  dial_error : ConnectMethod → Err → Err
  dial_error cm e = elim cm.proxy_url [
    | none ↦ e
    | some u ↦ codes "http: error connecting to proxy " ++ (out.url_string u ++ (codes ": " ++ e))
  ]

  -- getConn when no idle connection was found.
  unfoldable pub new_conn : ConnectMethod → Action (Wiring E) (Option ConnId × Option Err)
  unfolding dial_addr dial_error set_up
  new_conn cm = do
    (conn, err) ← dial_addr (addr cm)
    elim err [ some e ↦ pure (none, some (dial_error cm e)) | none ↦ set_up cm conn ]

  -- getIdleConn on the pool of the state; its loop always ends, so the first case is not reached.
  unfoldable pub idle_conn : ConnectMethod → Action (Wiring E) (Option ConnId)
  idle_conn cm w = elim (get_idle_conn (to_string out.url_string cm) w.pool) [
    | none ↦ (ok none, w)
    | some (found, pool') ↦ (found, record w { pool = pool' })
  ]

  -- getConn
  unfoldable pub get_conn : ConnectMethod → Action (Wiring E) (Option ConnId × Option Err)
  unfolding idle_conn new_conn
  get_conn cm = do
    found ← idle_conn cm
    elim found [ some c ↦ pure (some c, none) | none ↦ new_conn cm ]

  -- DetailedRoundTrip, whose URL and header are not nil; `proxy` is the transport's Proxy, `protocols`
  -- its altProto, `alternative` a round tripper of that map and `pconn_round_trip` persistConn.roundTrip.
  unfoldable pub detailed_round_trip :
      Option (Request → Option Url × Option Err)
      → Option (Map ℕ)
      → (ℕ → Request → Action (Wiring E) (Option RespRef × Option Err))
      → (ConnId → Request → Action (Wiring E) (Option RespRef × Option Err))
      → Request
      → Action (Wiring E) (Option RespRef × Option Err)
  unfolding get_conn find_protocol
  detailed_round_trip proxy protocols alternative pconn_round_trip req =
      let scheme = req.url.scheme in
      if not (text_eq scheme (codes "http")) && not (text_eq scheme (codes "https"))
      then elim (find_protocol scheme protocols) [
        | none ↦ pure (none, some (codes "unsupported protocol scheme " ++ out.quote scheme))
        | some rt ↦ alternative rt req
      ]
      else (let (method, err) = connect_method_for_request proxy req in
          elim err [
            | some e ↦ pure (none, some e)
            | none ↦ elim method [
              | none ↦ panic nil_dereference
              | some cm ↦ do
                (pconn, failed) ← get_conn cm
                elim failed [
                  | some e ↦ pure (none, some e)
                  | none ↦ elim pconn [
                    | none ↦ panic nil_dereference
                    | some c ↦ pconn_round_trip c req
                  ]
                ]
            ]
          ])

-- The start of persistConn.roundTrip: whether a compressed answer is asked for, in a header that the
-- code then does not write.
unfoldable pub start_round_trip : HeaderLib → Bool → Details → Request → Outcome Bool
start_round_trip lib disable_compression details req =
    if is_some details.proxy_auth
    then panics (message (codes "mutateHeaderFunc not supported in modified Transport"))
    else ok (not disable_compression && text_eq (lib.get req.header (codes "Accept-Encoding")) [])
