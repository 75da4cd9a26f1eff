-- ===== src/Dispatcher.antt =====
-- goproxy/dispatcher.go and goproxy/actions.go: conditions, handlers, and their registration with
-- the proxy. A handler is any action on the shared memory.
pub mod Conditions
use cffi_proxy.Base.{
  ℕ, Bool, true, false, not, Option, none, some, List, [], ◌∷◌, ◌++◌, Text, if◌then◌else◌,
}
use cffi_proxy.Action.{
  Action, Outcome, ok, panics, pure, panic, gets, modify, ◌>>=◌, ◌>>◌, nil_dereference,
}
use cffi_proxy.Http.{ReqRef, RespRef, Request, Response}
use cffi_proxy.Http.Headers.{HeaderLib}
use cffi_proxy.Http.World.{World, put_response, drain_body, close_body, new_body}

-- ReqHandler: the request to send on (nil allowed), and a response that replaces sending it.
abbrev pub ReqHandler : Type 0 → Type 0
ReqHandler E = ReqRef → Action (World E) (Option ReqRef × Option RespRef)

abbrev pub RespHandler : Type 0 → Type 0
RespHandler E = Option RespRef → Action (World E) (Option RespRef)

pub data ConnectActionLiteral : Type 0 where
  connect_accept connect_reject connect_mitm connect_hijack : ConnectActionLiteral
  connect_http_mitm connect_proxy_auth_hijack : ConnectActionLiteral

-- `hijack` and `tls_config` are the identities of the functions in the Go fields.
pub record ConnectAction : Type 0 where
  pub action : ConnectActionLiteral
  pub hijack : Option ℕ
  pub tls_config : Option ℕ

-- OkConnect, MitmConnect, HTTPMitmConnect and RejectConnect, for the identity of
-- TLSConfigFromCA(&GoproxyCa).
module _ (ca : ℕ) where
  unfoldable pub ok_connect : ConnectAction
  ok_connect = record { action = connect_accept; hijack = none; tls_config = some ca }

  unfoldable pub mitm_connect : ConnectAction
  mitm_connect = record { action = connect_mitm; hijack = none; tls_config = some ca }

  unfoldable pub http_mitm_connect : ConnectAction
  http_mitm_connect = record { action = connect_http_mitm; hijack = none; tls_config = some ca }

  unfoldable pub reject_connect : ConnectAction
  reject_connect = record { action = connect_reject; hijack = none; tls_config = some ca }

-- HttpsHandler: no action lets the next handler decide.
abbrev pub HttpsHandler : Type 0 → Type 0
HttpsHandler E = Text → Action (World E) (Option ConnectAction × Text)

pub record RespCondition (E : Type 0) : Type 0 where
  pub handle_resp : Option RespRef → Action (World E) Bool

pub record ReqCondition (E : Type 0) : Type 0 where
  pub handle_req : ReqRef → Action (World E) Bool
  pub handle_resp : Option RespRef → Action (World E) Bool

-- The proxy's settings and registered handlers.
pub record ProxyHttpServer (E : Type 0) : Type 0 where
  pub keep_destination_headers : Bool
  pub keep_header : Bool
  pub allow_http2 : Bool
  pub req_handlers : List (ReqHandler E)
  pub resp_handlers : List (RespHandler E)
  pub https_handlers : List (HttpsHandler E)

module _ {E : Type 0} where
  -- ReqConditionFunc: its HandleResp tests the request of the context.
  unfoldable pub req_condition_func : (ReqRef → Action (World E) Bool) → ReqCondition E
  req_condition_func c = record { handle_req = c; handle_resp = λ _ w. c w.ctx.req w }

  -- A condition that only looks at the request.
  unfoldable pub request_test : (Request → Bool) → ReqCondition E
  unfolding req_condition_func
  request_test t = req_condition_func (λ r. gets (λ w. t (w.requests r)))

  -- Not
  unfoldable pub negate : ReqCondition E → ReqCondition E
  unfolding req_condition_func
  negate c = req_condition_func (λ r. do b ← c.handle_req r; pure (not b))

  -- A ReqCondition where a RespCondition is asked for.
  abbrev pub as_resp_condition : ReqCondition E → RespCondition E
  as_resp_condition c = record { handle_resp = c.handle_resp }

  -- A condition that only looks at the response, as StatusCodeIs and ContentTypeIs.
  unfoldable pub response_test : (Option Response → Bool) → RespCondition E
  response_test t = record {
    handle_resp = λ resp. gets (λ w. t (elim resp [ none ↦ none | some p ↦ some (w.responses p) ]));
  }

  -- `for _, cond := range reqConds { if !cond.HandleReq(r, ctx) { … } }`
  unfoldable pub all_req : List (ReqCondition E) → ReqRef → Action (World E) Bool
  all_req [] r = pure true
  all_req (c ∷ cs) r = do b ← c.handle_req r; if b then all_req cs r else pure false

  unfoldable pub all_resp : List (RespCondition E) → Option RespRef → Action (World E) Bool
  all_resp [] resp = pure true
  all_resp (c ∷ cs) resp = do b ← c.handle_resp resp; if b then all_resp cs resp else pure false

  -- The closure that ReqProxyConds.Do registers.
  unfoldable pub guarded_req : List (ReqCondition E) → ReqHandler E → ReqHandler E
  unfolding all_req
  guarded_req conds h r = do b ← all_req conds r; if b then h r else pure (some r, none)

  -- ReqProxyConds.Do
  unfoldable pub do_request :
      List (ReqCondition E) → ReqHandler E → ProxyHttpServer E → ProxyHttpServer E
  do_request conds h proxy = record proxy {
    req_handlers = proxy.req_handlers ++ guarded_req conds h ∷ [];
  }

  -- The closure that ReqProxyConds.HandleConnect registers; it tests the request of the context.
  unfoldable pub guarded_connect : List (ReqCondition E) → HttpsHandler E → HttpsHandler E
  unfolding all_req
  guarded_connect conds h host w =
      (do b ← all_req conds w.ctx.req; if b then h host else pure (none, [])) w

  -- ReqProxyConds.HandleConnect
  unfoldable pub handle_connect :
      List (ReqCondition E) → HttpsHandler E → ProxyHttpServer E → ProxyHttpServer E
  handle_connect conds h proxy = record proxy {
    https_handlers = proxy.https_handlers ++ guarded_connect conds h ∷ [];
  }

  -- ReqProxyConds.HijackConnect
  unfoldable pub hijack_connect : List (ReqCondition E) → ℕ → ProxyHttpServer E → ProxyHttpServer E
  unfolding handle_connect
  hijack_connect conds f = handle_connect conds λ host.
      pure (some (record { action = connect_hijack; hijack = some f; tls_config = none }), host)

  -- The closure that ProxyConds.Do registers.
  unfoldable pub guarded_resp :
      List (ReqCondition E) → List (RespCondition E) → RespHandler E → RespHandler E
  unfolding all_req all_resp
  guarded_resp req_conds resp_conds h resp w =
      (do
        a ← all_req req_conds w.ctx.req
        if a then (do b ← all_resp resp_conds resp; if b then h resp else pure resp) else pure resp)
        w

  -- OnResponse(conds).Do
  unfoldable pub do_response :
      List (RespCondition E) → RespHandler E → ProxyHttpServer E → ProxyHttpServer E
  do_response conds h proxy = record proxy {
    resp_handlers = proxy.resp_handlers ++ guarded_resp [] conds h ∷ [];
  }

  -- AlwaysMitm and AlwaysReject, with the shared action that each returns.
  unfoldable pub always : ConnectAction → HttpsHandler E
  always a host = pure (some a, host)

  handle_bytes_of : (Text → Action (World E) Text) → RespRef → ℕ → Action (World E) (Option RespRef)
  handle_bytes_of f p b w = elim (w.bodies b).failure [
    | some e ↦ (ok (some p), drain_body b w)
    | none ↦
        (do
          s ← f (w.bodies b).content
          new ← new_body s
          modify (λ v. put_response p (record (v.responses p) { body = some new }) v)
          pure (some p))
          (close_body b (drain_body b w))
  ]

  -- HandleBytes; a nil response or a nil body is dereferenced.
  unfoldable pub handle_bytes : (Text → Action (World E) Text) → RespHandler E
  unfolding handle_bytes_of
  handle_bytes f none w = panic nil_dereference w
  handle_bytes f (some p) w = elim (w.responses p).body [
    | none ↦ panic nil_dereference w
    | some b ↦ handle_bytes_of f p b w
  ]
