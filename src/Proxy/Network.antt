-- ===== src/Proxy/Network.antt =====
-- The network and the client as the proxy calls them; goproxy/ctx.go, RoundTrip.
use cffi_proxy.Base.{ℕ, Option, none, some, Bool, Text}
use cffi_proxy.Action.{Action}
use cffi_proxy.Http.{ReqRef, RespRef, ConnRef, Err}
use cffi_proxy.Http.World.{World}

-- What the proxy calls and does not implement: the transports, the handler for requests that are
-- no proxy requests, the dialler and the reading and writing of messages on connections.
pub record Network (E : Type 0) : Type 0 where
  -- proxy.Tr.RoundTrip
  pub round_trip : ReqRef → Action (World E) (Option RespRef × Option Err)
  -- ctx.RoundTripper.RoundTrip, for the function of that identity
  pub call_round_tripper : ℕ → ReqRef → Action (World E) (Option RespRef × Option Err)
  pub nonproxy_handler : ReqRef → Action (World E) (Unit {0})
  -- proxy.connectDial
  pub connect_dial : Text → Action (World E) (Option ConnRef × Option Err)
  -- whether the response writer is an http.Hijacker, and Hijack
  pub can_hijack : Bool
  pub hijack : Action (World E) (ConnRef × Option Err)
  pub write_request : ReqRef → ConnRef → Action (World E) (Option Err)
  pub read_response : ConnRef → ReqRef → Action (World E) (Option RespRef × Option Err)
  pub write_response : RespRef → ConnRef → Action (World E) (Option Err)

module _ {E : Type 0} (net : Network E) where
  -- ProxyCtx.RoundTrip
  unfoldable pub ctx_round_trip : ReqRef → Action (World E) (Option RespRef × Option Err)
  ctx_round_trip r w = elim w.ctx.round_tripper [
    | some rt ↦ net.call_round_tripper rt r w
    | none ↦ net.round_trip r w
  ]
