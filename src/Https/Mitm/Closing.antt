-- ===== src/Https/Mitm/Closing.antt =====
-- A round of the loop over an intercepted client: what it closes.
use cffi_proxy.Base.{◌≡◌, true, false, suc, Option, some, Text, ℕ, arith}
use cffi_proxy.Action.{ok}
use cffi_proxy.Http.{ReqRef, RespRef, BodyRef, ConnRef, Err}
use cffi_proxy.Http.Headers.{HeaderLib}
use cffi_proxy.Http.World.{World}
use cffi_proxy.Dispatcher.{ProxyHttpServer}
use cffi_proxy.Proxy.Filters.{filter_response}
use cffi_proxy.Proxy.Network.{Network}
use cffi_proxy.Https.Tunnels.{Tunnels, is_eof}
use cffi_proxy.Https.Mitm.{mitm_round, take_request, mitm_rounds}

module _ {E : Type 0} (lib : HeaderLib) (net : Network E) (tun : Tunnels E)
    (proxy : ProxyHttpServer E) (host : Text) (outer : ReqRef) (config : ℕ) (client : ConnRef) where
  -- If a round has a response after the response handlers, the body of this response is closed when
  -- the loop has ended, whatever the writing of the answer and all later rounds do, also if they panic.
  pub mitm_rounds-closes :
      (n : ℕ) (read : Option ReqRef × Option Err) (p p' : RespRef) (b : BodyRef)
      (w w₁ w₂ w₃ w₄ : World E)
      → is_eof tun client w ≡ (ok false, w₁)
      → tun.read_request client w₁ ≡ (ok read, w₂)
      → take_request lib net tun proxy host outer config client read w₂ ≡ (ok (some p), w₃)
      → filter_response proxy.resp_handlers (some p) w₃ ≡ (ok (some p'), w₄)
      → (w₄.responses p').body ≡ some b
      → ((mitm_rounds lib net tun proxy host outer config client (suc n) w).1.bodies b).is_closed
        ≡ true
  unfolding mitm_rounds mitm_round
  mitm_rounds-closes n read p p' b w w₁ w₂ w₃ w₄ e r t f h = rw (e, r, t, f, h) (ground arith)
