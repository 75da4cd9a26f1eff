-- ===== src/Proxy/Filters.antt =====
-- goproxy/proxy.go, filterRequest and filterResponse.
pub mod Order
pub mod Registered
use cffi_proxy.Base.{Option, none, some, List, [], ◌∷◌}
use cffi_proxy.Action.{Action, pure, modify, ◌>>=◌, ◌>>◌}
use cffi_proxy.Http.{ReqRef, RespRef}
use cffi_proxy.Http.World.{World}
use cffi_proxy.Dispatcher.{ReqHandler, RespHandler}

module _ {E : Type 0} where
  unfoldable pub filter_request_loop :
      List (ReqHandler E)
      → ReqRef
      → Option ReqRef × Option RespRef
      → Action (World E) (Option ReqRef × Option RespRef)
  filter_request_loop [] r acc = pure acc
  filter_request_loop (h ∷ hs) r acc = do
    out ← h r
    elim out.1 [ some resp ↦ pure out | none ↦ filter_request_loop hs r out ]

  -- Every handler is called with `r`, the request as it came.
  unfoldable pub filter_request :
      List (ReqHandler E) → ReqRef → Action (World E) (Option ReqRef × Option RespRef)
  unfolding filter_request_loop
  filter_request hs r = filter_request_loop hs r (some r, none)

  unfoldable pub filter_response : List (RespHandler E) → RespHandler E
  filter_response [] resp = pure resp
  filter_response (h ∷ hs) resp = do
    modify (λ w. record w { ctx = record (w.ctx) { resp = resp } })
    resp' ← h resp
    filter_response hs resp'
