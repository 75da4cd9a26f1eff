-- ===== src/Proxy/Filters/Registered.antt =====
-- The handlers that ReqProxyConds.Do and ProxyConds.Do register, run by the filters.
use cffi_proxy.Base.{
  ◌≡◌, refl, Bool, true, false, Option, none, some, List, [], ◌∷◌, map, all, if◌then◌else◌,
  Bool-cases, inl, inr,
}
use cffi_proxy.Action.{Action, Outcome, ok, panics, pure, continue}
use cffi_proxy.Http.{ReqRef, RespRef, Request, Response}
use cffi_proxy.Http.World.{World}
use cffi_proxy.Dispatcher.{
  ReqHandler, RespHandler, ProxyHttpServer, request_test, response_test, all_req, all_resp,
  guarded_req, do_request, guarded_resp, do_response,
}
use cffi_proxy.Proxy.Filters.{filter_request, filter_response}
use cffi_proxy.Proxy.Filters.Order.{filter_request-snoc, filter_response-append}

branch :
    {S A : Type 0} (b : Bool) (m n : Action S A) (s : S)
    → (if b then m else n) s ≡ (if b then m s else n s)
branch true m n s = refl
branch false m n s = refl

module _ {E : Type 0} where
  all_req-tests :
      (ts : List (Request → Bool)) (r : ReqRef) (w : World E)
      → all_req (map request_test ts) r w ≡ (ok (all (λ t. t (w.requests r)) ts), w)
  unfolding all_req request_test
  all_req-tests [] r w = refl
  all_req-tests (t ∷ ts) r w = elim (Bool-cases (t (w.requests r))) [
    | inl holds ↦ rw holds (all_req-tests ts r w)
    | inr fails ↦ rw fails
  ]

  abbrev seen : World E → Option RespRef → Option Response
  seen w none = none
  seen w (some p) = some (w.responses p)

  all_resp-tests :
      (ts : List (Option Response → Bool)) (resp : Option RespRef) (w : World E)
      → all_resp (map response_test ts) resp w ≡ (ok (all (λ t. t (seen w resp)) ts), w)
  unfolding all_resp response_test
  all_resp-tests [] resp w = refl
  all_resp-tests (t ∷ ts) resp w = elim (Bool-cases (t (seen w resp))) [
    | inl holds ↦ rw holds (all_resp-tests ts resp w)
    | inr fails ↦ rw fails
  ]

  -- If the handlers before have not answered, a handler registered under tests of the request is
  -- called exactly if all tests hold; if one fails, the request goes on as it came and nothing changes.
  pub filter_request-do_request :
      (proxy : ProxyHttpServer E) (ts : List (Request → Bool)) (h : ReqHandler E) (r : ReqRef)
      (q : Option ReqRef) (w w' : World E)
      → filter_request proxy.req_handlers r w ≡ (ok (q, none), w')
      → filter_request (do_request (map request_test ts) h proxy).req_handlers r w
        ≡ (if all (λ t. t (w'.requests r)) ts then h r w' else (ok (some r, none), w'))
  unfolding do_request guarded_req
  filter_request-do_request proxy ts h r q w w' e =
      rw
        (
          filter_request-snoc proxy.req_handlers (guarded_req (map request_test ts) h) r w,
          e,
          all_req-tests ts r w',
        )
        (branch (all (λ t. t (w'.requests r)) ts) (h r) (pure (some r, none)) w')

  continue-pure : {A : Type 0} (x : Outcome A × World E) → continue (λ a. pure a) x.0 x.1 ≡ x
  continue-pure (ok a, s) = refl
  continue-pure (panics p, s) = refl

  filter_response-one :
      (h : RespHandler E) (q : Option RespRef) (w : World E)
      → filter_response (h ∷ []) q w ≡ h q (record w { ctx = record (w.ctx) { resp = q } })
  unfolding filter_response
  filter_response-one h q w = continue-pure (h q (record w { ctx = record (w.ctx) { resp = q } }))

  guarded_resp-tests :
      (ts : List (Option Response → Bool)) (h : RespHandler E) (q : Option RespRef) (v : World E)
      → guarded_resp [] (map response_test ts) h q v
        ≡ (if all (λ t. t (seen v q)) ts then h q v else (ok q, v))
  unfolding guarded_resp all_req
  guarded_resp-tests ts h q v =
      rw (all_resp-tests ts q v) (branch (all (λ t. t (seen v q)) ts) (h q) (pure q) v)

  -- A response handler registered last, under tests of the response, is called exactly if all of them
  -- hold of the response that the handlers before have returned, nil included; it is given that
  -- response, which also stands in the context, and if a test fails this is the result.
  pub filter_response-do_response :
      (proxy : ProxyHttpServer E) (ts : List (Option Response → Bool)) (h : RespHandler E)
      (resp q : Option RespRef) (w w' : World E)
      → filter_response proxy.resp_handlers resp w ≡ (ok q, w')
      → filter_response (do_response (map response_test ts) h proxy).resp_handlers resp w ≡ (
          let v = record w' { ctx = record (w'.ctx) { resp = q } } in
          if all (λ t. t (seen v q)) ts then h q v else (ok q, v))
  unfolding do_response guarded_resp
  filter_response-do_response proxy ts h resp q w w' e =
      rw
        (
          filter_response-append proxy.resp_handlers (guarded_resp [] (map response_test ts) h ∷ [])
              resp w,
          e,
          filter_response-one (guarded_resp [] (map response_test ts) h) q w',
        )
        (guarded_resp-tests ts h q (record w' { ctx = record (w'.ctx) { resp = q } }))
