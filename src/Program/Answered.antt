-- ===== src/Program/Answered.antt =====
-- main.go: the program's request handler answers every request, or panics.
use cffi_proxy.Base.{◌≡◌, refl, Option, none, some}
use cffi_proxy.Action.{Outcome, ok, panics}
use cffi_proxy.Http.{ReqRef, RespRef, Err}
use cffi_proxy.Http.Headers.{HeaderLib}
use cffi_proxy.Http.World.{World}
use cffi_proxy.Dispatcher.{ConnectAction, guarded_req, handle_connect, do_request, do_response}
use cffi_proxy.Proxy.Filters.{filter_request}
use cffi_proxy.Program.Relaying.{refused, program-filter_request, program-refuses}
use cffi_proxy.Program.{TlsClient, transport_handle_request, handle_request, program}

-- The result of request handlers of which one has answered or panicked.
abbrev pub answered : Outcome (Option ReqRef × RespRef) → Outcome (Option ReqRef × Option RespRef)
answered (ok (r, p)) = ok (r, some p)
answered (panics x) = panics x

module _ {E : Type 0} (lib : HeaderLib) (tls : TlsClient E) (todo : ConnectAction) where
  abbrev pub Answers : ReqRef → World E → Type 0
  Answers r w =
      (o : Outcome (Option ReqRef × RespRef)) × (v : World E) × (filter_request
          (program lib tls todo).req_handlers r w
        ≡ (answered o, v))

  Answers-result :
      (r : ReqRef) (w : World E) (sent : Outcome (RespRef × Option Err)) (v : World E)
      → transport_handle_request tls r w ≡ (sent, v)
      → Answers r w
  unfolding program handle_connect do_request do_response filter_request guarded_req handle_request
  Answers-result r w (panics x) v e = (panics x, v, rw e refl)
  Answers-result r w (ok (p, none)) v e =
      (ok (none, p), v, program-filter_request lib tls todo r p w v e)
  Answers-result r w (ok (p, some x)) v e = (
    ok (some r, v.next_response),
    refused lib tls todo r x v,
    program-refuses lib tls todo r p x w v e,
  )

  pub program-Answers : (r : ReqRef) (w : World E) → Answers r w
  program-Answers r w =
      let (sent, v) = transport_handle_request tls r w in Answers-result r w sent v refl
