-- ===== src/Proxy/Filters/Order.antt =====
-- The order in which filterRequest and filterResponse call their handlers, and what each is given.
use cffi_proxy.Base.{◌≡◌, refl, Option, none, some, List, [], ◌∷◌, ◌++◌, sym, ◌∙◌}
use cffi_proxy.Action.{
  Action, Outcome, ok, panics, pure, continue, continue_cong, continue_assoc, ◌>>=◌,
}
use cffi_proxy.Http.{ReqRef, RespRef}
use cffi_proxy.Http.World.{World}
use cffi_proxy.Dispatcher.{ReqHandler, RespHandler}
use cffi_proxy.Proxy.Filters.{filter_request_loop, filter_request, filter_response}

module _ {E : Type 0} where
  -- The rest of the loop after an outcome of the handlers before.
  abbrev pub unless_answered :
      List (ReqHandler E)
      → ReqRef
      → Option ReqRef × Option RespRef
      → Action (World E) (Option ReqRef × Option RespRef)
  unless_answered ks r out = elim out.1 [
    | some resp ↦ pure out
    | none ↦ filter_request_loop ks r out
  ]

  answered_or :
      (hs ks : List (ReqHandler E)) (r : ReqRef) (out : Option ReqRef × Option RespRef)
      (v : World E)
      → ((q : Option ReqRef)
          → filter_request_loop (hs ++ ks) r (q, none) v
            ≡ (do x ← filter_request_loop hs r (q, none); unless_answered ks r x) v)
      → unless_answered (hs ++ ks) r out v
        ≡ (do x ← unless_answered hs r out; unless_answered ks r x) v
  answered_or hs ks r (q, none) v ih = ih q
  answered_or hs ks r (q, some p) v ih = refl

  loop-append :
      (hs ks : List (ReqHandler E)) (r : ReqRef) (acc : Option ReqRef) (w : World E)
      → filter_request_loop (hs ++ ks) r (acc, none) w
        ≡ (do out ← filter_request_loop hs r (acc, none); unless_answered ks r out) w
  unfolding filter_request_loop
  loop-append [] ks r acc w = refl
  loop-append (h ∷ hs) ks r acc w =
      continue_cong (unless_answered (hs ++ ks) r) _ (h r w)
        (λ out v. answered_or hs ks r out v (λ q. loop-append hs ks r q v))
      ∙ sym (continue_assoc (unless_answered hs r) (unless_answered ks r) (h r w))

  abbrev pub answer_or_call :
      ReqHandler E
      → ReqRef
      → Option ReqRef × Option RespRef
      → Action (World E) (Option ReqRef × Option RespRef)
  answer_or_call h r out = elim out.1 [ some resp ↦ pure out | none ↦ h r ]

  end_of_loop :
      (r : ReqRef) (x : Outcome (Option ReqRef × Option RespRef) × World E)
      → continue (unless_answered [] r) x.0 x.1 ≡ x
  unfolding filter_request_loop
  end_of_loop r (ok (q, none), v) = refl
  end_of_loop r (ok (q, some p), v) = refl
  end_of_loop r (panics p, v) = refl

  last_call :
      (h : ReqHandler E) (r : ReqRef) (out : Option ReqRef × Option RespRef) (v : World E)
      → unless_answered (h ∷ []) r out v ≡ answer_or_call h r out v
  unfolding filter_request_loop
  last_call h r (q, none) v = end_of_loop r (h r v)
  last_call h r (q, some p) v = refl

  -- A handler registered last is called, with the request as it came to the proxy, unless a handler
  -- before it has answered; what those handlers return as the request is then dropped.
  pub filter_request-snoc :
      (hs : List (ReqHandler E)) (h : ReqHandler E) (r : ReqRef) (w : World E)
      → filter_request (hs ++ h ∷ []) r w ≡ (do out ← filter_request hs r; answer_or_call h r out) w
  unfolding filter_request
  filter_request-snoc hs h r w =
      loop-append hs (h ∷ []) r (some r) w
      ∙ continue_cong (unless_answered (h ∷ []) r) (answer_or_call h r) (filter_request hs r w)
          (last_call h r)

  -- Response handlers run in the order of registration, each on what the one before returned.
  pub filter_response-append :
      (hs ks : List (RespHandler E)) (resp : Option RespRef) (w : World E)
      → filter_response (hs ++ ks) resp w
        ≡ (do out ← filter_response hs resp; filter_response ks out) w
  unfolding filter_response
  filter_response-append [] ks resp w = refl
  filter_response-append (h ∷ hs) ks resp w =
      let x = h resp (record w { ctx = record (w.ctx) { resp = resp } }) in
      continue_cong (filter_response (hs ++ ks)) _ x (λ q v. filter_response-append hs ks q v)
      ∙ sym (continue_assoc (filter_response hs) (filter_response ks) x)
