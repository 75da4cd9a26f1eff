-- ===== src/Auth/Gate.antt =====
-- Who gets past the authentication, and what happens to the others.
use cffi_proxy.Base.{
  ◌≡◌, refl, sym, ap, ◌∙◌, text_eq_refl, Bool, true, false, Option, none, some, List, [], ◌∷◌, ◌++◌,
  Text, codes, contains, if◌then◌else◌, arith, ℕ, text_eq,
}
use cffi_proxy.Action.{Action, Outcome, ok}
use cffi_proxy.Http.{ReqRef, RespRef, ConnRef, Err}
use cffi_proxy.Http.Headers.{HeaderLib, lookup}
use cffi_proxy.Http.World.{World, put_request, emit, conn_closed}
use cffi_proxy.Dispatcher.{
  ProxyHttpServer, ReqHandler, HttpsHandler, ConnectAction, connect_reject, guarded_req,
  guarded_connect, all_req,
}
use cffi_proxy.Proxy.Filters.{filter_request, filter_request_loop}
use cffi_proxy.Proxy.Network.{Network}
use cffi_proxy.Proxy.Serve.{begin_request, respond, serve_http}
use cffi_proxy.Proxy.Serve.Outcomes.{serve_http_answer}
use cffi_proxy.Https.Tunnels.{Tunnels}
use cffi_proxy.Https.Connect.{reject, act, decide, handle_https}
use cffi_proxy.Auth.{
  colon, space, split_first, credentials, auth, basic, basic_connect, basic_unauthorized,
}

-- A text is split just before the first `c`.
pub split_first-join :
    (c : ℕ) (a b : Text) → contains a c ≡ false → split_first c (a ++ c ∷ b) ≡ some (a, b)
unfolding split_first contains
split_first-join c [] b h = ground arith
split_first-join c (d ∷ a) b h = ground (arith, split_first-join c a b)

-- The value "Basic ", followed by text that decodes to a user, a colon and a password, gives this
-- user and password, if the user has no colon; the password may have some.
pub credentials-join :
    (base64 : Text → Option Text) (user passwd encoded : Text)
    → contains user colon ≡ false
    → base64 encoded ≡ some (user ++ colon ∷ passwd)
    → credentials base64 (codes "Basic" ++ space ∷ encoded) ≡ some (user, passwd)
unfolding credentials
credentials-join base64 user passwd encoded h e =
    ap
      (λ (o : Option (Text × Text)). elim o [
        | none ↦ none
        | some (scheme, rest) ↦
            if text_eq scheme (codes "Basic")
            then elim (base64 rest) [ none ↦ none | some raw ↦ split_first colon raw ]
            else none
      ])
      (split_first-join space (codes "Basic") encoded (unfold contains codes in refl))
    ∙ rw (text_eq_refl (codes "Basic"), e) (split_first-join colon user passwd h)

module _ {E : Type 0} (lib : HeaderLib) (base64 : Text → Option Text) where
  unchecked :
      (test : Text → Text → Bool) (o : Option (Text × Text)) (w : World E)
      → (elim o as (λ _. Action (World E) Bool) [
        | none ↦ (λ v. (ok false, v))
        | some (user, passwd) ↦ (λ v. (ok (test user passwd), v))
      ]
          w).1
        ≡ w
  unchecked test none w = refl
  unchecked test (some (user, passwd)) w = refl

  -- After a check that says yes or no without changing anything, the request no longer has a
  -- Proxy-Authorization header, and no other header of it has changed.
  pub auth-hides :
      (test : Text → Text → Bool) (r : ReqRef) (w : World E) (k : Text)
      → let out = auth lib base64 (λ user passwd v. (ok (test user passwd), v)) r w in
        lookup k (out.1.requests r).header
        ≡ (if text_eq (codes "Proxy-Authorization") k then none else lookup k (w.requests r).header)
  unfolding auth
  auth-hides test r w k =
      ap (λ (v : World E). lookup k (v.requests r).header)
        (unchecked test
          (credentials base64 (lib.get (w.requests r).header (codes "Proxy-Authorization")))
          (put_request r
            (record (w.requests r) {
              header = lib.del (w.requests r).header (codes "Proxy-Authorization");
            })
            w))
      ∙ ground (
        arith,
        lib.lookup-del (w.requests r).header (codes "Proxy-Authorization") k,
        lib.standard.1.1.1.0,
      )

  -- If the check fails, the first handler Basic ends the filtering of the request: no later
  -- handler is called, and the answer is a new response with the status 407.
  basic-refuses :
      (realm : Text) (f : Text → Text → Action (World E) Bool) (hs : List (ReqHandler E))
      (r : ReqRef) (w w' : World E)
      → auth lib base64 f r w ≡ (ok false, w')
      → let out = filter_request (guarded_req [] (basic lib base64 realm f) ∷ hs) r w in
        (out.0 ≡ ok (none, some w'.next_response))
        × ((out.1.responses w'.next_response).status_code ≡ 407)
  unfolding filter_request filter_request_loop guarded_req all_req basic basic_unauthorized
  basic-refuses realm f hs r w w' h = rw h (refl, ground arith)

  -- The request handlers, with Basic as the first of them.
  abbrev pub gated :
      Text
      → (Text → Text → Action (World E) Bool)
      → ProxyHttpServer E
      → List (ReqHandler E)
      → ProxyHttpServer E
  gated realm f proxy hs = record proxy {
    req_handlers = guarded_req [] (basic lib base64 realm f) ∷ hs;
  }

  basic_alone :
      (realm : Text) (f : Text → Text → Action (World E) Bool) (hs : List (ReqHandler E))
      (r : ReqRef) (w w' : World E)
      → auth lib base64 f r w ≡ (ok false, w')
      → filter_request (guarded_req [] (basic lib base64 realm f) ∷ hs) r w
        ≡ filter_request (guarded_req [] (basic lib base64 realm f) ∷ []) r w
  unfolding filter_request filter_request_loop guarded_req all_req basic basic_unauthorized
  basic_alone realm f hs r w w' h = rw h refl

  gated-answers :
      (proxy : ProxyHttpServer E) (realm : Text) (f : Text → Text → Action (World E) Bool)
      (hs : List (ReqHandler E)) (net : Network E) (r : ReqRef) (w w' : World E)
      → text_eq (w.requests r).url.scheme [] ≡ false
      → auth lib base64 f r (begin_request r w) ≡ (ok false, w')
      → let out =
          filter_request (guarded_req [] (basic lib base64 realm f) ∷ []) r (begin_request r w) in
        serve_http lib net (gated realm f proxy hs) r w
        ≡ respond lib proxy none (some w'.next_response) out.1
  unfolding respond
  gated-answers proxy realm f hs net r w w' absolute h =
      let out =
        filter_request (guarded_req [] (basic lib base64 realm f) ∷ []) r (begin_request r w) in
      let (answered, _) = basic-refuses realm f [] r (begin_request r w) w' h in
      serve_http_answer lib (gated realm f proxy hs) net r none w'.next_response w out.1 absolute (
        basic_alone realm f hs r (begin_request r w) w' h
        ∙ ap (λ (o : Outcome (Option ReqRef × Option RespRef)). (o, out.1)) answered)

  -- If Basic is the first request handler and its check fails, nothing depends on the network and
  -- the other request handlers: with any others and on any network, the same is done.
  pub basic-blocks :
      (proxy : ProxyHttpServer E) (realm : Text) (f : Text → Text → Action (World E) Bool)
      (hs hs' : List (ReqHandler E)) (net net' : Network E) (r : ReqRef) (w w' : World E)
      → text_eq (w.requests r).url.scheme [] ≡ false
      → auth lib base64 f r (begin_request r w) ≡ (ok false, w')
      → serve_http lib net (gated realm f proxy hs) r w
        ≡ serve_http lib net' (gated realm f proxy hs') r w
  basic-blocks proxy realm f hs hs' net net' r w w' absolute h =
      gated-answers proxy realm f hs net r w w' absolute h
      ∙ sym (gated-answers proxy realm f hs' net' r w w' absolute h)

  -- What a CONNECT that is refused leaves: the answer stands in the context.
  abbrev refused : ReqRef → Text → World E → World E
  refused r realm w =
      let v = (basic_unauthorized lib base64 r realm w).1 in
      record v { ctx = record (v.ctx) { resp = some w.next_response } }

  decide-refuses :
      (todo refusal : ConnectAction) (realm host : Text) (f : Text → Text → Action (World E) Bool)
      (hs : List (HttpsHandler E)) (w w' : World E)
      → auth lib base64 f w.ctx.req w ≡ (ok false, w')
      → decide (guarded_connect [] (basic_connect lib base64 refusal realm f) ∷ hs) todo host w
        ≡ (ok (refusal, host), refused w.ctx.req realm w')
  unfolding decide guarded_connect all_req basic_connect basic_unauthorized
  decide-refuses todo refusal realm host f hs w w' g = rw g refl

  -- If BasicConnect is the first CONNECT handler, its action is to reject and its check fails, then
  -- whatever error the writing of the answer reports, a CONNECT ends without a panic, with the closing
  -- of the client's connection as the last of all. What is written to the client, before that, is a
  -- new response with the status 407, which also stands in the context. From the check to that writing
  -- no event happens, and no handler after BasicConnect is asked.
  pub basic_connect-rejects :
      (net : Network E) (tun : Tunnels E) (proxy : ProxyHttpServer E) (n : ℕ)
      (ok_connect refusal : ConnectAction) (realm : Text) (f : Text → Text → Action (World E) Bool)
      (hs : List (HttpsHandler E)) (r : ReqRef) (client : ConnRef) (err : Option Err)
      (w w' w'' u : World E)
      → proxy.https_handlers ≡ guarded_connect [] (basic_connect lib base64 refusal realm f) ∷ hs
      → refusal.action ≡ connect_reject
      → net.can_hijack ≡ true
      → net.hijack (begin_request r w) ≡ (ok (client, none), w')
      → auth lib base64 f w'.ctx.req w' ≡ (ok false, w'')
      → net.write_response w''.next_response client (refused w'.ctx.req realm w'') ≡ (ok err, u)
      → let v = refused w'.ctx.req realm w'' in
        (handle_https lib net tun proxy n ok_connect r w ≡ (ok tt, emit (conn_closed client) u))
        × (v.ctx.resp ≡ some w''.next_response)
        × ((v.responses w''.next_response).status_code ≡ 407)
        × (v.events ≡ w''.events)
  unfolding handle_https act reject basic_unauthorized
  basic_connect-rejects net tun proxy n ok_connect refusal realm f hs r client err w w' w'' u e a c
        h g writes =
      let decided =
        ap (λ hs'. decide hs' ok_connect (w'.requests r).url.host w') e
        ∙ decide-refuses ok_connect refusal realm (w'.requests r).url.host f hs w' w'' g in
      (rw (c, h, decided, a, writes) refl, refl, ground arith, refl)
