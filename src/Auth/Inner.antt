-- ===== src/Auth/Inner.antt =====
-- goproxy/ext/auth/basic.go with goproxy/https.go: authentication and interception.
use cffi_proxy.Base.{
  ◌≡◌, refl, Bool, false, none, some, List, [], ◌∷◌, Text, codes, arith, ℕ, Option,
}
use cffi_proxy.Action.{Action, ok}
use cffi_proxy.Http.{ReqRef, ConnRef}
use cffi_proxy.Http.Headers.{HeaderLib}
use cffi_proxy.Http.World.{World, put_request, update_self}
use cffi_proxy.Dispatcher.{ProxyHttpServer, ReqHandler, guarded_req, all_req}
use cffi_proxy.Proxy.Filters.{filter_request, filter_request_loop}
use cffi_proxy.Proxy.Network.{Network}
use cffi_proxy.Proxy.Serve.{begin_request}
use cffi_proxy.Https.Tunnels.{Tunnels}
use cffi_proxy.Https.Mitm.{inner_request, take_request}
use cffi_proxy.Auth.{split_first, credentials, auth, basic, basic_unauthorized}

module _ {E : Type 0} (lib : HeaderLib) (base64 : Text → Option Text) where
  abbrev without_header : ReqRef → World E → World E
  without_header r w =
      put_request r
        (record (w.requests r) {
          header = lib.del (w.requests r).header (codes "Proxy-Authorization");
        })
        w

  -- Without the header the check is not even asked.
  auth-absent :
      (f : Text → Text → Action (World E) Bool) (r : ReqRef) (w : World E)
      → lib.get (w.requests r).header (codes "Proxy-Authorization") ≡ []
      → auth lib base64 f r w ≡ (ok false, without_header r w)
  unfolding auth credentials split_first
  auth-absent f r w h = rw h refl

  basic-absent :
      (realm : Text) (f : Text → Text → Action (World E) Bool) (hs : List (ReqHandler E))
      (r : ReqRef) (w : World E)
      → lib.get (w.requests r).header (codes "Proxy-Authorization") ≡ []
      → (v : World E) × (filter_request (guarded_req [] (basic lib base64 realm f) ∷ hs) r w
          ≡ (ok (none, some w.next_response), v))
        × ((v.responses w.next_response).status_code ≡ 407)
        × (v.events ≡ w.events)
  unfolding filter_request filter_request_loop guarded_req all_req basic basic_unauthorized
  basic-absent realm f hs r w h =
      let e = auth-absent f r w h in
      (
        (basic_unauthorized lib base64 r realm (without_header r w)).1,
        rw e refl,
        ground arith,
        refl,
      )

  -- If Basic is the first request handler, a request without a Proxy-Authorization header that is read
  -- inside an intercepted connection is answered with a new response of the status 407, and is not sent
  -- on; whatever the check says of any credentials, and so also after a CONNECT that it has accepted.
  pub take_request-unauthorized :
      (net : Network E) (tun : Tunnels E) (proxy : ProxyHttpServer E) (host : Text) (outer : ReqRef)
      (config : ℕ) (client : ConnRef) (realm : Text) (f : Text → Text → Action (World E) Bool)
      (hs : List (ReqHandler E)) (r : ReqRef) (w : World E)
      → proxy.req_handlers ≡ guarded_req [] (basic lib base64 realm f) ∷ hs
      → lib.get (w.requests r).header (codes "Proxy-Authorization") ≡ []
      → (v : World E) × (take_request lib net tun proxy host outer config client (some r, none) w
          ≡ (ok (some w.next_response), v))
        × ((v.responses w.next_response).status_code ≡ 407)
        × (v.events ≡ w.events)
  unfolding take_request inner_request begin_request
  take_request-unauthorized net tun proxy host outer config client realm f hs r w e h =
      let w₁ = begin_request r w in
      let w₂ =
        put_request r
          (inner_request lib net tun proxy host outer config client (w₁.requests outer)
            (w₁.requests r))
          w₁ in
      let same : (w₂.requests r)
          ≡ inner_request lib net tun proxy host outer config client (w₁.requests outer)
              (w₁.requests r) =
        update_self w₁.requests r _ in
      let (v, run, status, quiet) = basic-absent realm f hs r w₂ (rw same h) in
      (v, rw (e, run) refl, status, quiet)
