-- ===== src/Auth.antt =====
-- goproxy/ext/auth/basic.go: proxy authentication by a name and a password.
pub mod Gate
pub mod Inner
use cffi_proxy.Base.{
  ℕ, Bool, true, false, Option, none, some, List, [], ◌∷◌, ◌++◌, Text, codes, text_eq, ◌==◌,
  if◌then◌else◌,
}
use cffi_proxy.Action.{Action, pure, modify, gets, ◌>>=◌, ◌>>◌}
use cffi_proxy.Http.{ReqRef, RespRef}
use cffi_proxy.Http.Headers.{HeaderLib}
use cffi_proxy.Http.World.{World, put_request, new_body, alloc_response}
use cffi_proxy.Dispatcher.{
  ReqHandler, HttpsHandler, ConnectAction, connect_reject, ProxyHttpServer, do_request,
  handle_connect,
}

abbrev pub colon : ℕ
colon = 58

abbrev pub space : ℕ
space = 32

-- strings.SplitN(s, c, 2): what comes before the first `c` and what comes after it, if there is one.
unfoldable pub split_first : ℕ → Text → Option (Text × Text)
split_first c [] = none
split_first c (d ∷ s) =
    if d == c
    then some ([], s)
    else elim (split_first c s) [ none ↦ none | some (a, b) ↦ some (d ∷ a, b) ]

-- The user and the password in a Proxy-Authorization value; `base64` is StdEncoding.DecodeString.
unfoldable pub credentials : (Text → Option Text) → Text → Option (Text × Text)
unfolding split_first
credentials base64 value = elim (split_first space value) [
  | none ↦ none
  | some (scheme, encoded) ↦
      if text_eq scheme (codes "Basic")
      then elim (base64 encoded) [ none ↦ none | some raw ↦ split_first colon raw ]
      else none
]

module _ {E : Type 0} (lib : HeaderLib) (base64 : Text → Option Text) where
  -- auth: the header is removed from the request in any case.
  unfoldable pub auth : (Text → Text → Action (World E) Bool) → ReqRef → Action (World E) Bool
  unfolding credentials
  auth f r = do
    value ← gets (λ w. lib.get (w.requests r).header (codes "Proxy-Authorization"))
    modify (λ w.
        let req = w.requests r in
        put_request r (record req { header = lib.del req.header (codes "Proxy-Authorization") }) w)
    elim (credentials base64 value) [ none ↦ pure false | some (user, passwd) ↦ f user passwd ]

  -- BasicUnauthorized
  unfoldable pub basic_unauthorized : ReqRef → Text → Action (World E) RespRef
  basic_unauthorized r realm = do
    body ← new_body (codes "407 Proxy Authentication Required")
    alloc_response (record {
      status = [];
      status_code = 407;
      header = some (
          (codes "Proxy-Authenticate", (codes "Basic realm=" ++ realm) ∷ [])
          ∷ (codes "Proxy-Connection", codes "close" ∷ [])
          ∷ []);
      body = some body;
      request = some r;
    })

  -- Basic
  unfoldable pub basic : Text → (Text → Text → Action (World E) Bool) → ReqHandler E
  unfolding auth basic_unauthorized
  basic realm f r = do
    allowed ← auth f r
    if allowed then pure (some r, none) else do p ← basic_unauthorized r realm; pure (none, some p)

  -- BasicConnect; `reject` is goproxy.RejectConnect, whose TLS configuration is not used.
  unfoldable pub basic_connect :
      ConnectAction → Text → (Text → Text → Action (World E) Bool) → HttpsHandler E
  unfolding auth basic_unauthorized
  basic_connect reject realm f host w =
      let r = w.ctx.req in
      (do
        allowed ← auth f r
        if allowed then pure (none, host) else do
          p ← basic_unauthorized r realm
          modify (λ v. record v { ctx = record (v.ctx) { resp = some p } })
          pure (some reject, host))
        w

  -- ProxyBasic
  unfoldable pub proxy_basic :
      ConnectAction
      → Text
      → (Text → Text → Action (World E) Bool)
      → ProxyHttpServer E
      → ProxyHttpServer E
  unfolding basic basic_connect
  proxy_basic reject realm f proxy =
      handle_connect [] (basic_connect reject realm f) (do_request [] (basic realm f) proxy)
