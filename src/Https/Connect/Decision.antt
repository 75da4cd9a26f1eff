-- ===== src/Https/Connect/Decision.antt =====
-- handleHttps: which CONNECT handler decides.
use cffi_proxy.Base.{◌≡◌, refl, Option, none, some, List, [], ◌∷◌, ◌++◌, Text}
use cffi_proxy.Action.{Action, ok, continue_cong}
use cffi_proxy.Http.World.{World}
use cffi_proxy.Dispatcher.{
  ProxyHttpServer, HttpsHandler, ConnectAction, guarded_connect, handle_connect, always,
}
use cffi_proxy.Https.Connect.{decide}

module _ {E : Type 0} where
  abbrev choose :
      Action (World E) (ConnectAction × Text)
      → Option ConnectAction × Text
      → Action (World E) (ConnectAction × Text)
  choose k out = elim out.0 [ some a ↦ (λ w. (ok (a, out.1), w)) | none ↦ k ]

  choose_cong :
      (k k' : Action (World E) (ConnectAction × Text))
      → ((w : World E) → k w ≡ k' w)
      → (out : Option ConnectAction × Text) (w : World E) → choose k out w ≡ choose k' out w
  choose_cong k k' h (some a, host) w = refl
  choose_cong k k' h (none, host) w = h w

  decide-snoc :
      (hs : List (HttpsHandler E)) (a todo : ConnectAction) (host : Text) (w : World E)
      → decide (hs ++ guarded_connect [] (always a) ∷ []) todo host w ≡ decide hs a host w
  unfolding decide guarded_connect always
  decide-snoc [] a todo host w = refl
  decide-snoc (h ∷ hs) a todo host w =
      let k = decide (hs ++ guarded_connect [] (always a) ∷ []) todo host in
      continue_cong (choose k) (choose (decide hs a host)) (h host w)
        (choose_cong k (decide hs a host) (decide-snoc hs a todo host))

  -- A handler that always gives one action, such as AlwaysMitm, registered last and without
  -- conditions, is the default for every CONNECT that no earlier handler decides, in place of the
  -- proxy's own default; and it keeps the host as it came.
  pub decide-handle_connect :
      (proxy : ProxyHttpServer E) (a todo : ConnectAction) (host : Text) (w : World E)
      → decide (handle_connect [] (always a) proxy).https_handlers todo host w
        ≡ decide proxy.https_handlers a host w
  unfolding handle_connect
  decide-handle_connect proxy a todo host w = decide-snoc proxy.https_handlers a todo host w
