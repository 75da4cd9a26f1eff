-- ===== src/Tests/Tunnelling.antt =====
-- CONNECT, authentication and addresses, at the small proxy.
use cffi_proxy.Base.{
  ◌≡◌, refl, Bool, true, false, Option, none, some, [], ◌∷◌, Text, codes, text_eq, contains,
}
use cffi_proxy.Action.{Action, ok, pure}
use cffi_proxy.Http.{Request, Response}
use cffi_proxy.Http.Headers.{Header, lookup, values, first_value}
use cffi_proxy.Http.Headers.Mime.{mime, canonical_key}
use cffi_proxy.Http.World.{emit, conn_closed}
use cffi_proxy.Dispatcher.{ProxyHttpServer, guarded_req, guarded_connect}
use cffi_proxy.Proxy.Serve.{begin_request, serve_http}
use cffi_proxy.Https.Mitm.{take_request}
use cffi_proxy.Https.Upstream.{Dialers, Upstream, read_all, ask_upstream}
use cffi_proxy.Https.Upstream.Refusal.{ask_upstream-answered}
use cffi_proxy.Auth.{credentials, split_first, auth, basic, basic_connect}
use cffi_proxy.Auth.Inner.{take_request-unauthorized}
use cffi_proxy.Auth.Gate.{gated, basic-blocks, basic_connect-rejects}
use cffi_proxy.Https.Address.{strip_port, strip_port-IPv6}
use cffi_proxy.Https.Answer.{write_mitm}
use cffi_proxy.Https.Answer.Sent.{write_mitm-sends}
use cffi_proxy.Https.Connect.{handle_https}
use cffi_proxy.Tests.Values.{
  State, small_request, small_world, small_net, small_tunnels, small_proxy, passes, answers,
  reject_action, mitm_action,
}

-- A decoder that returns what it is given.
abbrev plain : Text → Option Text
plain t = some t

abbrev never : Text → Text → Action State Bool
never user passwd = pure false

abbrev refused_world : State
refused_world = (auth mime plain never 0 (begin_request 0 small_world)).1

never_refuses : auth mime plain never 0 (begin_request 0 small_world) ≡ (ok false, refused_world)
unfolding auth credentials begin_request lookup split_first codes text_eq
    cffi_proxy.Http.Headers.Mime.capitals
never_refuses = refl

abbrev anyone : Text → Text → Action State Bool
anyone user passwd = pure true

abbrev open_proxy : ProxyHttpServer (Unit {0})
open_proxy = small_proxy (guarded_req [] (basic mime plain (82 ∷ []) anyone) ∷ []) [] []

basic-blocks_example :
    serve_http mime (small_net true) (gated mime plain (82 ∷ []) never open_proxy []) 0 small_world
    ≡ serve_http mime
        (small_net false)
        (gated mime plain (82 ∷ []) never open_proxy (passes ∷ answers ∷ []))
        0
        small_world
unfolding text_eq
basic-blocks_example =
    basic-blocks mime plain open_proxy (82 ∷ []) never [] (passes ∷ answers ∷ []) (small_net true)
      (small_net false) 0 small_world refused_world refl never_refuses

take_request-unauthorized_example :
    (v : State) × (take_request mime
        (small_net false)
        small_tunnels
        open_proxy
        []
        1
        0
        5
        (some 0, none)
        small_world
      ≡ (ok (some 7), v))
    × ((v.responses 7).status_code ≡ 407)
    × (v.events ≡ [])
unfolding lookup codes text_eq cffi_proxy.Http.Headers.Mime.capitals
take_request-unauthorized_example =
    take_request-unauthorized mime plain (small_net false) small_tunnels open_proxy [] 1 0 5
      (82 ∷ []) anyone [] 0 small_world refl refl

abbrev guarded_proxy : ProxyHttpServer (Unit {0})
guarded_proxy =
    small_proxy [] []
      (guarded_connect [] (basic_connect mime plain reject_action (82 ∷ []) never) ∷ [])

basic_connect-rejects_example :
    (u : State) × (handle_https mime
        (small_net false)
        small_tunnels
        guarded_proxy
        3
        mitm_action
        0
        small_world
      ≡ (ok tt, emit (conn_closed 0) u))
unfolding begin_request
basic_connect-rejects_example =
    let rejects =
      basic_connect-rejects mime plain (small_net false) small_tunnels guarded_proxy 3 mitm_action
        reject_action (82 ∷ []) never [] 0 0 none small_world (begin_request 0 small_world)
        refused_world _ refl refl refl refl never_refuses refl in
    (_, rejects.0)

strip_port-IPv6_example :
    (strip_port (91 ∷ 49 ∷ 58 ∷ 50 ∷ 93 ∷ 58 ∷ 56 ∷ []) ≡ 49 ∷ 58 ∷ 50 ∷ [])
    × (strip_port (91 ∷ 49 ∷ 58 ∷ 50 ∷ 93 ∷ []) ≡ 49 ∷ [])
unfolding contains
strip_port-IPv6_example =
    strip_port-IPv6 (49 ∷ []) (50 ∷ []) (56 ∷ []) refl refl refl refl refl refl

write_mitm-sends_example :
    (v : State) × (write_mitm mime (small_net false) small_tunnels 0 1 1 small_world ≡ (ok true, v))
unfolding text_eq codes
write_mitm-sends_example =
    let sends =
      write_mitm-sends mime (small_net false) small_tunnels (λ h. 72 ∷ []) 0 1 1 0
        ((65 ∷ [], (66 ∷ []) ∷ []) ∷ []) small_world (λ w t. refl) (λ h w. refl) refl refl refl
        refl in
    (sends.0, sends.2)

abbrev small_dialers : Dialers (Unit {0})
small_dialers = record {
  tr_dial = none;
  connect_dial_with_req = none;
  connect_dial_func = none;
  net_dial = λ addr. pure (some 4, none);
}

-- Another proxy that answers with response 1, which has the status 200.
abbrev small_upstream : Upstream (Unit {0})
small_upstream = record {
  parse = λ t. none;
  tls_client = λ c. pure c;
  write_connect = λ req c. pure none;
  read_answer = λ c. pure (some 1, none);
}

ask_upstream-answered_example :
    (ask_upstream small_dialers small_upstream (some 500) small_request 4 small_world).0
    ≡ ok (some 4, none)
ask_upstream-answered_example =
    (ask_upstream-answered small_dialers small_upstream (some 500) small_request 4 1 1 none
      (120 ∷ 1 ∷ []) small_world small_world small_world refl refl refl (unfold read_all in refl)).0
