-- ===== src/Program/Rewired.antt =====
-- main.go with goproxy/https.go: the requests inside an intercepted connection, whatever the ways
-- are in which the proxy itself reaches other hosts.
use cffi_proxy.Base.{
  ℕ, zero, suc, ◌≡◌, refl, sym, ◌∙◌, fun_ext, Bool, Bool-cases, inl, inr, text_eq, [], Option, none,
  some, Text, if◌then◌else◌,
}
use cffi_proxy.Action.{
  Action, nil_dereference, pure, panic, gets, defers, Outcome, ok, panics, continue, ◌>>=◌,
}
use cffi_proxy.Http.{ReqRef, RespRef, BodyRef, ConnRef, Err}
use cffi_proxy.Http.Headers.{HeaderLib}
use cffi_proxy.Http.World.{World, close_body}
use cffi_proxy.Dispatcher.{ConnectAction, ProxyHttpServer}
use cffi_proxy.Proxy.Filters.{filter_request, filter_response}
use cffi_proxy.Proxy.Network.{Network}
use cffi_proxy.Proxy.Serve.{begin_request, serve_http, get_response, respond}
use cffi_proxy.Https.Tunnels.{Tunnels, is_eof, write_string}
use cffi_proxy.Https.Answer.{status_line, mitm_header, copy_body, write_body, write_mitm}
use cffi_proxy.Https.Mitm.{inner_request, take_request, mitm_round, mitm_rounds}
use cffi_proxy.Program.Intercepting.{inside}
use cffi_proxy.Program.Answered.{answered, program-Answers}
use cffi_proxy.Program.{TlsClient, program}

-- The ways in which the proxy itself reaches another host.
pub record Outward (E : Type 0) : Type 0 where
  pub round_trip : ReqRef → Action (World E) (Option RespRef × Option Err)
  pub call_round_tripper : ℕ → ReqRef → Action (World E) (Option RespRef × Option Err)
  pub connect_dial : Text → Action (World E) (Option ConnRef × Option Err)
  pub write_request : ReqRef → ConnRef → Action (World E) (Option Err)
  pub read_response : ConnRef → ReqRef → Action (World E) (Option RespRef × Option Err)
  pub tls_dial : Text → ℕ → Action (World E) (Option ConnRef × Option Err)
  pub h2_round_trip : ReqRef → ConnRef → ℕ → Text → Action (World E) (Unit {0})

-- The network with other such ways.
abbrev pub rewired : {E : Type 0} → Outward E → Network E → Network E
rewired out net = record net {
  round_trip = out.round_trip;
  call_round_tripper = out.call_round_tripper;
  connect_dial = out.connect_dial;
  write_request = out.write_request;
  read_response = out.read_response;
}

abbrev pub rewired_tunnels : {E : Type 0} → Outward E → Tunnels E → Tunnels E
rewired_tunnels out tun = record tun { tls_dial = out.tls_dial; h2_round_trip = out.h2_round_trip }

module _ {E : Type 0} (lib : HeaderLib) (tls : TlsClient E) (todo : ConnectAction) (out : Outward E)
    (net : Network E) (tun : Tunnels E) where
  abbrev served : ProxyHttpServer E
  served = program lib tls todo

  served_same :
      (o : Outcome (Option ReqRef × RespRef)) (v : World E)
      → let go_on = λ (x : Network E) (got : Option ReqRef × Option RespRef). (do
        resp ← get_response lib x served got.0 got.1
        respond lib served got.0 resp) in
        continue (go_on (rewired out net)) (answered o) v ≡ continue (go_on net) (answered o) v
  unfolding get_response
  served_same (panics x) v = refl
  served_same (ok (q, p)) v = refl

  -- ServeHTTP, once the request handlers have given a result.
  pub serve_from :
      (r : ReqRef) (w : World E) (o : Outcome (Option ReqRef × RespRef)) (v : World E)
      → filter_request served.req_handlers r (begin_request r w) ≡ (answered o, v)
      → serve_http lib (rewired out net) served r w ≡ serve_http lib net served r w
  unfolding serve_http get_response
  serve_from r w o v e = elim (Bool-cases (text_eq (w.requests r).url.scheme [])) [
    | inl relative ↦ rw relative refl
    | inr absolute ↦ rw (absolute, e) (served_same o v)
  ]

  write_mitm-rewired :
      (client : ConnRef)
      → write_mitm lib (rewired out net) (rewired_tunnels out tun) client
        ≡ write_mitm lib net tun client
  unfolding write_mitm status_line mitm_header write_body copy_body write_string
  write_mitm-rewired client = refl

  module _ (host : Text) (outer : ReqRef) (config : ℕ) (client : ConnRef) where
    take_from :
        (r : ReqRef) (w : World E) (o : Outcome (Option ReqRef × RespRef)) (v : World E)
        → filter_request served.req_handlers r
            (inside lib tls todo net tun host outer config client r w)
          ≡ (answered o, v)
        → take_request lib
            (rewired out net)
            (rewired_tunnels out tun)
            served
            host
            outer
            config
            client
            (some r, none)
            w
          ≡ take_request lib net tun served host outer config client (some r, none) w
    unfolding take_request inner_request
    take_from r w (panics x) v e = rw e refl
    take_from r w (ok (q, p)) v e = rw e refl

    take_at :
        (read : Option ReqRef × Option Err) (w : World E)
        → take_request lib
            (rewired out net)
            (rewired_tunnels out tun)
            served
            host
            outer
            config
            client
            read
            w
          ≡ take_request lib net tun served host outer config client read w
    unfolding take_request
    take_at (r, some e) w = refl
    take_at (none, none) w = refl
    take_at (some r, none) w =
        let (o, v, e) =
          program-Answers lib tls todo r
            (inside lib tls todo net tun host outer config client r w) in
        take_from r w o v e

    take_rewired :
        take_request lib (rewired out net) (rewired_tunnels out tun) served host outer config client
        ≡ take_request lib net tun served host outer config client
    take_rewired = fun_ext (λ read. fun_ext (λ w. take_at read w))

    -- One round of the loop, by its parts.
    abbrev loop_with :
        (Option ReqRef × Option Err → Action (World E) (Option RespRef))
        → (RespRef → BodyRef → Action (World E) Bool)
        → Action (World E) (Unit {0})
        → Action (World E) (Unit {0})
    loop_with take write next = do
      eof ← is_eof tun client
      if eof then pure tt else do
        read ← tun.read_request client
        got ← take read
        elim got [
          | none ↦ pure tt
          | some p ↦ do
            final ← filter_response served.resp_handlers (some p)
            elim final [
              | none ↦ panic nil_dereference
              | some p' ↦ do
                body ← gets (λ w. (w.responses p').body)
                elim body [
                  | none ↦ panic nil_dereference
                  | some b ↦
                      defers (close_body b) (do more ← write p' b; if more then next else pure tt)
                ]
            ]
        ]

    rounds_loop :
        (n : ℕ)
        → mitm_rounds lib net tun served host outer config client (suc n)
          ≡ loop_with
              (take_request lib net tun served host outer config client)
              (write_mitm lib net tun client)
              (mitm_rounds lib net tun served host outer config client n)
    unfolding mitm_rounds mitm_round is_eof
    rounds_loop n = refl

    rounds_loop_rewired :
        (n : ℕ)
        → mitm_rounds lib
            (rewired out net)
            (rewired_tunnels out tun)
            served
            host
            outer
            config
            client
            (suc n)
          ≡ loop_with
              (take_request lib
                (rewired out net)
                (rewired_tunnels out tun)
                served
                host
                outer
                config
                client)
              (write_mitm lib (rewired out net) (rewired_tunnels out tun) client)
              (mitm_rounds lib
                (rewired out net)
                (rewired_tunnels out tun)
                served
                host
                outer
                config
                client
                n)
    unfolding mitm_rounds mitm_round is_eof
    rounds_loop_rewired n = refl

    pub rounds_rewired :
        (n : ℕ)
        → mitm_rounds lib
            (rewired out net)
            (rewired_tunnels out tun)
            served
            host
            outer
            config
            client
            n
          ≡ mitm_rounds lib net tun served host outer config client n
    unfolding mitm_rounds
    rounds_rewired zero = refl
    rounds_rewired (suc n) =
        rounds_loop_rewired n
        ∙ (λ i. loop_with (take_rewired i) (write_mitm-rewired client i) (rounds_rewired n i))
        ∙ sym (rounds_loop n)
