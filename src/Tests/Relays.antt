-- ===== src/Tests/Relays.antt =====
-- The relays of an HTTP/2 session and the program's ways to other hosts, at small inputs.
use cffi_proxy.Base.{◌≡◌, refl, Bool, true, false, none, some, List, [], ◌∷◌}
use cffi_proxy.Action.{ok, pure}
use cffi_proxy.Dispatcher.{mitm_connect}
use cffi_proxy.Http.Headers.Mime.{mime}
use cffi_proxy.Server.{serve_any}
use cffi_proxy.Program.{program}
use cffi_proxy.Program.Rewired.{Outward, rewired, rewired_tunnels}
use cffi_proxy.Program.Private.{program-private}
use cffi_proxy.H2.{Frame, eof, data_frame, proxy_frames, proxy_frame, pass_on}
use cffi_proxy.H2.Relay.{from_list}
use cffi_proxy.H2.Goroutines.{
  Relaying, ended, running, sending, returned, set_at, started, stop, receive, received, RelaySteps,
  begin, next,
}
use cffi_proxy.H2.Goroutines.Settling.{Settles, RelaySteps-Settles}
use cffi_proxy.Tests.Values.{small_world, small_net, small_tunnels, reject_action}
use cffi_proxy.Tests.Handling.{small_tls}

-- The client sends nothing, and the server one frame that ends its stream.
abbrev one_answer : Bool → List Frame × List Frame
one_answer = λ d. elim d [ true ↦ ([], []) | false ↦ (data_frame 1 true [] ∷ [], []) ]

abbrev relayed_answer : Bool → List Frame × List Frame
relayed_answer = λ d. elim d [ true ↦ ([], []) | false ↦ ([], data_frame 1 true [] ∷ []) ]

abbrev all_relayed : Relaying (List Frame × List Frame)
all_relayed = record {
  side = set_at false ([], data_frame 1 true [] ∷ []) (set_at true ([], []) one_answer);
  goroutine =
      set_at false ended
        (set_at false (sending eof) (set_at true ended (set_at true (sending eof) (λ d. running))));
  caller = returned none;
}

each_ends : (d : Bool) → proxy_frames from_list 1 (one_answer d) ≡ (ok (some eof), relayed_answer d)
unfolding proxy_frames proxy_frame pass_on
each_ends true = refl
each_ends false = refl

four_steps : RelaySteps from_list (started one_answer) 4 all_relayed
unfolding proxy_frame pass_on received
four_steps =
    next
      (next (next (next begin (stop true ([], []) eof refl refl)) (receive true eof 1 refl refl))
        (stop false ([], data_frame 1 true [] ∷ []) eof refl refl))
      (receive false eof 0 refl refl)

RelaySteps-Settles_example :
    Settles from_list (λ d. eof) relayed_answer 4 all_relayed (returned none) 4
RelaySteps-Settles_example =
    RelaySteps-Settles from_list one_answer relayed_answer (λ d. 1) (λ d. eof) 4 all_relayed
      each_ends four_steps

-- Ways that lead nowhere.
abbrev nowhere : Outward (Unit {0})
nowhere = record {
  round_trip = λ r. pure (none, some []);
  call_round_tripper = λ f r. pure (none, some []);
  connect_dial = λ host. pure (none, some []);
  write_request = λ r c. pure (some []);
  read_response = λ c r. pure (none, some []);
  tls_dial = λ host config. pure (none, some []);
  h2_round_trip = λ r c config host. pure tt;
}

program-private_example :
    let proxy = program mime (small_tls none) (mitm_connect 3) in
    serve_any mime
      (rewired nowhere (small_net false))
      (rewired_tunnels nowhere small_tunnels)
      proxy
      2
      reject_action
      0
      small_world
    ≡ serve_any mime (small_net false) small_tunnels proxy 2 reject_action 0 small_world
program-private_example =
    program-private mime (small_tls none) 3 nowhere (small_net false) small_tunnels 2 reject_action
      0 small_world
