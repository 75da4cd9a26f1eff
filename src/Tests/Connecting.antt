-- ===== src/Tests/Connecting.antt =====
-- A CONNECT to the program, at a small input.
use cffi_proxy.Base.{◌≡◌, refl, [], ◌∷◌, ◌++◌, codes, text_eq, true, none, List, Text, has_prefix}
use cffi_proxy.Action.{ok}
use cffi_proxy.Http.Headers.{lookup}
use cffi_proxy.Http.Headers.Mime.{mime}
use cffi_proxy.Http.World.{Event, conn_closed, conn_written, emit, put_request}
use cffi_proxy.Dispatcher.{mitm_connect}
use cffi_proxy.Proxy.Serve.{begin_request}
use cffi_proxy.Https.Tunnels.{is_eof, write_string}
use cffi_proxy.Https.Answer.Wires.{written}
use cffi_proxy.Https.Mitm.{inner_request}
use cffi_proxy.Https.Connect.{handle_https}
use cffi_proxy.Program.{program, transport_handle_request}
use cffi_proxy.Program.Intercepting.{inside}
use cffi_proxy.Program.Serving.{Got, Exchanges, over, exchange, Messages}
use cffi_proxy.Program.Connecting.{program-connects}
use cffi_proxy.Tests.Values.{State, small_world, small_net, small_tunnels, reject_action}
use cffi_proxy.Tests.Handling.{small_tls}

-- The client has been told that the connection stands.
abbrev connected_world : State
connected_world =
    emit (conn_written 0 (codes "HTTP/1.0 200 OK\r\n\r\n")) (begin_request 0 small_world)

abbrev read_world : State
read_world =
    inside mime (small_tls none) (mitm_connect 3) (small_net true) small_tunnels (97 ∷ []) 0 3 5 0
      connected_world

abbrev got_world : State
got_world = put_request 0 (record (read_world.requests 0) { request_uri = [] }) read_world

abbrev small_got : Got
small_got = record {
  response = got_world.responses 1;
  header = (65 ∷ [], (66 ∷ []) ∷ []) ∷ [];
  content = (got_world.bodies 1).content;
}

one_request :
    Exchanges mime
      (small_tls none)
      (mitm_connect 3)
      (small_net true)
      small_tunnels
      (97 ∷ [])
      0
      3
      5
      1
      connected_world
      (small_got ∷ [])
unfolding transport_handle_request begin_request inner_request text_eq lookup codes has_prefix
    is_eof written
one_request =
    exchange 0 1 0 1 ((65 ∷ [], (66 ∷ []) ∷ []) ∷ []) connected_world connected_world
      connected_world got_world refl refl refl refl refl refl refl refl (over _)

program-connects_example :
    let out =
      handle_https mime
        (small_net true)
        small_tunnels
        (program mime (small_tls none) (mitm_connect 3))
        1
        reject_action
        0
        small_world in
    (text : Text) × (before : List Event) × (out.0 ≡ ok tt)
    × (out.1.events ≡ conn_closed 5 ∷ before)
    × (written 5 before ≡ written 5 connected_world.events ++ text)
    × Messages mime
        (small_tls none)
        (mitm_connect 3)
        (small_net true)
        small_tunnels
        (97 ∷ [])
        0
        3
        5
        (λ h. 72 ∷ [])
        (small_got ∷ [])
        text
unfolding write_string begin_request
program-connects_example =
    program-connects mime (small_tls none) 3 (small_net true) small_tunnels 1 0 reject_action
      (λ h. 72 ∷ []) 0 5 3 none small_world (begin_request 0 small_world) connected_world
      connected_world connected_world connected_world (small_got ∷ []) refl refl refl refl refl refl
      (λ w t. refl) (λ h w. refl) one_request
