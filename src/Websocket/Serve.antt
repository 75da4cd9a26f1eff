-- ===== src/Websocket/Serve.antt =====
-- goproxy/websocket.go, serveWebsocket and websocketHandshake.
use cffi_proxy.Base.{Option, none, some, List, not, codes, if◌then◌else◌}
use cffi_proxy.Action.{Action, pure, panic, modify, defers, ◌>>=◌, nil_dereference, message}
use cffi_proxy.Http.{ReqRef, RespRef, ConnRef, Err}
use cffi_proxy.Http.World.{World, conn_closed, tunnelled, emit}
use cffi_proxy.Dispatcher.{RespHandler}
use cffi_proxy.Proxy.Filters.{filter_response}
use cffi_proxy.Proxy.Network.{Network}

module _ {E : Type 0} (net : Network E) where
  -- resp.Write(clientConn)
  unfoldable pub write_back : Option RespRef → ConnRef → Action (World E) (Option Err)
  write_back none client = panic nil_dereference
  write_back (some p) client = net.write_response p client

  unfoldable pub websocket_handshake :
      List (RespHandler E) → ReqRef → ConnRef → ConnRef → Action (World E) (Option Err)
  unfolding filter_response write_back
  websocket_handshake hs req target client = do
    err ← net.write_request req target
    elim err [
      | some e ↦ pure (some e)
      | none ↦ do
        (resp, read_err) ← net.read_response target req
        elim read_err [
          | some e ↦ pure (some e)
          | none ↦ do resp' ← filter_response hs resp; write_back resp' client
        ]
    ]

  serve_hijacked : List (RespHandler E) → ReqRef → ConnRef → Action (World E) (Unit {0})
  unfolding websocket_handshake
  serve_hijacked hs req target =
      if not net.can_hijack
      then panic (message (codes "httpserver does not support hijacking"))
      else do
        (client, err) ← net.hijack
        elim err [
          | some e ↦ pure tt
          | none ↦ do
            failed ← websocket_handshake hs req target client
            elim failed [ some e ↦ pure tt | none ↦ modify (emit (tunnelled target client)) ]
        ]

  serve_dialled :
      List (RespHandler E) → ReqRef → Option ConnRef × Option Err → Action (World E) (Unit {0})
  unfolding serve_hijacked
  serve_dialled hs req (conn, some e) = pure tt
  serve_dialled hs req (none, none) = panic nil_dereference
  serve_dialled hs req (some target, none) =
      defers (emit (conn_closed target)) (serve_hijacked hs req target)

  -- serveWebsocket
  unfoldable pub serve_websocket : List (RespHandler E) → ReqRef → Action (World E) (Unit {0})
  unfolding serve_dialled
  serve_websocket hs req w =
      (do dialled ← net.connect_dial (w.requests req).url.host; serve_dialled hs req dialled) w
