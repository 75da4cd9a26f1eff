-- ===== src/Tunnel.antt =====
-- The goroutines that copy a tunnel's bytes, as steps that interleave: goproxy/https.go, copyAndClose,
-- copyOrWarn and the branch for an accepted CONNECT; goproxy/websocket.go, proxyWebsocket.
pub mod Whole
use cffi_proxy.Base.{Bool, true, false, ◌≡◌, Text, [], ◌++◌}

-- How a tunnel is shut: each direction by itself, when both copyAndClose have connections that can be
-- half closed; both connections after both copyOrWarn; the target's after the first copy of
-- proxyWebsocket.
pub data Shutting : Type 0 where
  by_halves after_both after_first : Shutting

-- One io.Copy: what its source still has to give, what its destination has taken, whether it still
-- copies, and whether it has ended with an error.
pub record Copying : Type 0 where
  pub unread : Text
  pub taken : Text
  pub runs : Bool
  pub failed : Bool
  -- CloseWrite on the destination and CloseRead on the source
  pub is_shut : Bool

-- The two directions, true being that to the target; whether the connections have been closed.
pub record Tunnel : Type 0 where
  pub way : Bool → Copying
  pub is_closed : Bool

abbrev pub set_way : Bool → Copying → Tunnel → Tunnel
set_way true c t = record t { way = λ d. elim d [ true ↦ c | false ↦ t.way false ] }
set_way false c t = record t { way = λ d. elim d [ true ↦ t.way true | false ↦ c ] }

pub data Move (how : Shutting) (t : Tunnel) : Tunnel → Type 0 where
  -- a Read and its Write of io.Copy; the Write may come after the other connection has been closed
  copy :
      (d : Bool) (piece rest : Text)
      → (t.way d).runs ≡ true
      → (t.way d).unread ≡ piece ++ rest
      → Move how t
          (set_way d (record (t.way d) { unread = rest; taken = (t.way d).taken ++ piece }) t)
  -- the source is at its end
  finish :
      (d : Bool)
      → (t.way d).runs ≡ true
      → (t.way d).unread ≡ []
      → Move how t (set_way d (record (t.way d) { runs = false }) t)
  -- a Read or a Write fails, as it does on a connection that has been closed
  fail :
      (d : Bool)
      → (t.way d).runs ≡ true
      → Move how t (set_way d (record (t.way d) { runs = false; failed = true }) t)
  shut :
      (d : Bool)
      → how ≡ by_halves
      → (t.way d).runs ≡ false
      → Move how t (set_way d (record (t.way d) { is_shut = true }) t)
  -- wg.Wait(), and the two Close
  close_after_both :
      how ≡ after_both
      → (t.way true).runs ≡ false
      → (t.way false).runs ≡ false
      → Move how t (record t { is_closed = true })
  -- `<-errChan`, and the deferred Close
  close_after_first :
      (d : Bool)
      → how ≡ after_first
      → (t.way d).runs ≡ false
      → Move how t (record t { is_closed = true })

-- A tunnel for what the client and the target are to send.
abbrev pub opened : (Bool → Text) → Tunnel
opened sent = record {
  way = λ d. record { unread = sent d; taken = []; runs = true; failed = false; is_shut = false };
  is_closed = false;
}

pub data Reachable (how : Shutting) (t : Tunnel) : Tunnel → Type 0 where
  at_start : Reachable how t t
  and_then : {u v : Tunnel} → Reachable how t u → Move how u v → Reachable how t v
