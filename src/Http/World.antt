-- ===== src/Http/World.antt =====
-- The memory that a request's handling shares: the requests, responses and bodies that pointers
-- name, the ProxyCtx, the session counter, the response writer, and what has been done so far.
use cffi_proxy.Base.{
  ℕ, ◌≡◌, Option, none, List, [], ◌∷◌, Bool, true, false, Text, ◌==◌, if◌then◌else◌, arith, suc,
}
use cffi_proxy.Action.{Action, ok}
use cffi_proxy.Http.Headers.{Header}
use cffi_proxy.Http.{ReqRef, RespRef, BodyRef, ConnRef, Err, Request, Response, Ctx}

-- A reader: what is left to read, the error (if any) that reading all of it ends with.
pub record Body : Type 0 where
  pub content : Text
  pub failure : Option Err
  pub is_closed : Bool

-- What the proxy does to the client and to the network, besides changing memory.
pub data Event : Type 0 where
  -- http.Error(w, text, code)
  client_error : ℕ → Text → Event
  -- w.WriteHeader(status), with w.Header() at that time
  client_head : ℕ → Header → Event
  -- io.Copy to w, flushed after each write or not
  client_copy : Bool → Text → Event
  conn_closed : ConnRef → Event
  -- bytes that a connection has taken
  conn_written : ConnRef → Text → Event
  -- proxyWebsocket: bytes are copied both ways between the target and the client
  tunnelled : ConnRef → ConnRef → Event
  -- copyAndClose in both directions: each is shut down by itself when it ends
  half_tunnelled : ConnRef → ConnRef → Event

-- `env` is what else handlers and the network can change.
pub record World (E : Type 0) : Type 0 where
  pub requests : ReqRef → Request
  pub responses : RespRef → Response
  pub bodies : BodyRef → Body
  pub next_response : RespRef
  pub next_body : BodyRef
  pub ctx : Ctx
  pub sess : ℕ
  pub client_header : Header
  -- newest first
  pub events : List Event
  pub env : E

abbrev pub update : {A : Type 0} → (ℕ → A) → ℕ → A → ℕ → A
update m k a j = if k == j then a else m j

pub update_self : {A : Type 0} (m : ℕ → A) (k : ℕ) (a : A) → update m k a k ≡ a
update_self m k a = ground arith

module _ {E : Type 0} where
  abbrev pub emit : Event → World E → World E
  emit e w = record w { events = e ∷ w.events }

  abbrev pub put_request : ReqRef → Request → World E → World E
  put_request r q w = record w { requests = update w.requests r q }

  -- A fresh *http.Response.
  abbrev pub alloc_response : Response → Action (World E) RespRef
  alloc_response s w = (
    ok w.next_response,
    record w {
      responses = update w.responses w.next_response s;
      next_response = suc w.next_response;
    },
  )

  abbrev pub put_response : RespRef → Response → World E → World E
  put_response p s w = record w { responses = update w.responses p s }

  abbrev pub put_body : BodyRef → Body → World E → World E
  put_body b c w = record w { bodies = update w.bodies b c }

  -- body.Close()
  abbrev pub close_body : BodyRef → World E → World E
  close_body b w = put_body b (record (w.bodies b) { is_closed = true }) w

  -- What io.ReadAll and io.Copy leave of a body.
  abbrev pub drain_body : BodyRef → World E → World E
  drain_body b w = put_body b (record (w.bodies b) { content = [] }) w

  -- io.NopCloser(bytes.NewBuffer(s)), a fresh body.
  abbrev pub new_body : Text → Action (World E) BodyRef
  new_body s w = (
    ok w.next_body,
    put_body w.next_body (record { content = s; failure = none; is_closed = false })
        (record w { next_body = suc w.next_body }),
  )
