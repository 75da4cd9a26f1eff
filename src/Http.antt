-- ===== src/Http.antt =====
-- The parts of net/url and fhttp that the proxy reads and writes: URLs, headers, requests and
-- responses, which the Go code holds by pointers; goproxy/ctx.go (ProxyCtx).
pub mod Headers
pub mod World
use cffi_proxy.Base.{ℕ, Option, Text, Bool, List}
use cffi_proxy.Http.Headers.{Header}

abbrev pub ReqRef : Type 0
ReqRef = ℕ

abbrev pub RespRef : Type 0
RespRef = ℕ

-- An io.ReadCloser, by identity.
abbrev pub BodyRef : Type 0
BodyRef = ℕ

-- A net.Conn, by identity.
abbrev pub ConnRef : Type 0
ConnRef = ℕ

-- An error value; its text is all that the proxy uses.
abbrev pub Err : Type 0
Err = Text

pub record Url : Type 0 where
  pub scheme : Text
  pub host : Text
  pub path : Text

pub record Request : Type 0 where
  pub method : Text
  pub url : Url
  pub header : Header
  pub host : Text
  pub remote_addr : Text
  pub request_uri : Text
  pub close : Bool
  pub body : Option BodyRef

-- `none` is a nil header map, a nil body or a nil request.
pub record Response : Type 0 where
  pub status : Text
  pub status_code : ℕ
  pub header : Option Header
  pub body : Option BodyRef
  pub request : Option ReqRef

-- ProxyCtx, less the fields that never change (the proxy and the certificate store); `round_tripper`
-- is the identity of the function that a handler has put there.
pub record Ctx : Type 0 where
  pub req : ReqRef
  pub resp : Option RespRef
  pub round_tripper : Option ℕ
  pub error : Option Err
  pub session : ℕ
