-- ===== src/H2/Session.antt =====
-- goproxy/h2.go, H2Transport.RoundTrip and dial. The TLS configuration is not nil.
use cffi_proxy.Base.{
  Bool, Option, none, some, Text, codes, ◌++◌, contains, last_index_of, take, if◌then◌else◌,
}
use cffi_proxy.Action.{Action, pure, panic, defers, ◌>>=◌, slice_bounds}
use cffi_proxy.Http.{Err}
use cffi_proxy.H2.{H2Err, eof, failed}

-- What a session calls: dial; the server's connection; TLS with HTTP/2 as the only protocol; and the
-- errors of the two relays, in the order in which they arrive.
pub record Server (S : Type 0) : Type 0 where
  pub dial : Text → Action S (Option Err)
  pub close_server : S → S
  pub handshake : Action S (Option Err)
  pub skip_verify : Bool
  pub verify : Text → Option Err
  pub write_preface : Action S (Option Err)
  pub first_error : Action S H2Err
  pub second_error : Action S H2Err

module _ {S : Type 0} (server : Server S) where
  -- The name for VerifyHostname: the address up to its last colon.
  unfoldable pub verify_host : Text → Action S (Option Err)
  verify_host raddr = if server.skip_verify then pure none else elim (last_index_of 58 raddr) [
    | none ↦ panic slice_bounds
    | some ix ↦ pure (server.verify (take ix raddr))
  ]

  -- The select, twice: an error that is not io.EOF is returned at once.
  unfoldable pub wait_for_both : Action S (Option H2Err)
  wait_for_both = do
    e ← server.first_error
    elim e [
      | failed f ↦ pure (some (failed f))
      | eof ↦ do
        e' ← server.second_error
        elim e' [ failed f ↦ pure (some (failed f)) | eof ↦ pure none ]
    ]

  -- From the TLS handshake on.
  unfoldable pub serve_session : Text → Action S (Option H2Err)
  unfolding verify_host wait_for_both
  serve_session raddr = do
    handshake_err ← server.handshake
    elim handshake_err [
      | some e ↦ pure (some (failed e))
      | none ↦ do
        verify_err ← verify_host raddr
        elim verify_err [
          | some e ↦ pure (some (failed e))
          | none ↦ do
            preface_err ← server.write_preface
            elim preface_err [ some e ↦ pure (some (failed e)) | none ↦ wait_for_both ]
        ]
    ]

  abbrev pub with_https_port : Text → Text
  with_https_port host = if contains host 58 then host else host ++ codes ":443"

  -- H2Transport.RoundTrip: its error.
  unfoldable pub round_trip : Text → Action S (Option H2Err)
  unfolding serve_session
  round_trip host = do
    dial_err ← server.dial (with_https_port host)
    elim dial_err [
      | some e ↦ pure (some (failed e))
      | none ↦ defers server.close_server (serve_session (with_https_port host))
    ]
