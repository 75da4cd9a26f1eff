-- ===== src/H2.antt =====
-- goproxy/h2.go: an HTTP/2 session relayed frame by frame. A frame stands here without its padding, which
-- the relay does not write again (PadLength is 0).
pub mod Relay
pub mod Session
pub mod Goroutines
use cffi_proxy.Base.{
  ℕ, zero, suc, ◌++◌, Bool, true, false, Option, none, some, List, Text, codes, if◌then◌else◌,
}
use cffi_proxy.Action.{Action, pure, ◌>>=◌}
use cffi_proxy.Http.{Err}

-- io.EOF, or another error.
pub data H2Err : Type 0 where
  eof : H2Err
  failed : Err → H2Err

-- http2.PriorityParam
pub record Priority : Type 0 where
  pub stream_dep : ℕ
  pub exclusive : Bool
  pub weight : ℕ

-- The frames of golang.org/x/net/http2, each with its stream first; a GOAWAY has the stream of its
-- frame header and the last stream of its payload.
pub data Frame : Type 0 where
  data_frame : ℕ → Bool → Text → Frame
  headers_frame : ℕ → Text → Bool → Bool → Priority → Frame
  continuation_frame : ℕ → Bool → Text → Frame
  go_away_frame : ℕ → ℕ → ℕ → Text → Frame
  ping_frame : Bool → Text → Frame
  rst_stream_frame : ℕ → ℕ → Frame
  settings_ack : Frame
  settings_frame : List (ℕ × ℕ) → Frame
  window_update_frame : ℕ → ℕ → Frame
  priority_frame : ℕ → Priority → Frame
  push_promise_frame : ℕ → ℕ → Text → Bool → Frame
  -- another type, as the text that string(type) makes of it
  other_frame : Text → Frame

-- http2.Framer: ReadFrame, and the Write methods by the frame that a peer reads of what they write.
-- WriteGoAway is given the number that becomes the last stream; its header's stream is 0.
pub record Framer (S : Type 0) : Type 0 where
  pub read_frame : Action S (Option Frame × Option H2Err)
  pub write_frame : Frame → Action S (Option H2Err)

-- `if terr == nil && tf.StreamEnded() { terr = io.EOF }`
abbrev pub or_eof : Bool → Option H2Err → Option H2Err
or_eof ended (some e) = some e
or_eof true none = some eof
or_eof false none = none

module _ {S : Type 0} (fr : Framer S) where
  -- proxyFrame, once a frame has been read.
  unfoldable pub pass_on : Frame → Action S (Option H2Err)
  pass_on (data_frame stream ended payload) = do
    err ← fr.write_frame (data_frame stream ended payload)
    pure (or_eof ended err)
  pass_on (headers_frame stream fragment ended headers_ended priority) = do
    err ← fr.write_frame (headers_frame stream fragment ended headers_ended priority)
    pure (or_eof ended err)
  pass_on (continuation_frame stream headers_ended fragment) =
      fr.write_frame (continuation_frame stream headers_ended fragment)
  pass_on (go_away_frame stream last code debug) =
      fr.write_frame (go_away_frame 0 stream code debug)
  pass_on (ping_frame ack payload) = fr.write_frame (ping_frame ack payload)
  pass_on (rst_stream_frame stream code) = fr.write_frame (rst_stream_frame stream code)
  pass_on settings_ack = fr.write_frame settings_ack
  pass_on (settings_frame settings) = fr.write_frame (settings_frame settings)
  pass_on (window_update_frame stream increment) =
      fr.write_frame (window_update_frame stream increment)
  pass_on (priority_frame stream priority) = fr.write_frame (priority_frame stream priority)
  pass_on (push_promise_frame stream promise fragment headers_ended) =
      fr.write_frame (push_promise_frame stream promise fragment headers_ended)
  pass_on (other_frame kind) = pure (some (failed (codes "Unsupported frame: " ++ kind)))

  -- proxyFrame
  unfoldable pub proxy_frame : Action S (Option H2Err)
  unfolding pass_on
  proxy_frame = do
    (frame, err) ← fr.read_frame
    elim err [
      | some e ↦ pure (some e)
      | none ↦ elim frame [ none ↦ pure none | some f ↦ pass_on f ]
    ]

  -- One of the two goroutines: the error that it sends, or none if `fuel` rounds have not ended it.
  unfoldable pub proxy_frames : ℕ → Action S (Option H2Err)
  unfolding proxy_frame
  proxy_frames zero = pure none
  proxy_frames (suc fuel) = do
    err ← proxy_frame
    elim err [ some e ↦ pure (some e) | none ↦ proxy_frames fuel ]
