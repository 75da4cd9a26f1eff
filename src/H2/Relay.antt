-- ===== src/H2/Relay.antt =====
-- What a relay makes of the frames that it reads.
use cffi_proxy.Base.{
  ℕ, zero, suc, ◌<◌, ◌≡◌, refl, sym, ap, ◌∙◌, Bool, true, false, none, some, List, [], ◌∷◌, ◌++◌,
  length, map, arith, append_assoc, append-nil, if◌then◌else◌, codes,
}
use cffi_proxy.Action.{ok}
use cffi_proxy.H2.{
  H2Err, eof, failed, Frame, data_frame, headers_frame, continuation_frame, go_away_frame,
  ping_frame, rst_stream_frame, settings_ack, settings_frame, window_update_frame, priority_frame,
  push_promise_frame, other_frame, Framer, pass_on, proxy_frame, proxy_frames,
}

-- A framer that reads given frames and then the end, and writes without errors: what is left to
-- read, and what has been written.
abbrev pub from_list : Framer (List Frame × List Frame)
from_list = record {
  read_frame =
      λ s. elim s.0 [ [] ↦ (ok (none, some eof), s) | f ∷ fs ↦ (ok (some f, none), (fs, s.1)) ];
  write_frame = λ f s. (ok none, (s.0, s.1 ++ f ∷ []));
}

-- The frames as they come out: a GOAWAY gets the stream of its header, 0 in every frame that conforms,
-- as its last stream.
abbrev pub relayed : Frame → Frame
relayed (go_away_frame stream last code debug) = go_away_frame 0 stream code debug
relayed f = f

abbrev pub ends_stream : Frame → Bool
ends_stream (data_frame stream ended payload) = ended
ends_stream (headers_frame stream fragment ended headers_ended priority) = ended
ends_stream f = false

abbrev pub unsupported : Frame → Bool
unsupported (other_frame kind) = true
unsupported f = false

-- The error with which a list of frames ends the relay.
unfoldable pub ending : List Frame → H2Err
ending [] = eof
ending (f ∷ fs) =
    let rest = ending fs in
    elim f [
      | other_frame kind ↦ failed (codes "Unsupported frame: " ++ kind)
      | data_frame a b c ↦ if b then eof else rest
      | headers_frame a b c d e ↦ if c then eof else rest
      | continuation_frame a b c ↦ rest
      | go_away_frame a b c d ↦ rest
      | ping_frame a b ↦ rest
      | rst_stream_frame a b ↦ rest
      | settings_ack ↦ rest
      | settings_frame a ↦ rest
      | window_update_frame a b ↦ rest
      | priority_frame a b ↦ rest
      | push_promise_frame a b c d ↦ rest
    ]

-- The frames up to the first that ends its stream, that one included, or the first unsupported one,
-- that one left out.
unfoldable pub first_stream : List Frame → List Frame
first_stream [] = []
first_stream (f ∷ fs) =
    let rest = first_stream fs in
    if unsupported f then [] else if ends_stream f then f ∷ [] else f ∷ rest

abbrev pub Relays : List Frame → List Frame → ℕ → Type 0
Relays fs before fuel =
    (left : List Frame) × (proxy_frames from_list fuel (fs, before)
      ≡ (ok (some (ending fs)), (left, before ++ map relayed (first_stream fs))))

abbrev After : List Frame → Frame → List Frame → ℕ → Type 0
After before g fs fuel =
    (left : List Frame) × (proxy_frames from_list fuel (fs, before ++ g ∷ [])
      ≡ (ok (some (ending fs)), (left, before ++ g ∷ map relayed (first_stream fs))))

Relays-After :
    (before : List Frame) (g : Frame) (fs : List Frame) (fuel : ℕ)
    → Relays fs (before ++ g ∷ []) fuel
    → After before g fs fuel
Relays-After before g fs fuel (left, run) = (
  left,
  run
      ∙ ap (λ (t : List Frame). (ok (some (ending fs)), (left, t)))
          (append_assoc before (g ∷ []) (map relayed (first_stream fs))),
)

-- On a framer that reads given frames and then the end, and writes without errors, a relay ends, with
-- no more rounds than frames and one. It ends at the first frame that ends its own stream, even if
-- other streams are open, or at one of an unknown type, or at the end of the input; the frames up
-- to there come out in order, all but GOAWAY as they were.
pub proxy_frames-Relays :
    (fs before : List Frame) (fuel : ℕ) → length fs < fuel → Relays fs before fuel
unfolding proxy_frames proxy_frame pass_on first_stream ending
proxy_frames-Relays fs before zero h = absurd (omega arith)
proxy_frames-Relays [] before (suc fuel) h =
    ([], ap (λ (t : List Frame). (ok (some eof), ([], t))) (sym (append-nil before)))
proxy_frames-Relays (data_frame a true c ∷ fs) before (suc fuel) h = (fs, refl)
proxy_frames-Relays (data_frame a false c ∷ fs) before (suc fuel) h =
    Relays-After before (data_frame a false c) fs fuel
      (proxy_frames-Relays fs (before ++ data_frame a false c ∷ []) fuel (omega arith))
proxy_frames-Relays (headers_frame a b true d e ∷ fs) before (suc fuel) h = (fs, refl)
proxy_frames-Relays (headers_frame a b false d e ∷ fs) before (suc fuel) h =
    Relays-After before (headers_frame a b false d e) fs fuel
      (proxy_frames-Relays fs (before ++ headers_frame a b false d e ∷ []) fuel (omega arith))
proxy_frames-Relays (other_frame kind ∷ fs) before (suc fuel) h = (
  fs,
  ap (λ (t : List Frame). (ok (some (failed (codes "Unsupported frame: " ++ kind))), (fs, t)))
      (sym (append-nil before)),
)
proxy_frames-Relays (continuation_frame a b c ∷ fs) before (suc fuel) h =
    Relays-After before (continuation_frame a b c) fs fuel
      (proxy_frames-Relays fs (before ++ continuation_frame a b c ∷ []) fuel (omega arith))
proxy_frames-Relays (go_away_frame a b c d ∷ fs) before (suc fuel) h =
    Relays-After before (go_away_frame 0 a c d) fs fuel
      (proxy_frames-Relays fs (before ++ go_away_frame 0 a c d ∷ []) fuel (omega arith))
proxy_frames-Relays (ping_frame a b ∷ fs) before (suc fuel) h =
    Relays-After before (ping_frame a b) fs fuel
      (proxy_frames-Relays fs (before ++ ping_frame a b ∷ []) fuel (omega arith))
proxy_frames-Relays (rst_stream_frame a b ∷ fs) before (suc fuel) h =
    Relays-After before (rst_stream_frame a b) fs fuel
      (proxy_frames-Relays fs (before ++ rst_stream_frame a b ∷ []) fuel (omega arith))
proxy_frames-Relays (settings_ack ∷ fs) before (suc fuel) h =
    Relays-After before settings_ack fs fuel
      (proxy_frames-Relays fs (before ++ settings_ack ∷ []) fuel (omega arith))
proxy_frames-Relays (settings_frame a ∷ fs) before (suc fuel) h =
    Relays-After before (settings_frame a) fs fuel
      (proxy_frames-Relays fs (before ++ settings_frame a ∷ []) fuel (omega arith))
proxy_frames-Relays (window_update_frame a b ∷ fs) before (suc fuel) h =
    Relays-After before (window_update_frame a b) fs fuel
      (proxy_frames-Relays fs (before ++ window_update_frame a b ∷ []) fuel (omega arith))
proxy_frames-Relays (priority_frame a b ∷ fs) before (suc fuel) h =
    Relays-After before (priority_frame a b) fs fuel
      (proxy_frames-Relays fs (before ++ priority_frame a b ∷ []) fuel (omega arith))
proxy_frames-Relays (push_promise_frame a b c d ∷ fs) before (suc fuel) h =
    Relays-After before (push_promise_frame a b c d) fs fuel
      (proxy_frames-Relays fs (before ++ push_promise_frame a b c d ∷ []) fuel (omega arith))
