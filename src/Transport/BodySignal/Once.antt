-- ===== src/Transport/BodySignal/Once.antt =====
-- How often a bodyEOFSignal calls its function.
use cffi_proxy.Base.{
  ◌+◌, ◌≡◌, Bool, true, false, ◌||◌, ◌&&◌, List, [], ◌∷◌, arith, ltb, if◌then◌else◌, is_some, not,
}
use cffi_proxy.Transport.BodySignal.{
  Signal, read_body, close_signal, Call, reads, closes, run, armed,
}

-- Whether one of the calls ends the body: a read that sees the end, without bytes if the body has
-- been closed before, or a first Close without an error.
unfoldable pub ends : Bool → List Call → Bool
ends closed [] = false
ends closed (reads n eof ∷ cs) = (eof && not (closed && ltb 0 n)) || ends closed cs
ends closed (closes failed ∷ cs) = not (closed || is_some failed) || ends true cs

calls-run :
    (cs : List Call) (s : Signal)
    → (run cs s).calls ≡ s.calls + (if s.has_fn && ends s.is_closed cs then 1 else 0)
unfolding ends read_body close_signal
calls-run [] s = ground arith
calls-run (reads n eof ∷ cs) s = ground (arith, calls-run cs (read_body n eof s).1)
calls-run (closes failed ∷ cs) s = ground (arith, calls-run cs (close_signal failed s).1)

-- Whatever calls of Read and Close follow each other, the function of a new bodyEOFSignal is called
-- once if one of them ends the body, and never otherwise.
pub calls-armed : (cs : List Call) → (run cs armed).calls ≡ (if ends false cs then 1 else 0)
calls-armed cs = ground (arith, calls-run cs armed)
