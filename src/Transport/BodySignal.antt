-- ===== src/Transport/BodySignal.antt =====
-- goproxy/transport/transport.go: bodyEOFSignal, readFirstCloseBoth and discardOnCloseReadCloser.
pub mod Once
use cffi_proxy.Base.{
  ℕ, suc, ◌+◌, Bool, true, false, ◌&&◌, Option, none, some, List, [], ◌∷◌, codes, ltb,
  if◌then◌else◌,
}
use cffi_proxy.Action.{Action, Outcome, ok, panics, message, pure, ◌>>=◌, ◌>>◌}
use cffi_proxy.Http.{Err}

-- A bodyEOFSignal: whether `fn` is set, and how often it has been called.
pub record Signal : Type 0 where
  pub has_fn : Bool
  pub is_closed : Bool
  pub calls : ℕ

-- `es.fn(); es.fn = nil`, if fn is set
abbrev pub fire : Signal → Signal
fire s = if s.has_fn then record s { has_fn = false; calls = s.calls + 1 } else s

-- Read, of which the wrapped body returns `n` bytes, with io.EOF or without.
unfoldable pub read_body : ℕ → Bool → Signal → Outcome (Unit {0}) × Signal
read_body n eof s =
    if s.is_closed && ltb 0 n
    then (
      panics (message (codes "http: unexpected bodyEOFSignal Read after Close; see issue 1725")),
      s,
    )
    else (ok tt, if eof then fire s else s)

-- Close, where `failed` is the error of the wrapped body's Close, if that is called.
unfoldable pub close_signal : Option Err → Signal → Option Err × Signal
close_signal failed s =
    if s.is_closed
    then (none, s)
    else (let s' = record s { is_closed = true } in
        elim failed [ some e ↦ (some e, s') | none ↦ (none, fire s') ])

-- Calls by the users of a body, in any order.
pub data Call : Type 0 where
  reads : ℕ → Bool → Call
  closes : Option Err → Call

abbrev pub call : Call → Signal → Signal
call (reads n eof) s = (read_body n eof s).1
call (closes failed) s = (close_signal failed s).1

abbrev pub run : List Call → Signal → Signal
run [] s = s
run (c ∷ cs) s = run cs (call c s)

-- `&bodyEOFSignal{body: resp.Body}`, with its fn
abbrev pub armed : Signal
armed = record { has_fn = true; is_closed = false; calls = 0 }

module _ {S : Type 0} where
  -- readFirstCloseBoth.Close: the error of the first Close, or else that of the second; both are called.
  unfoldable pub close_both : Action S (Option Err) → Action S (Option Err) → Action S (Option Err)
  close_both first second = do
    err ← first
    elim err [
      | some e ↦ do _ ← second; pure (some e)
      | none ↦ do err' ← second; elim err' [ some e ↦ pure (some e) | none ↦ pure none ]
    ]

  -- discardOnCloseReadCloser.Close: `discard` copies what is left to nowhere.
  unfoldable pub close_discarding :
      Action S (Unit {0}) → Action S (Option Err) → Action S (Option Err)
  close_discarding discard close = do discard; close
