-- ===== src/Transport/Connection.antt =====
-- goproxy/transport/transport.go, roundTrip and readLoop: the goroutines that share a persistConn, as
-- steps that interleave. A caller is one getConn that gets the connection, and its call of roundTrip.
pub mod Counting
pub mod Invariant
pub mod Exclusive
pub mod Waiting
use cffi_proxy.Base.{
  ℕ, suc, ◌+◌, ◌-◌, ◌<◌, Bool, true, false, ◌&&◌, ◌≡◌, ◌≢◌, List, [], ◌∷◌, ◌++◌, length,
  if◌then◌else◌,
}
use cffi_proxy.Http.World.{update}

-- Where a caller stands in getConn and roundTrip.
pub data CallerPc : Type 0 where
  -- before getConn returns; before numExpectedResponses++, and after it
  outside owning counted : CallerPc
  -- at `re := <-ch`; after it; after numExpectedResponses--
  waiting received finished : CallerPc
  -- returned with the error of writing the request
  failed : CallerPc

-- Where readLoop stands; the number is the caller whose request it has taken from reqch.
pub data ReaderPc : Type 0 where
  -- at Peek; at `rc := <-pc.reqch`
  peeking awaiting : ReaderPc
  -- at `lastbody.Close()`; at ReadResponse; in a Close that has called `fn` a second time
  closing reading blocked : ℕ → ReaderPc
  -- at `rc.ch <- …` after putIdleConn or close; whether the connection is kept
  replying : Bool → ℕ → ReaderPc
  -- at `<-waitForBodyRead`
  at_body : ReaderPc
  stopped : ReaderPc

-- The body of the last response that had one, and the `fn` of its bodyEOFSignal.
pub data BodyPc : Type 0 where
  -- there is none to be closed; fn has not been called
  no_body unread : BodyPc
  -- in fn, after putIdleConn with this result
  signalling : Bool → BodyPc
  -- fn has returned and is not yet set to nil; it is nil
  signalled cleared : BodyPc

pub record Connection : Type 0 where
  -- numExpectedResponses
  pub expected : ℕ
  pub broken : Bool
  -- how often the connection is in the pool; a new one is, until the caller that has dialled it gets it
  pub pooled : ℕ
  -- reqch, the oldest request first
  pub queue : List ℕ
  -- the channel of each caller holds an answer
  pub answered : ℕ → Bool
  pub caller : ℕ → CallerPc
  pub reader : ReaderPc
  pub last : BodyPc

-- make(chan requestAndChan, 50)
abbrev pub queue_size : ℕ
queue_size = 50

abbrev pub move : ℕ → CallerPc → Connection → Connection
move i p s = record s { caller = update s.caller i p }

-- `rc.ch <- responseAndError{resp, err}`
abbrev pub answer : ℕ → Connection → Connection
answer i s = record s { answered = update s.answered i true }

-- putIdleConn, by what it returns: the connection is put into the pool, or is closed.
abbrev pub put : Bool → Connection → Connection
put true s = record s { pooled = s.pooled + 1 }
put false s = record s { broken = true }

-- The top of the loop, or its end.
abbrev pub next_round : Bool → ReaderPc
next_round true = peeking
next_round false = stopped

-- The steps with `n` callers.
pub data Step (n : ℕ) (s : Connection) : Connection → Type 0 where
  -- getConn gives the connection, which is not broken, to a caller
  get :
      (i : ℕ)
      → i < n
      → s.caller i ≡ outside
      → 0 < s.pooled
      → s.broken ≡ false
      → Step n s (move i owning (record s { pooled = s.pooled - 1 }))
  -- getIdleConn passes it over, as it is broken
  pass_over : 0 < s.pooled → s.broken ≡ true → Step n s (record s { pooled = s.pooled - 1 })
  -- CloseIdleConnections
  close_pooled : 0 < s.pooled → Step n s (record s { pooled = s.pooled - 1; broken = true })
  -- roundTrip, up to numExpectedResponses++
  count :
      (i : ℕ)
      → i < n
      → s.caller i ≡ owning
      → Step n s (move i counted (record s { expected = s.expected + 1 }))
  -- the request cannot be written: pc.close()
  write_fails :
      (i : ℕ) → i < n → s.caller i ≡ counted → Step n s (move i failed (record s { broken = true }))
  -- the request is written, Flush's error ignored, and sent on reqch, which has room
  enqueue :
      (i : ℕ)
      → i < n
      → s.caller i ≡ counted
      → length s.queue < queue_size
      → Step n s (move i waiting (record s { queue = s.queue ++ i ∷ [] }))
  receive :
      (i : ℕ)
      → i < n
      → s.caller i ≡ waiting
      → s.answered i ≡ true
      → Step n s (move i received (record s { answered = update s.answered i false }))
  uncount :
      (i : ℕ)
      → i < n
      → s.caller i ≡ received
      → Step n s (move i finished (record s { expected = s.expected - 1 }))
  -- Peek returns while nothing is expected: closeLocked and return
  close_idle :
      s.reader ≡ peeking → s.expected ≡ 0 → Step n s (record s { reader = stopped; broken = true })
  go_on : s.reader ≡ peeking → s.expected ≢ 0 → Step n s (record s { reader = awaiting })
  take :
      {i : ℕ} {q : List ℕ}
      → s.reader ≡ awaiting
      → s.queue ≡ i ∷ q
      → Step n s (record s { reader = closing i; queue = q })
  -- lastbody.Close(), if there is a last body, when it does not call fn
  close_last :
      {i : ℕ} → s.reader ≡ closing i → Step n s (record s { reader = reading i; last = no_body })
  -- lastbody.Close() when fn is not yet nil: fn is called again, and waits for readLoop itself
  close_blocks :
      {i : ℕ} (kept : Bool)
      → s.reader ≡ closing i
      → s.last ≡ signalled
      → (s.broken && kept) ≡ false
      → Step n s (put kept (record s { reader = blocked i }))
  -- ReadResponse or gzip.NewReader fails: pc.close(); the error is to be the answer
  read_fails :
      {i : ℕ}
      → s.reader ≡ reading i
      → Step n s (record s { reader = replying false i; broken = true })
  -- a response after which the connection is not reused, as it or the request says
  last_response :
      {i : ℕ} → s.reader ≡ reading i → Step n s (answer i (record s { reader = stopped }))
  -- a response without a body: putIdleConn, which returns `kept`, before the response is sent
  without_body :
      {i : ℕ} (kept : Bool)
      → s.reader ≡ reading i
      → (s.broken && kept) ≡ false
      → Step n s (put kept (record s { reader = replying kept i }))
  -- the answer is sent
  reply :
      {i : ℕ} {kept : Bool}
      → s.reader ≡ replying kept i
      → Step n s (answer i (record s { reader = next_round kept }))
  with_body :
      {i : ℕ}
      → s.reader ≡ reading i
      → Step n s (answer i (record s { reader = at_body; last = unread }))
  -- whoever reads the body to its end, or closes it, calls fn, which calls putIdleConn
  signal :
      (kept : Bool)
      → s.last ≡ unread
      → (s.broken && kept) ≡ false
      → Step n s (put kept (record s { last = signalling kept }))
  -- waitForBodyRead passes from fn to readLoop
  meet :
      {kept : Bool}
      → s.reader ≡ at_body
      → s.last ≡ signalling kept
      → Step n s (record s { reader = next_round kept; last = signalled })
  clear : s.last ≡ signalled → Step n s (record s { last = cleared })

-- A connection that getConn has just made.
abbrev pub fresh : Connection
fresh = record {
  expected = 0;
  broken = false;
  pooled = 1;
  queue = [];
  answered = λ i. false;
  caller = λ i. outside;
  reader = peeking;
  last = no_body;
}

pub data Reach (n : ℕ) (s : Connection) : Connection → Type 0 where
  here : Reach n s s
  later : {t u : Connection} → Reach n s t → Step n t u → Reach n s u
