-- ===== src/Regretable.antt =====
-- goproxy/regretable/regretreader.go: a reader whose reads can be taken back.
pub mod Stream
pub mod Rewind
use cffi_proxy.Base.{
  ℕ, ◌+◌, ◌-◌, ◌≤◌, Bool, true, false, ◌≡◌, Option, none, Text, List, [], ◌∷◌, ◌++◌, codes, length,
  take, drop, replicate, ltb, if◌then◌else◌,
}
use cffi_proxy.Action.{Action, Outcome, ok, panics, message}
use cffi_proxy.Http.{Err}

-- The underlying io.Reader: Read into a slice of a given length returns the bytes that it put
-- there, no more than fit. `unread` is what it has still to give.
pub record Reader (S : Type 0) : Type 0 where
  pub read_into : S → ℕ → S × Text × Option Err
  pub unread : S → Text
  pub fits : (s : S) (len : ℕ) → length (read_into s len).1 ≤ len
  pub in_order : (s : S) (len : ℕ) → unread s ≡ (read_into s len).1 ++ unread (read_into s len).0

pub record RegretableReader (S : Type 0) : Type 0 where
  pub reader : S
  pub overflow : Bool
  pub r : ℕ
  pub w : ℕ
  pub buf : Text

-- The same with the Close of the underlying reader, which acts on a state `W`.
pub record RegretableReaderCloser (S W : Type 0) : Type 0 where
  pub regretable : RegretableReader S
  pub closer : Action W (Option Err)

-- buf[from:to]
abbrev pub slice : ℕ → ℕ → Text → Text
slice from to buf = drop from (take to buf)

module _ {S : Type 0} where
  -- NewRegretableReaderSize
  unfoldable pub new_size : S → ℕ → RegretableReader S
  new_size s size = record { reader = s; overflow = false; r = 0; w = 0; buf = replicate size 0 }

  -- NewRegretableReader, with defaultBufferSize
  unfoldable pub new_regretable_reader : S → RegretableReader S
  unfolding new_size
  new_regretable_reader s = new_size s 500

  -- Regret
  unfoldable pub regret : RegretableReader S → Outcome (RegretableReader S)
  regret rb =
      if rb.overflow
      then panics (message (codes "regretting after overflow makes no sense"))
      else ok (record rb { r = 0 })

  -- Forget
  unfoldable pub forget : RegretableReader S → Outcome (RegretableReader S)
  forget rb =
      if rb.overflow
      then panics (message (codes "forgetting after overflow makes no sense"))
      else ok (record rb { r = 0; w = 0 })

  -- What the reader keeps of the bytes that it has just read: `copy(rb.buf[rb.w:], p[:n])`.
  unfoldable pub keep : RegretableReader S → S → Text → RegretableReader S
  keep rb s got =
      let stored = take (length rb.buf - rb.w) got in
      let bn = length stored in
      record {
        reader = s;
        overflow = ltb bn (length got);
        r = rb.w + length got;
        w = rb.w + bn;
        buf = take rb.w rb.buf ++ (stored ++ drop (rb.w + bn) rb.buf);
      }

  -- Read, into a slice of length `len`; the bytes put there come back.
  unfoldable pub read : Reader S → ℕ → RegretableReader S → RegretableReader S × Text × Option Err
  unfolding keep
  read io len rb =
      if rb.overflow
      then (let (s, got, err) = io.read_into rb.reader len in (record rb { reader = s }, got, err))
      else if ltb rb.r rb.w
      then (let got = take len (slice rb.r rb.w rb.buf) in
          (record rb { r = rb.r + length got }, got, none))
      else (let (s, got, err) = io.read_into rb.reader len in (keep rb s got, got, err))

module _ {S W : Type 0} where
  -- NewRegretableReaderCloserSize
  unfoldable pub new_closer_size : S → Action W (Option Err) → ℕ → RegretableReaderCloser S W
  unfolding new_size
  new_closer_size s closer size = record { regretable = new_size s size; closer = closer }

  -- NewRegretableReaderCloser
  unfoldable pub new_closer : S → Action W (Option Err) → RegretableReaderCloser S W
  unfolding new_regretable_reader
  new_closer s closer = record { regretable = new_regretable_reader s; closer = closer }

  -- RegretableReaderCloser.Close
  unfoldable pub close_reader : RegretableReaderCloser S W → Action W (Option Err)
  close_reader rbc = rbc.closer
