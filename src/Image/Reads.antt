-- ===== src/Image/Reads.antt =====
-- What a computation that reads through a RegretableReader leaves of it.
use cffi_proxy.Base.{
  ℕ, ◌+◌, ◌-◌, ◌≤◌, ◌<◌, true, false, ◌≡◌, refl, sym, ap, Option, Text, [], ◌++◌, append-nil,
  length, arith, length-append, length-take,
}
use native.Mathlib.Decide.{dec_lt}
use cffi_proxy.Http.{Err}
use cffi_proxy.Regretable.{Reader, RegretableReader, new_size, keep, read}
use cffi_proxy.Regretable.Stream.{IsValid, consumed, length-keep, read-IsValid}
use cffi_proxy.Regretable.Rewind.{Moved, Moved-read}
use cffi_proxy.Image.{Reading, done, ask, run}

module _ {S : Type 0} where
  -- The cursor is at the end of what is stored: nothing has been taken back.
  pub record AtEnd (rb : RegretableReader S) : Type 0 where
    pub buffered : rb.overflow ≡ false
    pub cursor : rb.r ≡ rb.w
    pub stored : rb.w ≤ length rb.buf

module _ {S : Type 0} (io : Reader S) where
  -- The bytes that the reads of a computation return, in order.
  unfoldable pub bytes_read : {A : Type 0} → Reading A → RegretableReader S → Text
  bytes_read (done a) rb = []
  bytes_read (ask len next) rb =
      let (rb', got, err) = read io len rb in got ++ bytes_read (next got err) rb'

  read_eq_keep :
      (len : ℕ) (rb : RegretableReader S)
      → AtEnd rb
      → read io len rb ≡ (
        keep rb (io.read_into rb.reader len).0 (io.read_into rb.reader len).1,
        (io.read_into rb.reader len).1,
        (io.read_into rb.reader len).2,
      )
  unfolding read
  read_eq_keep len rb a = ground (arith, a.buffered, a.cursor)

  keep-AtEnd :
      (rb : RegretableReader S) (s : S) (got : Text)
      → AtEnd rb
      → length got ≤ length rb.buf - rb.w
      → AtEnd (keep rb s got)
        × ((keep rb s got).w ≡ rb.w + length got)
        × (length (keep rb s got).buf ≡ length rb.buf)
  keep-AtEnd rb s got a h =
      let lengths = length-keep rb s got a.stored in
      let fits = length-take (length rb.buf - rb.w) got in
      (
        record {
          buffered = unfold keep in ground (arith, fits);
          cursor = unfold keep in ground (arith, fits);
          stored = omega (arith, lengths.0, lengths.1);
        },
        unfold keep in ground (arith, fits),
        lengths.0,
      )

  keep_too_long :
      (rb : RegretableReader S) (s : S) (got : Text)
      → length rb.buf - rb.w < length got
      → (keep rb s got).overflow ≡ true
  unfolding keep
  keep_too_long rb s got h = ground (arith, length-take (length rb.buf - rb.w) got)

  read_overflown :
      (len : ℕ) (rb : RegretableReader S) → rb.overflow ≡ true → (read io len rb).0.overflow ≡ true
  unfolding read
  read_overflown len rb h = ground arith

  run_overflown :
      {A : Type 0} (p : Reading A) (rb : RegretableReader S)
      → rb.overflow ≡ true
      → (run io p rb).0.overflow ≡ true
  unfolding run
  run_overflown (done a) rb h = h
  run_overflown (ask len next) rb h =
      run_overflown (next (read io len rb).1 (read io len rb).2) (read io len rb).0
        (read_overflown len rb h)

  length_at_the_end :
      (len : ℕ) (rb : RegretableReader S)
      → AtEnd rb
      → length (read io len rb).1 ≡ length (io.read_into rb.reader len).1
  length_at_the_end len rb a =
      ap (λ (x : RegretableReader S × Text × Option Err). length x.1) (read_eq_keep len rb a)

  read-AtEnd :
      (len : ℕ) (rb : RegretableReader S)
      → AtEnd rb
      → length (read io len rb).1 ≤ length rb.buf - rb.w
      → AtEnd (read io len rb).0
        × ((read io len rb).0.w ≡ rb.w + length (read io len rb).1)
        × (length (read io len rb).0.buf ≡ length rb.buf)
  read-AtEnd len rb a h =
      let shorter = length_at_the_end len rb a in
      rw (read_eq_keep len rb a) (
        keep-AtEnd rb (io.read_into rb.reader len).0 (io.read_into rb.reader len).1 a
          (omega (arith, shorter)))

  read_too_long :
      (len : ℕ) (rb : RegretableReader S)
      → AtEnd rb
      → length rb.buf - rb.w < length (read io len rb).1
      → (read io len rb).0.overflow ≡ true
  read_too_long len rb a h =
      let longer = length_at_the_end len rb a in
      rw (read_eq_keep len rb a) (
        keep_too_long rb (io.read_into rb.reader len).0 (io.read_into rb.reader len).1
          (omega (arith, longer)))

  -- Reads that the buffer has room for can be taken back.
  pub run-Moved :
      {A : Type 0} (p : Reading A) (rb : RegretableReader S)
      → AtEnd rb
      → IsValid rb
      → length (bytes_read p rb) ≤ length rb.buf - rb.w
      → Moved io rb (run io p rb).0 (bytes_read p rb)
  unfolding run bytes_read
  run-Moved (done a) rb e v h = record {
    valid = v;
    buffered = e.buffered;
    behind = sym (append-nil (consumed rb));
    ahead = refl;
  }
  run-Moved (ask len next) rb e v h =
      let rest = bytes_read (next (read io len rb).1 (read io len rb).2) (read io len rb).0 in
      let both = length-append (read io len rb).1 rest in
      let one = read-AtEnd len rb e (omega (arith, both)) in
      Moved-read io len rb _ _ v e.buffered one.0.buffered (
        run-Moved (next (read io len rb).1 (read io len rb).2) (read io len rb).0 one.0
          (read-IsValid io len rb v) (omega (arith, both, one.1, one.2)))

  -- Reads that return more than the buffer has room for overflow.
  pub run_too_long :
      {A : Type 0} (p : Reading A) (rb : RegretableReader S)
      → AtEnd rb
      → length rb.buf - rb.w < length (bytes_read p rb)
      → (run io p rb).0.overflow ≡ true
  unfolding run bytes_read
  run_too_long (done a) rb e h = absurd (omega arith)
  run_too_long (ask len next) rb e h =
      let got = (read io len rb).1 in
      let rb' = (read io len rb).0 in
      let after = next got (read io len rb).2 in
      let both = length-append got (bytes_read after rb') in
      elim (dec_lt (length rb.buf - rb.w) (length got)) [
        | yes long ↦ run_overflown after rb' (read_too_long len rb e long)
        | no fits ↦
            (let one = read-AtEnd len rb e (omega arith) in
              run_too_long (next (read io len rb).1 (read io len rb).2) rb' one.0
                (omega (arith, both, one.1, one.2)))
      ]

pub new_size-AtEnd : {S : Type 0} (s : S) (size : ℕ) → AtEnd (new_size s size)
unfolding new_size
new_size-AtEnd s size = record { buffered = refl; cursor = refl; stored = omega arith }
