-- ===== src/Regretable/Stream.antt =====
-- The reader as a stream: what it will still deliver, what it can take back, and how its three
-- operations move bytes between the two.
use cffi_proxy.Base.{
  ℕ, ◌+◌, ◌-◌, ◌≤◌, true, false, ◌≡◌, refl, sym, ap, ◌∙◌, Text, [], ◌++◌, append_assoc, length,
  take, drop, arith, length-take, length-append, length-drop, take-append-drop,
  take-length-take-take, drop-length-take, drop_add, take_add, drop-take, drop_all, take_all, subst,
  take-append_two,
}
use cffi_proxy.Action.{ok}
use cffi_proxy.Regretable.{Reader, RegretableReader, new_size, regret, forget, slice, keep, read}

length-served :
    (len r w : ℕ) (buf : Text) → w ≤ length buf → r ≤ w → r + length (take len (slice r w buf)) ≤ w
length-served len r w buf h k =
    omega (arith, length-take len (slice r w buf), length-drop r (take w buf), length-take w buf)

-- What is read again, and what is left to read again, make up the stored bytes.
slice-split :
    (len r w : ℕ) (buf : Text)
    → slice r w buf
      ≡ take len (slice r w buf) ++ slice (r + length (take len (slice r w buf))) w buf
slice-split len r w buf =
    let x = slice r w buf in
    sym (take-append-drop len x)
    ∙ ap (◌++◌ (take len x))
        (sym (drop_add r (length (take len x)) (take w buf) ∙ drop-length-take len x))

slice-eq-take : (r w : ℕ) (buf : Text) → r ≤ w → slice r w buf ≡ take (w - r) (drop r buf)
slice-eq-take r w buf h =
    let e : w ≡ r + (w - r) = omega arith in
    ap (λ (k : ℕ). drop r (take k buf)) e ∙ drop-take r (w - r) buf

take-append-slice : (r w : ℕ) (buf : Text) → r ≤ w → take w buf ≡ take r buf ++ slice r w buf
take-append-slice r w buf h =
    let e : w ≡ r + (w - r) = omega arith in
    ap (λ (k : ℕ). take k buf) e
    ∙ take_add r (w - r) buf
    ∙ ap (◌++◌ (take r buf)) (sym (slice-eq-take r w buf h))

take-served :
    (len r w : ℕ) (buf : Text)
    → r ≤ w
    → take (r + length (take len (slice r w buf))) buf ≡ take r buf ++ take len (slice r w buf)
take-served len r w buf h =
    rw (take_add r (length (take len (slice r w buf))) buf, slice-eq-take r w buf h)
      (ap (◌++◌ (take r buf)) (take-length-take-take len (w - r) (drop r buf)))

module _ {S : Type 0} where
  -- While nothing has overflown, the cursor is in what is stored, and that is in the buffer.
  pub record IsValid (rb : RegretableReader S) : Type 0 where
    pub stored : rb.w ≤ length rb.buf
    pub cursor : rb.overflow ≡ false → rb.r ≤ rb.w

  -- The bytes that reads have returned since the last Forget, and those that reads will return.
  abbrev pub consumed : RegretableReader S → Text
  consumed rb = take rb.r rb.buf

  unfoldable pub pending : Reader S → RegretableReader S → Text
  pending io rb = elim rb.overflow [
    | true ↦ io.unread rb.reader
    | false ↦ slice rb.r rb.w rb.buf ++ io.unread rb.reader
  ]

  pub new_size-IsValid : (s : S) (size : ℕ) → IsValid (new_size s size)
  unfolding new_size
  new_size-IsValid s size = ground arith

  pub length-keep :
      (rb : RegretableReader S) (s : S) (got : Text)
      → rb.w ≤ length rb.buf
      → (length (keep rb s got).buf ≡ length rb.buf)
        × ((keep rb s got).w ≤ length rb.buf)
        × ((keep rb s got).w ≤ rb.w + length got)
  unfolding keep
  length-keep rb s got v =
      let stored = take (length rb.buf - rb.w) got in
      let rest = drop (rb.w + length stored) rb.buf in
      ground (
        arith,
        length-append (take rb.w rb.buf) (stored ++ rest),
        length-append stored rest,
        length-take rb.w rb.buf,
        length-take (length rb.buf - rb.w) got,
        length-drop (rb.w + length stored) rb.buf,
      )

  keep-cursor :
      (rb : RegretableReader S) (s : S) (got : Text)
      → (keep rb s got).overflow ≡ false
      → (keep rb s got).r ≤ (keep rb s got).w
  unfolding keep
  keep-cursor rb s got h = ground arith

  -- From a well-formed reader, every read leaves a well-formed one: while nothing has overflown, the
  -- cursor is within the stored bytes, and these are within the buffer.
  pub read-IsValid :
      (io : Reader S) (len : ℕ) (rb : RegretableReader S) → IsValid rb → IsValid (read io len rb).0
  unfolding read
  read-IsValid io len rb v = ground (
    arith,
    v.cursor,
    length-served len rb.r rb.w rb.buf v.stored,
    length-keep rb (io.read_into rb.reader len).0 (io.read_into rb.reader len).1 v.stored,
    keep-cursor rb (io.read_into rb.reader len).0 (io.read_into rb.reader len).1,
  )

  pending-keep :
      (io : Reader S) (rb : RegretableReader S) (s : S) (got : Text)
      → pending io (keep rb s got) ≡ io.unread s
  unfolding pending keep
  pending-keep io rb s got = ground (
    arith,
    drop_all (rb.w + length got) (take (rb.w + length stored) whole),
    length-take (rb.w + length stored) whole,
    length-take (length rb.buf - rb.w) got,
  )
    where
      stored : Text
      stored = take (length rb.buf - rb.w) got

      whole : Text
      whole = take rb.w rb.buf ++ (stored ++ drop (rb.w + length stored) rb.buf)

  pending_overflown :
      (io : Reader S) (rb : RegretableReader S)
      → rb.overflow ≡ true
      → pending io rb ≡ io.unread rb.reader
  unfolding pending
  pending_overflown io rb h = ground arith

  pending_buffered :
      (io : Reader S) (rb : RegretableReader S)
      → rb.overflow ≡ false
      → pending io rb ≡ slice rb.r rb.w rb.buf ++ io.unread rb.reader
  unfolding pending
  pending_buffered io rb h = ground arith

  -- From a well-formed reader, what a read returns and what later reads will return is, together, what
  -- reads would have returned before it.
  pub pending-read :
      (io : Reader S) (len : ℕ) (rb : RegretableReader S)
      → IsValid rb
      → pending io rb ≡ (read io len rb).1 ++ pending io (read io len rb).0
  unfolding read
  pending-read io len rb v = ground (
    arith,
    v.cursor,
    io.in_order rb.reader len,
    pending_overflown io rb,
    pending_buffered io rb,
    pending_overflown io (record rb { reader = (io.read_into rb.reader len).0 }),
    pending_buffered io (record rb { r = rb.r + length (take len (slice rb.r rb.w rb.buf)) }),
    slice-split len rb.r rb.w rb.buf,
    append_assoc (take len (slice rb.r rb.w rb.buf))
        (slice (rb.r + length (take len (slice rb.r rb.w rb.buf))) rb.w rb.buf)
        (io.unread rb.reader),
    drop_all rb.r (take rb.w rb.buf),
    length-take rb.w rb.buf,
    pending-keep io rb (io.read_into rb.reader len).0 (io.read_into rb.reader len).1,
  )

  consumed-keep :
      (rb : RegretableReader S) (s : S) (got : Text)
      → rb.w ≤ length rb.buf
      → (keep rb s got).overflow ≡ false
      → consumed (keep rb s got) ≡ take rb.w rb.buf ++ got
  unfolding keep
  consumed-keep rb s got v h = rw all_stored (
      subst
        (λ k.
          take (k + length got) (kept ++ (got ++ drop (rb.w + length got) rb.buf)) ≡ kept ++ got)
        kept_length (take-append_two kept got (drop (rb.w + length got) rb.buf)))
    where
      kept : Text
      kept = take rb.w rb.buf

      kept_length : length kept ≡ rb.w
      kept_length = omega (arith, length-take rb.w rb.buf)

      all_stored : take (length rb.buf - rb.w) got ≡ got
      all_stored =
          take_all (length rb.buf - rb.w) got
            (ground (arith, length-take (length rb.buf - rb.w) got))

  -- While the buffer has room, what has been consumed grows by what the read returned.
  pub consumed-read :
      (io : Reader S) (len : ℕ) (rb : RegretableReader S)
      → IsValid rb
      → rb.overflow ≡ false
      → (read io len rb).0.overflow ≡ false
      → consumed (read io len rb).0 ≡ consumed rb ++ (read io len rb).1
  unfolding read
  consumed-read io len rb v o o' = ground (
    arith,
    v.cursor,
    take-served len rb.r rb.w rb.buf,
    consumed-keep rb (io.read_into rb.reader len).0 (io.read_into rb.reader len).1 v.stored,
  )

  -- On a well-formed reader that has not overflown, Regret does not panic: the stream then begins with
  -- what has been consumed since the last Forget, and the reader stays well-formed.
  pub pending-regret :
      (io : Reader S) (rb : RegretableReader S)
      → IsValid rb
      → rb.overflow ≡ false
      → (rb' : RegretableReader S) × (regret rb ≡ ok rb')
        × (pending io rb' ≡ consumed rb ++ pending io rb)
        × IsValid rb'
  unfolding regret
  pending-regret io rb v o = (
    record rb { r = 0 },
    ground arith,
    rw (pending_buffered io (record rb { r = 0 }) o, pending_buffered io rb o)
        (ap (λ (t : Text). t ++ io.unread rb.reader)
            (take-append-slice rb.r rb.w rb.buf (v.cursor o))
          ∙ append_assoc (take rb.r rb.buf) (slice rb.r rb.w rb.buf) (io.unread rb.reader)),
    record { stored = v.stored; cursor = λ _. omega arith },
  )

  -- On a reader that has not overflown, Forget does not panic and leaves nothing to take back. It drops
  -- from the stream the bytes that had been taken back and not been read again.
  pub pending-forget :
      (io : Reader S) (rb : RegretableReader S)
      → rb.overflow ≡ false
      → (rb' : RegretableReader S) × (forget rb ≡ ok rb')
        × (pending io rb ≡ slice rb.r rb.w rb.buf ++ pending io rb')
        × (consumed rb' ≡ [])
  unfolding forget pending
  pending-forget io rb o = (record rb { r = 0; w = 0 }, ground arith, ground arith, refl)
