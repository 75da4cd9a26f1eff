-- ===== src/Regretable/Rewind.antt =====
-- Several reads in a row, taken back by one Regret.
use cffi_proxy.Base.{
  ℕ, ◌+◌, ◌-◌, ◌≤◌, false, ◌≡◌, refl, sym, ap, ◌∙◌, Text, List, [], ◌∷◌, ◌++◌, append_assoc,
  append-nil, length, arith, length-take, length-replicate,
}
use cffi_proxy.Action.{ok}
use cffi_proxy.Regretable.{Reader, RegretableReader, new_size, regret, keep, read}
use cffi_proxy.Regretable.Stream.{
  IsValid, consumed, pending, new_size-IsValid, length-keep, read-IsValid, pending-read,
  consumed-read, pending-regret,
}

abbrev pub total : List ℕ → ℕ
total [] = 0
total (len ∷ lens) = len + total lens

module _ {S : Type 0} where
  -- Reads into slices of the given lengths, one after another.
  unfoldable pub reads : Reader S → List ℕ → RegretableReader S → RegretableReader S × Text
  reads io [] rb = (rb, [])
  reads io (len ∷ lens) rb =
      let (rb', got, err) = read io len rb in
      let (rb'', more) = reads io lens rb' in (rb'', got ++ more)

  room_keep :
      (rb : RegretableReader S) (s : S) (got : Text)
      → rb.w + length got ≤ length rb.buf
      → ((keep rb s got).overflow ≡ false)
        × ((keep rb s got).w ≤ rb.w + length got)
        × (length (keep rb s got).buf ≡ length rb.buf)
  room_keep rb s got h = (
    unfold keep in ground (arith, length-take (length rb.buf - rb.w) got),
    (length-keep rb s got (omega arith)).2,
    (length-keep rb s got (omega arith)).0,
  )

  -- After reads that fit, nothing has overflown, and the bytes have moved from one side to the other.
  pub record Moved (io : Reader S) (rb rb' : RegretableReader S) (got : Text) : Type 0 where
    pub valid : IsValid rb'
    pub buffered : rb'.overflow ≡ false
    pub behind : consumed rb' ≡ consumed rb ++ got
    pub ahead : pending io rb ≡ got ++ pending io rb'

  read_room :
      (io : Reader S) (len : ℕ) (rb : RegretableReader S)
      → IsValid rb
      → rb.overflow ≡ false
      → rb.w + len ≤ length rb.buf
      → ((read io len rb).0.overflow ≡ false)
        × ((read io len rb).0.w ≤ rb.w + len)
        × (length (read io len rb).0.buf ≡ length rb.buf)
  unfolding read
  read_room io len rb v o room = ground (
    arith,
    v.stored,
    room_keep rb (io.read_into rb.reader len).0 (io.read_into rb.reader len).1,
    io.fits rb.reader len,
  )

  pub Moved-read :
      (io : Reader S) (len : ℕ) (rb rb' : RegretableReader S) (more : Text)
      → IsValid rb
      → rb.overflow ≡ false
      → (read io len rb).0.overflow ≡ false
      → Moved io (read io len rb).0 rb' more
      → Moved io rb rb' ((read io len rb).1 ++ more)
  Moved-read io len rb rb' more v o o' rest = record {
    valid = rest.valid;
    buffered = rest.buffered;
    behind =
        rest.behind
        ∙ ap (λ (t : Text). t ++ more) (consumed-read io len rb v o o')
        ∙ append_assoc (consumed rb) (read io len rb).1 more;
    ahead =
        pending-read io len rb v
        ∙ ap (◌++◌ (read io len rb).1) rest.ahead
        ∙ sym (append_assoc (read io len rb).1 more (pending io rb'));
  }

  reads-Moved :
      (io : Reader S) (lens : List ℕ) (rb : RegretableReader S)
      → IsValid rb
      → rb.overflow ≡ false
      → rb.w + total lens ≤ length rb.buf
      → Moved io rb (reads io lens rb).0 (reads io lens rb).1
  unfolding reads
  reads-Moved io [] rb v o room = record {
    valid = v;
    buffered = o;
    behind = sym (append-nil (consumed rb));
    ahead = refl;
  }
  reads-Moved io (len ∷ lens) rb v o room =
      let kept = read_room io len rb v o (omega arith) in
      Moved-read io len rb _ _ v o kept.0
        (reads-Moved io lens (read io len rb).0 (read-IsValid io len rb v) kept.0 (omega arith))

  -- Reads that ask for no more than the buffer holds can be taken back: they do not overflow, and
  -- after Regret the stream is as if nothing had been read.
  pub regret-reads :
      (io : Reader S) (s : S) (size : ℕ) (lens : List ℕ)
      → total lens ≤ size
      → let rb = (reads io lens (new_size s size)).0 in
        (rb' : RegretableReader S) × (regret rb ≡ ok rb') × (pending io rb' ≡ io.unread s)
  unfolding new_size
  regret-reads io s size lens h =
      let start = new_size s size in
      let m =
        reads-Moved io lens start (new_size-IsValid s size) (unfold new_size in refl)
          (unfold new_size in omega (arith, length-replicate {A = ℕ} size 0)) in
      let (rb', e, p, v) = pending-regret io (reads io lens start).0 m.valid m.buffered in
      (
        rb',
        e,
        p
            ∙ ap (λ (t : Text). t ++ pending io (reads io lens start).0) m.behind
            ∙ sym m.ahead
            ∙ (unfold new_size pending in refl),
      )
