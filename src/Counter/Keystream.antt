-- ===== src/Counter/Keystream.antt =====
-- The bytes that the reader will return, as the encryption of consecutive counters.
use cffi_proxy.Base.{
  ℕ, zero, suc, ◌+◌, ◌-◌, ◌<◌, ◌≤◌, ◌≡◌, sym, ap, ◌∙◌, Option, some, Text, [], ◌++◌, append_assoc,
  length, take, drop, arith, take-append-drop, drop_add, drop_all, length-drop, length-take, ◌==◌,
  if◌then◌else◌, ltb, take-append_length,
}
use cffi_proxy.Counter.{
  Crypto, CounterEncryptorRand, rsa, increment, refill, ready, serve, read, new_from_key,
}
use cffi_proxy.Counter.Increment.{length-increment}

module _ (crypto : Crypto) where
  open crypto use {encrypt}

  -- The encryptions of `n` counters in a row.
  abbrev pub blocks : Text → ℕ → Text → Text
  blocks key zero counter = []
  blocks key (suc n) counter = encrypt key counter ++ blocks key n (increment counter)

  -- What is left of the current block, and `n` blocks more.
  abbrev pub ahead : ℕ → CounterEncryptorRand → Text
  ahead n c = drop c.ix c.rand ++ blocks c.cipher_key n c.counter

  pub record IsValid (c : CounterEncryptorRand) : Type 0 where
    pub cursor : c.ix ≤ length c.rand
    pub blocks : length c.rand ≡ length c.counter

  -- `n`, and one more if the next read starts a new block.
  abbrev pub with_next : CounterEncryptorRand → ℕ → ℕ
  with_next c n = if c.ix == length c.rand then suc n else n

  ready-IsValid : (c : CounterEncryptorRand) → IsValid c → IsValid (ready crypto c)
  unfolding ready refill
  ready-IsValid c v =
      ground (arith, crypto.length-encrypt c.cipher_key c.counter, length-increment c.counter)

  serve-IsValid : (len : ℕ) (c : CounterEncryptorRand) → IsValid c → IsValid (serve crypto len c).0
  unfolding serve
  serve-IsValid len c v = ground arith

  pub read-IsValid :
      (len : ℕ) (c : CounterEncryptorRand) → IsValid c → IsValid (read crypto len c).0
  unfolding read
  read-IsValid len c v = serve-IsValid len (ready crypto c) (ready-IsValid c v)

  ahead-serve :
      (n len : ℕ) (c : CounterEncryptorRand)
      → ahead n c ≡ (serve crypto len c).1 ++ ahead n (serve crypto len c).0
  unfolding serve
  ahead-serve n len c =
      let k = if ltb len (length c.rand - c.ix) then len else length c.rand - c.ix in
      ap (λ (t : Text). t ++ blocks c.cipher_key n c.counter)
        (sym (take-append-drop k (drop c.ix c.rand))
          ∙ ap (◌++◌ (take k (drop c.ix c.rand))) (sym (drop_add c.ix k c.rand)))
      ∙ append_assoc (take k (drop c.ix c.rand)) (drop (c.ix + k) c.rand)
          (blocks c.cipher_key n c.counter)

  ahead-refill :
      (n : ℕ) (c : CounterEncryptorRand)
      → c.ix ≡ length c.rand
      → ahead (suc n) c ≡ ahead n (refill crypto c)
  unfolding refill
  ahead-refill n c h =
      ap (λ (t : Text). t ++ blocks c.cipher_key (suc n) c.counter)
        (drop_all c.ix c.rand (omega arith))

  ahead-ready :
      (n : ℕ) (c : CounterEncryptorRand) → ahead (with_next c n) c ≡ ahead n (ready crypto c)
  unfolding ready
  ahead-ready n c = ground (arith, ahead-refill n c)

  -- A read returns the next bytes of the key stream and leaves the rest; it starts a new block
  -- exactly if the current one is used up.
  pub ahead-read :
      (n len : ℕ) (c : CounterEncryptorRand)
      → ahead (with_next c n) c ≡ (read crypto len c).1 ++ ahead n (read crypto len c).0
  unfolding read
  ahead-read n len c = ahead-ready n c ∙ ahead-serve n len (ready crypto c)

  ready_room :
      (c : CounterEncryptorRand)
      → IsValid c
      → 0 < length c.counter
      → (ready crypto c).ix < length (ready crypto c).rand
  unfolding ready refill
  ready_room c v h = ground (arith, crypto.length-encrypt c.cipher_key c.counter)

  serve_progress :
      (len : ℕ) (c : CounterEncryptorRand)
      → c.ix < length c.rand
      → 0 < len
      → (0 < length (serve crypto len c).1) × (length (serve crypto len c).1 ≤ len)
  unfolding serve
  serve_progress len c h k =
      let n = if ltb len (length c.rand - c.ix) then len else length c.rand - c.ix in
      ground (arith, length-take n (drop c.ix c.rand), length-drop c.ix c.rand)

  -- If the block is not empty and at least one byte is asked for, a read returns at least one byte,
  -- and never more than are asked for.
  pub read_progress :
      (len : ℕ) (c : CounterEncryptorRand)
      → IsValid c
      → 0 < length c.counter
      → 0 < len
      → (0 < length (read crypto len c).1) × (length (read crypto len c).1 ≤ len)
  unfolding read
  read_progress len c v h k = serve_progress len (ready crypto c) (ready_room c v h) k

  -- For an RSA key whose encoding has at least 16 bytes, the cipher key is the first 16 of them: the
  -- digest has no influence.
  pub new_from_key_prefix :
      (head rest : Text) (seed : Option Text)
      → length head ≡ 16
      → (c : CounterEncryptorRand) → (new_from_key crypto (rsa (head ++ rest)) seed).0 ≡ some c
      → c.cipher_key ≡ head
  unfolding new_from_key
  new_from_key_prefix head rest seed h c e =
      ground (
        arith,
        append_assoc head rest crypto.digest,
        take-append_length head (rest ++ crypto.digest),
      )
