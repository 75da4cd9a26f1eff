-- ===== src/Counter.antt =====
-- goproxy/counterecryptor.go: the random bytes for certificate keys, a block cipher in counter mode.
pub mod Increment
pub mod Keystream
use cffi_proxy.Base.{
  ℕ, ◌+◌, ◌-◌, ◌%◌, Bool, ◌≡◌, Option, none, some, Text, [], ◌∷◌, ◌++◌, codes, length, take, drop,
  replicate, ◌==◌, ltb, if◌then◌else◌, not,
}
use cffi_proxy.Action.{Outcome, ok, panics, message}
use cffi_proxy.Http.{Err}

-- The cryptography that the code calls. `digest` is the SHA-256 of the empty message: h.Sum(b)
-- appends the digest of what was written to the hash, here nothing, to b.
pub record Crypto : Type 0 where
  pub block_size : ℕ
  pub digest : Text
  -- a cipher of some key: Encrypt of a block
  pub encrypt : Text → Text → Text
  -- aes.NewCipher
  pub cipher_error : Text → Option Err
  pub length-encrypt : (key block : Text) → length (encrypt key block) ≡ length block

-- The kinds of private key, with their DER encoding or the error of making it.
pub data PrivateKey : Type 0 where
  rsa : Text → PrivateKey
  ecdsa : Text → Option Err → PrivateKey
  other : PrivateKey

pub record CounterEncryptorRand : Type 0 where
  pub cipher_key : Text
  pub counter : Text
  pub rand : Text
  pub ix : ℕ

-- copy(dst, src)
abbrev pub copy_over : Text → Text → Text
copy_over dst src = take (length dst) src ++ drop (length src) dst

-- The loop of refill over the bytes of the counter.
unfoldable pub increment : Text → Text
increment [] = []
increment (b ∷ bs) =
    let carry = increment bs in if (b + 1) % 256 == 0 then 0 ∷ carry else ((b + 1) % 256) ∷ bs

module _ (crypto : Crypto) where
  open crypto use {block_size, digest, encrypt, cipher_error}

  unfoldable pub seeded : Option Text → Text → Text
  seeded none counter = counter
  seeded (some seed) counter = copy_over counter (take block_size (seed ++ digest))

  unfoldable pub from_bytes : Text → Option Text → Option CounterEncryptorRand × Option Err
  unfolding seeded
  from_bytes key_bytes seed =
      let key = take 16 (key_bytes ++ digest) in
      elim (cipher_error key) [
        | some e ↦ (none, some e)
        | none ↦ (
          some (record {
            cipher_key = key;
            counter = seeded seed (replicate block_size 0);
            rand = replicate block_size 0;
            ix = block_size;
          }),
          none,
        )
      ]

  -- NewCounterEncryptorRandFromKey; a nil seed is `none`.
  unfoldable pub new_from_key : PrivateKey → Option Text → Option CounterEncryptorRand × Option Err
  unfolding from_bytes
  new_from_key (rsa der) seed = from_bytes der seed
  new_from_key (ecdsa der none) seed = from_bytes der seed
  new_from_key (ecdsa der (some e)) seed = (none, some e)
  new_from_key other seed = (none, some (codes "only RSA and ECDSA keys supported"))

  -- Seed
  unfoldable pub seed_counter : Text → CounterEncryptorRand → Outcome CounterEncryptorRand
  seed_counter b c =
      if not (length b == length c.counter)
      then panics (message (codes "SetCounter: wrong counter size"))
      else ok (record c { counter = copy_over c.counter b })

  unfoldable pub refill : CounterEncryptorRand → CounterEncryptorRand
  unfolding increment
  refill c = record c {
    rand = encrypt c.cipher_key c.counter;
    counter = increment c.counter;
    ix = 0;
  }

  -- `if c.ix == len(c.rand) { c.refill() }`
  unfoldable pub ready : CounterEncryptorRand → CounterEncryptorRand
  ready c = if c.ix == length c.rand then refill c else c

  -- The rest of Read, once there is something to return.
  unfoldable pub serve : ℕ → CounterEncryptorRand → CounterEncryptorRand × Text
  serve len c =
      let room = length c.rand - c.ix in
      let n = if ltb len room then len else room in
      (record c { ix = c.ix + n }, take n (drop c.ix c.rand))

  -- Read, into a slice of length `len`; the bytes put there come back. It returns no error.
  unfoldable pub read : ℕ → CounterEncryptorRand → CounterEncryptorRand × Text
  read len c = serve len (ready c)
