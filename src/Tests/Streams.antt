-- ===== src/Tests/Streams.antt =====
-- The chunked writer, the regretable reader and the counter-mode reader, at small inputs.
use cffi_proxy.Base.{
  ◌≡◌, refl, sym, none, some, [], ◌∷◌, ◌++◌, Text, ◌+◌, ◌%◌, take, drop, take-append-drop,
  length-take, arith,
}
use cffi_proxy.Action.{ok}
use cffi_proxy.Chunked.{crlf, close_chunks}
use cffi_proxy.Chunked.Decode.{healthy, decode, copy_chunks, decode-copy_chunks}
use cffi_proxy.Regretable.{Reader, RegretableReader, new_size, regret, read}
use cffi_proxy.Regretable.Stream.{pending, new_size-IsValid, pending-read}
use cffi_proxy.Regretable.Rewind.{reads, regret-reads}
use cffi_proxy.Counter
use cffi_proxy.Counter.{Crypto, CounterEncryptorRand, rsa, increment, new_from_key}
use cffi_proxy.Counter.Increment.{value, modulus, value-increment}
use cffi_proxy.Counter.Keystream.{ahead, ahead-read}

decode-copy_chunks_example :
    decode 3 (
      (close_chunks healthy (copy_chunks healthy ((1 ∷ 2 ∷ []) ∷ (3 ∷ []) ∷ []) []).0).0
      ++ (crlf ++ 9 ∷ []))
    ≡ some (1 ∷ 2 ∷ 3 ∷ [], 9 ∷ [])
decode-copy_chunks_example = (decode-copy_chunks ((1 ∷ 2 ∷ []) ∷ (3 ∷ []) ∷ []) (9 ∷ [])).2

-- A reader of a text.
abbrev pub text_reader : Reader Text
text_reader = record {
  read_into = λ s len. (drop len s, take len s, none);
  unread = λ s. s;
  fits = λ s len. omega (arith, length-take len s);
  in_order = λ s len. sym (take-append-drop len s);
}

abbrev three : RegretableReader Text
three = new_size (1 ∷ 2 ∷ 3 ∷ []) 2

regret-reads_example :
    (rb : RegretableReader Text) × (regret (reads text_reader (1 ∷ 1 ∷ []) three).0 ≡ ok rb)
    × (pending text_reader rb ≡ 1 ∷ 2 ∷ 3 ∷ [])
regret-reads_example = regret-reads text_reader (1 ∷ 2 ∷ 3 ∷ []) 2 (1 ∷ 1 ∷ []) (omega arith)

pending-read_example :
    pending text_reader three
    ≡ (read text_reader 1 three).1 ++ pending text_reader (read text_reader 1 three).0
pending-read_example = pending-read text_reader 1 three (new_size-IsValid (1 ∷ 2 ∷ 3 ∷ []) 2)

-- A cipher that returns its block.
abbrev pub plain_crypto : Crypto
plain_crypto = record {
  block_size = 2;
  digest = 7 ∷ [];
  encrypt = λ key block. block;
  cipher_error = λ key. none;
  length-encrypt = λ key block. refl;
}

abbrev used_up : CounterEncryptorRand
used_up = record { cipher_key = []; counter = 5 ∷ 0 ∷ []; rand = 4 ∷ 0 ∷ []; ix = 2 }

ahead-read_example :
    ahead plain_crypto 2 used_up
    ≡ (Counter.read plain_crypto 1 used_up).1
      ++ ahead plain_crypto 1 (Counter.read plain_crypto 1 used_up).0
ahead-read_example = ahead-read plain_crypto 1 1 used_up

value-increment_example :
    value (increment (255 ∷ 3 ∷ [])) ≡ (value (255 ∷ 3 ∷ []) + 1) % modulus (255 ∷ 3 ∷ [])
value-increment_example = (value-increment (255 ∷ 3 ∷ []) (omega arith, (omega arith, tt))).0
