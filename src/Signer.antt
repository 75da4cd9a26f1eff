-- ===== src/Signer.antt =====
-- goproxy/signer.go; goproxy/https.go, TLSConfigFromCA.
pub mod Sorting
pub mod Hosts
use cffi_proxy.Base.{
  ℕ, ◌+◌, ◌*◌, ◌-◌, Bool, true, false, Option, none, some, List, [], ◌∷◌, ◌++◌, Text, codes, ltb,
  ◌==◌, if◌then◌else◌,
}
use cffi_proxy.Action.{Action, Outcome, ok, panics, nil_dereference, slice_bounds, pure, ◌>>=◌}
use cffi_proxy.Http.{Err}
use cffi_proxy.Counter.{Crypto, PrivateKey, rsa, ecdsa, other, CounterEncryptorRand, new_from_key}
use cffi_proxy.Transport.Pool.{ℤ, pos, negsuc}
use cffi_proxy.Https.Address.{strip_port}

-- s <= t, for Go strings
unfoldable pub text_le : Text → Text → Bool
text_le [] t = true
text_le (c ∷ s) [] = false
text_le (c ∷ s) (d ∷ t) = if c == d then text_le s t else ltb c d

unfoldable pub insert : Text → List Text → List Text
insert s [] = s ∷ []
insert s (t ∷ ts) = if text_le s t then s ∷ t ∷ ts else t ∷ insert s ts

-- sort.Strings
unfoldable pub sort : List Text → List Text
unfolding insert
sort [] = []
sort (s ∷ ss) = insert s (sort ss)

-- What is written to the hash.
unfoldable pub with_commas : List Text → Text
with_commas [] = []
with_commas (s ∷ ss) = s ++ (codes "," ++ with_commas ss)

-- hashSorted; `sha1` is the digest of a message.
unfoldable pub hash_sorted : (Text → Text) → List Text → Text
unfolding sort with_commas
hash_sorted sha1 lst = sha1 (with_commas (sort lst))

-- big.Int.SetBytes, on what has been read so far.
abbrev set_bytes : ℕ → Text → ℕ
set_bytes n [] = n
set_bytes n (b ∷ bs) = set_bytes (256 * n + b) bs

-- hashSortedBigInt
unfoldable pub hash_sorted_big_int : (Text → Text) → List Text → ℕ
unfolding hash_sorted
hash_sorted_big_int sha1 lst = set_bytes 0 (hash_sorted sha1 lst)

-- The fields of x509.Certificate that signHost computes; times are in seconds since 1970.
pub record Template : Type 0 where
  pub serial : ℕ
  pub issuer : Text
  pub not_before : ℤ
  pub not_after : ℤ
  pub ip_addresses : List Text
  pub dns_names : List Text
  pub common_name : Text

-- tls.Certificate
pub record Certificate : Type 0 where
  pub chain : List Text
  pub private_key : PrivateKey

-- What signHost calls: x509, net.ParseIP, the clock, and the generation of keys, which reads the
-- counter-mode reader.
pub record Signing : Type 0 where
  pub crypto : Crypto
  pub sha1 : Text → Text
  pub parse_subject : Text → Option Text
  pub parse_error : Text → Err
  pub parse_ip : Text → Option Text
  pub now : ℕ
  pub random_serial : ℕ
  pub runtime_version : Text
  pub generate_rsa : CounterEncryptorRand → (CounterEncryptorRand × PrivateKey) × Option Err
  pub generate_ecdsa : CounterEncryptorRand → (CounterEncryptorRand × PrivateKey) × Option Err
  pub create : CounterEncryptorRand → Template → Text → PrivateKey → PrivateKey → Text × Option Err

abbrev pub days_30 : ℕ
days_30 = 2592000

abbrev pub days_365 : ℕ
days_365 = 31536000

-- now - 30 days
abbrev pub month_ago : ℕ → ℤ
month_ago now = if ltb now days_30 then negsuc (days_30 - now - 1) else pos (now - days_30)

module _ (signing : Signing) where
  unfoldable pub add_host : Text → Template → Template
  add_host h t = elim (signing.parse_ip h) [
    | some ip ↦ record t { ip_addresses = t.ip_addresses ++ ip ∷ [] }
    | none ↦ record t { dns_names = t.dns_names ++ h ∷ []; common_name = h }
  ]

  -- The loop over the hosts.
  unfoldable pub add_hosts : List Text → Template → Template
  unfolding add_host
  add_hosts [] t = t
  add_hosts (h ∷ hs) t = add_hosts hs (add_host h t)

  unfoldable pub new_template : Text → List Text → Template
  unfolding add_hosts
  new_template subject hosts = add_hosts hosts (record {
    serial = signing.random_serial;
    issuer = subject;
    not_before = month_ago signing.now;
    not_after = pos (signing.now + days_365);
    ip_addresses = [];
    dns_names = [];
    common_name = [];
  })

  -- The seed of the random numbers for a key.
  unfoldable pub host_seed : List Text → Text
  host_seed hosts =
      hash_sorted signing.sha1
        (hosts ++ codes ":goroxy1" ∷ (codes ":" ++ signing.runtime_version) ∷ [])

  -- CreateCertificate and the result.
  unfoldable pub certify :
      Text
      → Text
      → Template
      → PrivateKey
      → (CounterEncryptorRand × PrivateKey) × Option Err
      → Outcome (Option Certificate × Option Err)
  certify leaf subject template ca_key (made, some e) = ok (none, some e)
  certify leaf subject template ca_key ((csprng, key), none) =
      (let (der, err) = signing.create csprng template subject key ca_key in
        elim err [
          | some e ↦ ok (none, some e)
          | none ↦ ok (some (record { chain = der ∷ leaf ∷ []; private_key = key }), none)
        ])

  -- The switch over the kind of the CA's key. In its default case `certpriv` is nil when its public
  -- key is asked for.
  unfoldable pub generate :
      Text
      → Text
      → Template
      → PrivateKey
      → CounterEncryptorRand
      → Outcome (Option Certificate × Option Err)
  unfolding certify
  generate leaf subject template (rsa der) csprng =
      certify leaf subject template (rsa der) (signing.generate_rsa csprng)
  generate leaf subject template (ecdsa der err) csprng =
      certify leaf subject template (ecdsa der err) (signing.generate_ecdsa csprng)
  generate leaf subject template other csprng = panics nil_dereference

  -- From the result of NewCounterEncryptorRandFromKey on.
  unfoldable pub issue :
      Text
      → Text
      → PrivateKey
      → List Text
      → Option CounterEncryptorRand × Option Err
      → Outcome (Option Certificate × Option Err)
  unfolding new_template generate
  issue leaf subject key hosts (csprng, some e) = ok (none, some e)
  issue leaf subject key hosts (none, none) = panics nil_dereference
  issue leaf subject key hosts (some csprng, none) =
      generate leaf subject (new_template subject hosts) key csprng

  -- From the result of ParseCertificate on.
  unfoldable pub sign_for :
      Text → PrivateKey → List Text → Option Text → Outcome (Option Certificate × Option Err)
  unfolding host_seed issue
  sign_for leaf key hosts none = ok (none, some (signing.parse_error leaf))
  sign_for leaf key hosts (some subject) =
      issue leaf subject key hosts (new_from_key signing.crypto key (some (host_seed hosts)))

  -- signHost
  unfoldable pub sign_host : Certificate → List Text → Outcome (Option Certificate × Option Err)
  unfolding sign_for
  sign_host ca hosts = elim ca.chain [
    | [] ↦ panics slice_bounds
    | leaf ∷ rest ↦ sign_for leaf ca.private_key hosts (signing.parse_subject leaf)
  ]

  -- TLSConfigFromCA: the certificates that the copied configuration gets, or the error. `fetch` is the
  -- context's certStore.Fetch, if it has one.
  unfoldable pub tls_config_from_ca :
      {S : Type 0}
      → Certificate
      → Option (
          Text
          → Action S (Option Certificate × Option Err)
          → Action S (Option Certificate × Option Err))
      → List Certificate
      → Text
      → Action S (List Certificate × Option Err)
  unfolding sign_host
  tls_config_from_ca ca fetch certificates host = do
    let hostname = strip_port host
    (cert, err) ← elim fetch [
      | some f ↦ f hostname (λ s. (sign_host ca (hostname ∷ []), s))
      | none ↦ (λ s. (sign_host ca (hostname ∷ []), s))
    ]
    elim err [
      | some e ↦ pure ([], some e)
      | none ↦ elim cert [
        | none ↦ (λ s. (panics nil_dereference, s))
        | some c ↦ pure (certificates ++ c ∷ [], none)
      ]
    ]
