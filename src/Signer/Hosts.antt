-- ===== src/Signer/Hosts.antt =====
-- goproxy/signer.go, signHost: that it always comes back with a certificate or an error, and the names
-- that the certificate is for.
use cffi_proxy.Base.{
  ◌≡◌, ◌≢◌, ◌⊎◌, inl, inr, refl, sym, ap, ◌∙◌, Option, none, some, List, [], ◌∷◌, ◌++◌,
  append_assoc, Text, Option-cases, arith, take, replicate, append-nil,
}
use cffi_proxy.Action.{Outcome, ok, panics}
use cffi_proxy.Http.{Err}
use cffi_proxy.Counter.{
  Crypto, PrivateKey, rsa, ecdsa, other, CounterEncryptorRand, new_from_key, from_bytes, seeded,
}
use cffi_proxy.Signer.{
  Signing, Template, Certificate, add_host, add_hosts, new_template, certify, generate, issue,
  sign_for, sign_host,
}

-- A certificate and no error, or an error and no certificate.
abbrev Settled : Text → Option Certificate × Option Err → Type 0
Settled leaf (some cert, none) = (der : Text) × (cert.chain ≡ der ∷ leaf ∷ [])
Settled leaf (none, some e) = Unit {0}
Settled leaf (some cert, some e) = ⊥
Settled leaf (none, none) = ⊥

-- An outcome that is no panic and settles.
abbrev pub Answers : Text → Outcome (Option Certificate × Option Err) → Type 0
Answers leaf (ok x) = Settled leaf x
Answers leaf (panics p) = ⊥

module _ (crypto : Crypto) where
  from_bytes_cases :
      (bytes : Text) (seed : Option Text)
      → ((e : Err) × (from_bytes crypto bytes seed ≡ (none, some e)))
        ⊎ ((c : CounterEncryptorRand) × (from_bytes crypto bytes seed ≡ (some c, none)))
  unfolding from_bytes
  from_bytes_cases bytes seed =
      elim (Option-cases (crypto.cipher_error (take 16 (bytes ++ crypto.digest)))) [
        | inl works ↦ inr (
          record {
            cipher_key = take 16 (bytes ++ crypto.digest);
            counter = seeded crypto seed (replicate crypto.block_size 0);
            rand = replicate crypto.block_size 0;
            ix = crypto.block_size;
          },
          rw (works, from_bytes) refl,
        )
        | inr (e, fails) ↦ inl (e, rw (fails, from_bytes) refl)
      ]

  -- NewCounterEncryptorRandFromKey gives an error or a reader, and a reader only for a key that
  -- signHost can use.
  new_from_key_cases :
      (key : PrivateKey) (seed : Option Text)
      → ((e : Err) × (new_from_key crypto key seed ≡ (none, some e)))
        ⊎ ((c : CounterEncryptorRand) × (new_from_key crypto key seed ≡ (some c, none))
            × (key ≢ other))
  unfolding new_from_key
  new_from_key_cases (rsa der) seed = elim (from_bytes_cases der seed) [
    | inl (e, h) ↦ inl (e, h)
    | inr (c, h) ↦ inr (c, h, λ k. cc)
  ]
  new_from_key_cases (ecdsa der none) seed = elim (from_bytes_cases der seed) [
    | inl (e, h) ↦ inl (e, h)
    | inr (c, h) ↦ inr (c, h, λ k. cc)
  ]
  new_from_key_cases (ecdsa der (some e)) seed = inl (e, refl)
  new_from_key_cases other seed = inl (_, refl)

module _ (signing : Signing) where
  certify-Answers :
      (leaf subject : Text) (t : Template) (key : PrivateKey)
      (made : (CounterEncryptorRand × PrivateKey) × Option Err)
      → Answers leaf (certify signing leaf subject t key made)
  unfolding certify
  certify-Answers leaf subject t key (made, some e) = tt
  certify-Answers leaf subject t key ((c, k), none) =
      elim (Option-cases (signing.create c t subject k key).1) [
        | inl made ↦ rw (made, certify) ((signing.create c t subject k key).0, refl)
        | inr (e, fails) ↦ rw (fails, certify) tt
      ]

  generate-Answers :
      (leaf subject : Text) (t : Template) (key : PrivateKey) (c : CounterEncryptorRand)
      → key ≢ other
      → Answers leaf (generate signing leaf subject t key c)
  unfolding generate
  generate-Answers leaf subject t (rsa der) c h = certify-Answers leaf subject t (rsa der) _
  generate-Answers leaf subject t (ecdsa der e) c h = certify-Answers leaf subject t (ecdsa der e) _
  generate-Answers leaf subject t other c h = absurd (h refl)

  issue-Answers :
      (leaf subject : Text) (key : PrivateKey) (hosts : List Text) (seed : Option Text)
      → Answers leaf (issue signing leaf subject key hosts (new_from_key signing.crypto key seed))
  unfolding issue
  issue-Answers leaf subject key hosts seed = elim (new_from_key_cases signing.crypto key seed) [
    | inl (e, fails) ↦ rw fails tt
    | inr (c, made, usable) ↦ rw made (generate-Answers leaf subject _ key c usable)
  ]

  sign_for-Answers :
      (leaf : Text) (key : PrivateKey) (hosts : List Text) (subject : Option Text)
      → Answers leaf (sign_for signing leaf key hosts subject)
  unfolding sign_for
  sign_for-Answers leaf key hosts none = tt
  sign_for-Answers leaf key hosts (some subject) = issue-Answers leaf subject key hosts _

  -- If the CA has a certificate, signHost does not panic: it gives an error, or a certificate whose
  -- chain is a new one and the CA's first, never both and never neither.
  pub sign_host-Answers :
      (ca : Certificate) (leaf : Text) (rest : List Text) (hosts : List Text)
      → ca.chain ≡ leaf ∷ rest
      → Answers leaf (sign_host signing ca hosts)
  unfolding sign_host
  sign_host-Answers ca leaf rest hosts chain =
      rw chain (sign_for-Answers leaf ca.private_key hosts (signing.parse_subject leaf))

  -- A host as a name, if it is no IP address, and as an address, if it is one.
  unfoldable pub name_of : Text → List Text
  name_of h = elim (signing.parse_ip h) [ none ↦ h ∷ [] | some ip ↦ [] ]

  unfoldable pub address_of : Text → List Text
  address_of h = elim (signing.parse_ip h) [ none ↦ [] | some ip ↦ ip ∷ [] ]

  unfoldable pub names : List Text → List Text
  unfolding name_of
  names [] = []
  names (h ∷ hs) = name_of h ++ names hs

  unfoldable pub addresses : List Text → List Text
  unfolding address_of
  addresses [] = []
  addresses (h ∷ hs) = address_of h ++ addresses hs

  add_host-name_of :
      (h : Text) (t : Template)
      → ((add_host signing h t).dns_names ≡ t.dns_names ++ name_of h)
        × ((add_host signing h t).ip_addresses ≡ t.ip_addresses ++ address_of h)
  unfolding add_host name_of address_of
  add_host-name_of h t =
      (ground (arith, append-nil t.dns_names), ground (arith, append-nil t.ip_addresses))

  add_hosts-names :
      (hosts : List Text) (t : Template)
      → ((add_hosts signing hosts t).dns_names ≡ t.dns_names ++ names hosts)
        × ((add_hosts signing hosts t).ip_addresses ≡ t.ip_addresses ++ addresses hosts)
  unfolding add_hosts names addresses
  add_hosts-names [] t = (sym (append-nil t.dns_names), sym (append-nil t.ip_addresses))
  add_hosts-names (h ∷ hs) t =
      let here = add_host-name_of h t in
      let rest = add_hosts-names hs (add_host signing h t) in
      (
        rest.0
            ∙ ap (λ (ns : List Text). ns ++ names hs) here.0
            ∙ append_assoc t.dns_names (name_of h) (names hs),
        rest.1
            ∙ ap (λ (ips : List Text). ips ++ addresses hs) here.1
            ∙ append_assoc t.ip_addresses (address_of h) (addresses hs),
      )

  -- The certificate is for each host once, in order: as an address if it is one, and else as a name.
  pub new_template-hosts :
      (subject : Text) (hosts : List Text)
      → ((new_template signing subject hosts).dns_names ≡ names hosts)
        × ((new_template signing subject hosts).ip_addresses ≡ addresses hosts)
  unfolding new_template
  new_template-hosts subject hosts = add_hosts-names hosts _
