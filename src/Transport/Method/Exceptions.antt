-- ===== src/Transport/Method/Exceptions.antt =====
-- goproxy/transport/transport.go, useProxy: the hosts that NO_PROXY excepts.
use mathlib.Core.List.{reverse, reverse-append, reverse-reverse}
use cffi_proxy.Base.{
  ℕ, ◌≡◌, refl, sym, ap, ◌∙◌, Bool, Bool-cases, inl, inr, true, false, not, ◌&&◌, ◌||◌, Option,
  some, List, [], ◌∷◌, ◌++◌, map, Text, codes, text_eq, text_eq_refl, eq_of_text_eq, has_prefix,
  any, ◌==◌, arith, if◌then◌else◌,
}
use cffi_proxy.Action.{Outcome, ok, panics}
use cffi_proxy.Websocket.Upgrade.{trim_space}
use cffi_proxy.Websocket.Upgrade.Trimming.{trim_space-padded}
use cffi_proxy.Websocket.Upgrade.Tokens.{Token, printed, joined, IsToken, AreTokens, split-joined}
use cffi_proxy.Transport.Method.{
  without_port, to_lower, has_suffix, covers, excludes, none_excludes, use_proxy,
}

-- An entry excepts a host with its name; one that begins with a dot, the domain after the dot with all
-- that is below it.
abbrev pub excepts : Text → Text → Bool
excepts [] target = text_eq target []
excepts (d ∷ p) target =
    if d == b'.' then has_suffix (b'.' ∷ target) (d ∷ p) else text_eq target (d ∷ p)

has_prefix-snoc :
    (s : Text) (c : ℕ) (p : Text)
    → has_prefix (s ++ c ∷ []) p ≡ (has_prefix s p || text_eq (s ++ c ∷ []) p)
unfolding has_prefix text_eq
has_prefix-snoc [] c [] = refl
has_prefix-snoc [] c (d ∷ []) = ground arith
has_prefix-snoc [] c (d ∷ e ∷ p) = ground arith
has_prefix-snoc (b ∷ s) c [] = refl
has_prefix-snoc (b ∷ s) c (d ∷ p) = ground (arith, has_prefix-snoc s c p)

text_eq-reverse : (s t : Text) → text_eq (reverse s) (reverse t) ≡ text_eq s t
text_eq-reverse s t = elim (Bool-cases (text_eq s t)) [
  | inl e ↦
      let same : s ≡ t = eq_of_text_eq s t e in
      rw e
        (ap (λ (x : Text). text_eq (reverse s) (reverse x)) (sym same) ∙ text_eq_refl (reverse s))
  | inr n ↦ elim (Bool-cases (text_eq (reverse s) (reverse t))) [
    | inl e ↦
        let same : s ≡ t =
          sym (reverse-reverse s)
          ∙ ap reverse (eq_of_text_eq (reverse s) (reverse t) e)
          ∙ reverse-reverse t in
        let yes' : text_eq s t ≡ true = ap (text_eq s) (sym same) ∙ text_eq_refl s in cc
    | inr n' ↦ n' ∙ sym n
  ]
]

has_suffix-dot :
    (target p : Text)
    → has_suffix (b'.' ∷ target) p ≡ (has_suffix target p || text_eq (b'.' ∷ target) p)
unfolding has_suffix
has_suffix-dot target p =
    ap (λ (x : Text). has_prefix x (reverse p)) (reverse-append (b'.' ∷ []) target)
    ∙ has_prefix-snoc (reverse target) b'.' (reverse p)
    ∙ ap (λ (x : Text). has_prefix (reverse target) (reverse p) || text_eq x (reverse p))
        (sym (reverse-append (b'.' ∷ []) target))
    ∙ ap (λ (b : Bool). has_prefix (reverse target) (reverse p) || b)
        (text_eq-reverse (b'.' ∷ target) p)

has_prefix_refl : (s : Text) → has_prefix s s ≡ true
unfolding has_prefix
has_prefix_refl [] = refl
has_prefix_refl (c ∷ s) = ground (arith, has_prefix_refl s)

-- A host that is an entry ends with it.
has_suffix-same : (target p : Text) → text_eq target p ≡ true → has_suffix target p ≡ true
unfolding has_suffix
has_suffix-same target p e =
    ap (λ (x : Text). has_prefix (reverse target) (reverse x)) (sym (eq_of_text_eq target p e))
    ∙ has_prefix_refl (reverse target)

either : (a b c : Bool) → (a ≡ true → b ≡ true) → (a || (b || c)) ≡ (b || c)
either true b c h = ap (λ (x : Bool). x || c) (sym (h refl))
either false b c h = refl

or_false : (b : Bool) → (b || false) ≡ b
or_false true = refl
or_false false = refl

covers-excepts :
    (target : Text) (d : ℕ) (p : Text) → covers target (d ∷ p) ≡ ok (excepts (d ∷ p) target)
unfolding covers text_eq
covers-excepts target d p = elim (Bool-cases (d == b'.')) [
  | inl dot ↦
      let begins : (b'.' == d) ≡ true = ground arith in
      rw dot (
        ap ok (
          either (text_eq target (d ∷ p)) (has_suffix target (d ∷ p)) (text_eq target p)
            (has_suffix-same target (d ∷ p))
          ∙ sym (
              has_suffix-dot target (d ∷ p)
              ∙ ap (λ (b : Bool). has_suffix target (d ∷ p) || (b && text_eq target p)) begins)))
  | inr other ↦ rw other (ap ok (or_false (text_eq target (d ∷ p))))
]

-- An entry as it is compared: in small letters, and without a port.
abbrev pub entry : Token → Text
entry t = without_port (to_lower (t.first ∷ t.others))

-- Tokens of which none is a port alone.
abbrev pub NamesHost : List Token → Type 0
NamesHost [] = Unit {0}
NamesHost (t ∷ ts) = (text_eq (entry t) [] ≡ false) × NamesHost ts

covers-nonempty : (target p : Text) → text_eq p [] ≡ false → covers target p ≡ ok (excepts p target)
unfolding text_eq
covers-nonempty target [] h = cc
covers-nonempty target (d ∷ p) h = covers-excepts target d p

abbrev excludes_trimmed : Text → Text → Outcome Bool
excludes_trimmed target x = elim (to_lower x) [
  | [] ↦ ok false
  | c ∷ s ↦ covers target (without_port (c ∷ s))
]

excludes-printed :
    (target : Text) (t : Token)
    → IsToken t
    → text_eq (entry t) [] ≡ false
    → excludes target (printed t) ≡ ok (excepts (entry t) target)
unfolding excludes to_lower
excludes-printed target t v n =
    ap (excludes_trimmed target) (
      trim_space-padded t.before t.after t.first t.others v.blank_before v.blank_after
        v.all_visible)
    ∙ covers-nonempty target (entry t) n

abbrev after : Outcome Bool → Outcome Bool → Outcome Bool
after o rest = elim o [ panics e ↦ panics e | ok excluded ↦ if excluded then ok false else rest ]

unless : (a b : Bool) → after (ok a) (ok (not b)) ≡ ok (not (a || b))
unless true b = refl
unless false b = refl

none_excludes-printed :
    (target : Text) (ts : List Token)
    → AreTokens ts
    → NamesHost ts
    → none_excludes target (map printed ts)
      ≡ ok (not (any (λ (t : Token). excepts (entry t) target) ts))
unfolding none_excludes
none_excludes-printed target [] v n = refl
none_excludes-printed target (t ∷ ts) v n =
    ap (λ (o : Outcome Bool). after o (none_excludes target (map printed ts)))
      (excludes-printed target t v.0 n.0)
    ∙ ap (after (ok (excepts (entry t) target))) (none_excludes-printed target ts v.1 n.1)
    ∙ unless (excepts (entry t) target) (any (λ (u : Token). excepts (entry u) target) ts)

-- For an address whose host is neither "localhost" nor a loopback address, and a NO_PROXY other than
-- "*" that is a list of entries, of visible ASCII bytes, with commas between them and any blanks
-- around them, none of which is a port alone: a proxy is used exactly if no entry excepts the host.
-- The host and the entries are compared in small letters and without their ports.
pub use_proxy-excepts :
    (split_host : Text → Option Text) (is_loopback : Text → Bool) (c : ℕ) (addr host : Text)
    (t : Token) (ts : List Token)
    → split_host (c ∷ addr) ≡ some host
    → text_eq host (codes "localhost") ≡ false
    → is_loopback host ≡ false
    → text_eq (joined t ts) (codes "*") ≡ false
    → AreTokens (t ∷ ts)
    → NamesHost (t ∷ ts)
    → let target = without_port (to_lower (trim_space (c ∷ addr))) in
      use_proxy split_host is_loopback (joined t ts) (c ∷ addr)
      ≡ ok (not (any (λ (u : Token). excepts (entry u) target) (t ∷ ts)))
unfolding use_proxy
use_proxy-excepts split_host is_loopback c addr host t ts h l b star v n =
    let target = without_port (to_lower (trim_space (c ∷ addr))) in
    rw (h, l, b, star, use_proxy)
      (ap (none_excludes target) (split-joined t ts v.0 v.1)
        ∙ none_excludes-printed target (t ∷ ts) v n)
