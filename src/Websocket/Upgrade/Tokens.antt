-- ===== src/Websocket/Upgrade/Tokens.antt =====
-- goproxy/websocket.go: which requests are recognised as upgrades.
use mathlib.Core.List.{reverse, reverse-append}
use cffi_proxy.Base.{
  ℕ, ◌≡◌, refl, sym, ap, ◌∙◌, Bool, true, false, ◌&&◌, not, List, [], ◌∷◌, ◌++◌, map, Text, codes,
  text_eq, any, all, ◌==◌, arith, append_assoc, append-nil,
}
use cffi_proxy.Http.{Request}
use cffi_proxy.Http.Headers.{Header, values}
use cffi_proxy.Websocket.Upgrade.{
  split, split_loop, trim_space, equal_fold, fold, header_contains, is_web_socket_request,
}
use cffi_proxy.Websocket.Upgrade.Trimming.{blank, visible, lower, trim_space-padded, fold-visible}

-- A token of a list in a header, between blanks; it is not empty.
pub record Token : Type 0 where
  pub before : Text
  pub first : ℕ
  pub others : Text
  pub after : Text

abbrev pub printed : Token → Text
printed t = t.before ++ ((t.first ∷ t.others) ++ t.after)

-- The tokens with commas between them.
abbrev pub joined : Token → List Token → Text
joined t [] = printed t
joined t (u ∷ us) = printed t ++ b',' ∷ joined u us

abbrev no_comma : Text → Bool
no_comma s = all (λ c. not (c == b',')) s

-- Blanks around visible bytes, of which none is a comma.
pub record IsToken (t : Token) : Type 0 where
  pub blank_before : all blank t.before ≡ true
  pub blank_after : all blank t.after ≡ true
  pub all_visible : all visible (t.first ∷ t.others) ≡ true
  pub no_commas : no_comma (t.first ∷ t.others) ≡ true

abbrev pub AreTokens : List Token → Type 0
AreTokens [] = Unit {0}
AreTokens (t ∷ ts) = IsToken t × AreTokens ts

no_comma-blank : (s : Text) → all blank s ≡ true → no_comma s ≡ true
no_comma-blank [] h = refl
no_comma-blank (c ∷ s) h =
    let differ : (c == b',') ≡ false = ground arith in ground (arith, no_comma-blank s)

no_comma-append : (s t : Text) → no_comma s ≡ true → no_comma t ≡ true → no_comma (s ++ t) ≡ true
no_comma-append [] t h k = k
no_comma-append (c ∷ s) t h k = ground (arith, no_comma-append s t)

no_comma-printed : (t : Token) → IsToken t → no_comma (printed t) ≡ true
no_comma-printed t v =
    no_comma-append t.before ((t.first ∷ t.others) ++ t.after)
      (no_comma-blank t.before v.blank_before)
      (no_comma-append (t.first ∷ t.others) t.after v.no_commas
        (no_comma-blank t.after v.blank_after))

split_loop-end :
    (acc s : Text) → no_comma s ≡ true → split_loop b',' acc s ≡ (reverse acc ++ s) ∷ []
unfolding split_loop
split_loop-end acc [] h = ap (λ (x : Text). x ∷ []) (sym (append-nil (reverse acc)))
split_loop-end acc (c ∷ s) h =
    let differ : (c == b',') ≡ false = ground arith in
    rw differ (
      split_loop-end (c ∷ acc) s (ground arith)
      ∙ ap (λ (x : Text). x ∷ [])
          (ap (λ (x : Text). x ++ s) (reverse-append (c ∷ []) acc)
            ∙ append_assoc (reverse acc) (c ∷ []) s))

split_loop-comma :
    (acc s rest : Text)
    → no_comma s ≡ true
    → split_loop b',' acc (s ++ b',' ∷ rest) ≡ (reverse acc ++ s) ∷ split_loop b',' [] rest
unfolding split_loop
split_loop-comma acc [] rest h =
    ap (λ (x : Text). x ∷ split_loop b',' [] rest) (sym (append-nil (reverse acc)))
split_loop-comma acc (c ∷ s) rest h =
    let differ : (c == b',') ≡ false = ground arith in
    rw differ (
      split_loop-comma (c ∷ acc) s rest (ground arith)
      ∙ ap (λ (x : Text). x ∷ split_loop b',' [] rest)
          (ap (λ (x : Text). x ++ s) (reverse-append (c ∷ []) acc)
            ∙ append_assoc (reverse acc) (c ∷ []) s))

-- Splitting at the commas gives the tokens back.
pub split-joined :
    (t : Token) (ts : List Token)
    → IsToken t
    → AreTokens ts
    → split b',' (joined t ts) ≡ map printed (t ∷ ts)
unfolding split
split-joined t [] v vs = split_loop-end [] (printed t) (no_comma-printed t v)
split-joined t (u ∷ us) v vs =
    split_loop-comma [] (printed t) (joined u us) (no_comma-printed t v)
    ∙ ap (◌∷◌ (printed t)) (split-joined u us vs.0 vs.1)

-- Whether a token is a word, in capitals or not.
abbrev pub says : Text → Token → Bool
says word t = text_eq word (map lower (t.first ∷ t.others))

-- One value of a header: its tokens.
pub record Row : Type 0 where
  pub head : Token
  pub tail : List Token

abbrev pub row_text : Row → Text
row_text row = joined row.head row.tail

abbrev pub AreRows : List Row → Type 0
AreRows [] = Unit {0}
AreRows (row ∷ rows) = IsToken row.head × AreTokens row.tail × AreRows rows

-- Whether a word is among the tokens of any value.
abbrev pub says_any : Text → List Row → Bool
says_any word rows = any (λ (row : Row). any (says word) (row.head ∷ row.tail)) rows

module _ (word : Text) (small : fold word ≡ word) where
  equal_fold-printed :
      (t : Token) → IsToken t → equal_fold word (trim_space (printed t)) ≡ says word t
  unfolding equal_fold
  equal_fold-printed t v =
      ap (λ (x : Text). text_eq (fold word) (fold x))
        (trim_space-padded t.before t.after t.first t.others v.blank_before v.blank_after
          v.all_visible)
      ∙ ap (text_eq (fold word)) (fold-visible (t.first ∷ t.others) v.all_visible)
      ∙ ap (λ (x : Text). text_eq x (map lower (t.first ∷ t.others))) small

  any-printed :
      (ts : List Token)
      → AreTokens ts
      → any (λ (s : Text). equal_fold word (trim_space s)) (map printed ts) ≡ any (says word) ts
  any-printed [] v = refl
  any-printed (t ∷ ts) v = rw (equal_fold-printed t v.0, any-printed ts v.1) refl

  any-rows :
      (rows : List Row)
      → AreRows rows
      → any
          (λ (x : Text). any (λ (s : Text). equal_fold word (trim_space s)) (split b',' x))
          (map row_text rows)
        ≡ says_any word rows
  any-rows [] v = refl
  any-rows (row ∷ rows) v =
      rw
        (
          split-joined row.head row.tail v.0 v.1,
          any-printed (row.head ∷ row.tail) (v.0, v.1),
          any-rows rows v.2,
        )
        refl

  header_contains-tokens :
      (header : Header) (name : Text) (rows : List Row)
      → values header name ≡ map row_text rows
      → AreRows rows
      → header_contains header name word ≡ says_any word rows
  unfolding header_contains
  header_contains-tokens header name rows e v =
      ap
        (λ (xs : List Text).
          any (λ (x : Text). any (λ (s : Text). equal_fold word (trim_space s)) (split b',' x)) xs)
        e
      ∙ any-rows rows v

-- If the values of the headers Connection and Upgrade are lists of tokens, of visible ASCII bytes, with
-- commas between them and any blanks around them, a request is recognised as an upgrade exactly when
-- one of the tokens of the one is "upgrade" and one of the tokens of the other is "websocket", in
-- capitals or not.
pub is_web_socket_request-tokens :
    (r : Request) (connection upgrade : List Row)
    → values r.header (codes "Connection") ≡ map row_text connection
    → values r.header (codes "Upgrade") ≡ map row_text upgrade
    → AreRows connection
    → AreRows upgrade
    → is_web_socket_request r
      ≡ (says_any (codes "upgrade") connection && says_any (codes "websocket") upgrade)
unfolding is_web_socket_request fold codes
is_web_socket_request-tokens r connection upgrade c u v w = λ i.
    (header_contains-tokens (codes "upgrade") refl r.header (codes "Connection") connection c v i)
    && (header_contains-tokens (codes "websocket") refl r.header (codes "Upgrade") upgrade u w i)
