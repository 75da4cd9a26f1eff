-- ===== src/Https/Address.antt =====
-- goproxy/https.go, stripPort; goproxy/proxy.go, hasPort.
use cffi_proxy.Base.{
  index_of-append, contains-append, remove-append, remove_absent, last_index-snoc, ℕ, ap, ◌∙◌, Bool,
  true, false, ◌&&◌, ◌||◌, ◌≡◌, refl, Option, none, some, Text, [], ◌∷◌, ◌++◌, take, codes, ◌==◌,
  leb, if◌then◌else◌, index_of, last_index_of, contains, remove, arith, take-append_length,
  append-nil,
}

abbrev colon : ℕ
colon = 58

abbrev open_bracket : ℕ
open_bracket = 91

abbrev close_bracket : ℕ
close_bracket = 93

-- s[:ix], or s if there is no ix
unfoldable cut_at : Option ℕ → Text → Text
cut_at none s = s
cut_at (some ix) s = take ix s

-- What is done to an address that has lost its brackets.
unfoldable cut_bare : Text → Text
unfolding cut_at last_index_of
cut_bare s = cut_at (last_index_of colon s) s

-- stripPort
unfoldable pub strip_port : Text → Text
unfolding cut_at cut_bare index_of contains remove
strip_port s =
    if contains s open_bracket && contains s close_bracket
    then cut_bare (remove close_bracket (remove open_bracket s))
    else cut_at (index_of colon s) s

unfoldable all_digits : Text → Bool
all_digits [] = true
all_digits (c ∷ s) = leb 48 c && leb c 57 && all_digits s

-- The regular expression `:\d+$`.
unfoldable pub has_port : Text → Bool
unfolding all_digits
has_port [] = false
has_port (c ∷ []) = false
has_port (c ∷ d ∷ s) = ((c == colon) && all_digits (d ∷ s)) || has_port (d ∷ s)

-- What a CONNECT that is accepted dials.
unfoldable pub with_port : Text → Text
unfolding has_port
with_port host = if has_port host then host else host ++ codes ":80"

-- Of a host and a port, stripPort leaves the host: if the host has no colon and neither has an
-- opening bracket.
pub strip_port-host :
    (host port : Text)
    → contains host colon ≡ false
    → contains host open_bracket ≡ false
    → contains port open_bracket ≡ false
    → strip_port (host ++ colon ∷ port) ≡ host
unfolding strip_port
strip_port-host host port h b b' =
    let no_bracket : contains (host ++ colon ∷ port) open_bracket ≡ false =
      contains-append open_bracket host (colon ∷ port) ∙ unfold contains in ground arith in
    rw (no_bracket, index_of-append colon host port h) (take-append_length host (colon ∷ port))

strip_bracketed :
    (s : Text)
    → contains s open_bracket ≡ true
    → contains s close_bracket ≡ true
    → strip_port s ≡ cut_bare (remove close_bracket (remove open_bracket s))
unfolding strip_port
strip_bracketed s h h' = rw (h, h')

bare_address :
    (host port : Text)
    → contains host open_bracket ≡ false
    → contains host close_bracket ≡ false
    → contains port open_bracket ≡ false
    → contains port close_bracket ≡ false
    → remove close_bracket (remove open_bracket (host ++ close_bracket ∷ colon ∷ port))
      ≡ host ++ colon ∷ port
unfolding remove
bare_address host port b c b' c' =
    let tail = close_bracket ∷ colon ∷ port in
    let no_open : contains (host ++ tail) open_bracket ≡ false =
      contains-append open_bracket host tail ∙ unfold contains in ground arith in
    ap (remove close_bracket) (remove_absent open_bracket (host ++ tail) no_open)
    ∙ remove-append close_bracket host tail
    ∙ rw (remove_absent close_bracket host c)
        (ap (λ (t : Text). host ++ colon ∷ t) (remove_absent close_bracket port c'))

bare_group :
    (host : Text)
    → contains host open_bracket ≡ false
    → contains host close_bracket ≡ false
    → remove close_bracket (remove open_bracket (host ++ close_bracket ∷ [])) ≡ host
unfolding remove contains
bare_group host b c =
    let tail = close_bracket ∷ [] in
    let no_open : contains (host ++ tail) open_bracket ≡ false =
      contains-append open_bracket host tail ∙ ground arith in
    ap (remove close_bracket) (remove_absent open_bracket (host ++ tail) no_open)
    ∙ remove-append close_bracket host tail
    ∙ rw (remove_absent close_bracket host c) (append-nil host)

-- An address of groups with colons between them, the last one by itself.
abbrev pub grouped : Text → Text → Text
grouped groups last = groups ++ colon ∷ last

-- Of a bracketed address, whose last group comes after its last colon, stripPort leaves: the address
-- without its brackets, if a port comes after it; and all but its last group, if none does. Neither
-- the address nor the port has a bracket, and neither the port nor the last group has a colon.
pub strip_port-IPv6 :
    (groups last port : Text)
    → contains (grouped groups last) open_bracket ≡ false
    → contains (grouped groups last) close_bracket ≡ false
    → contains port open_bracket ≡ false
    → contains port close_bracket ≡ false
    → contains port colon ≡ false
    → contains last colon ≡ false
    → (strip_port (open_bracket ∷ (grouped groups last) ++ close_bracket ∷ colon ∷ port)
        ≡ (grouped groups last))
      × (strip_port (open_bracket ∷ (grouped groups last) ++ close_bracket ∷ []) ≡ groups)
unfolding cut_bare cut_at contains remove
strip_port-IPv6 groups last port b c b' c' h l =
    let host = groups ++ colon ∷ last in
    let tail = close_bracket ∷ colon ∷ port in
    (
      strip_bracketed (open_bracket ∷ host ++ tail) refl
            (ground (arith, contains-append close_bracket host tail))
          ∙ rw (bare_address host port b c b' c', last_index-snoc colon host port h)
              (take-append_length host (colon ∷ port)),
      strip_bracketed (open_bracket ∷ host ++ close_bracket ∷ []) refl
            (ground (arith, contains-append close_bracket host (close_bracket ∷ [])))
          ∙ rw (bare_group host b c, last_index-snoc colon groups last l)
              (take-append_length groups (colon ∷ last)),
    )

has_port-append : (s t : Text) → has_port t ≡ true → has_port (s ++ t) ≡ true
unfolding has_port
has_port-append [] t h = h
has_port-append (c ∷ []) [] h = ground arith
has_port-append (c ∷ []) (d ∷ t) h = ground arith
has_port-append (c ∷ d ∷ s) t h = ground (arith, has_port-append (d ∷ s) t h)

-- The address that is dialled for a CONNECT has a port, and an address that has been given a port
-- is not changed again.
pub has_port-with_port :
    (host : Text)
    → (has_port (with_port host) ≡ true) × (with_port (with_port host) ≡ with_port host)
unfolding with_port
has_port-with_port host =
    let added : has_port (host ++ codes ":80") ≡ true =
      has_port-append host (codes ":80") (unfold codes has_port in refl) in
    ground (arith, added)
