-- ===== src/Websocket/Upgrade.antt =====
-- goproxy/websocket.go, the recognition of an upgrade request, with what it uses of package strings.
pub mod Trimming
pub mod Tokens
use mathlib.Core.List.{reverse}
use cffi_proxy.Base.{
  ℕ, zero, suc, ◌+◌, Bool, ◌&&◌, List, [], ◌∷◌, map, Text, codes, text_eq, has_prefix, any, length,
  drop, leb, ◌==◌, if◌then◌else◌,
}
use cffi_proxy.Http.{Request}
use cffi_proxy.Http.Headers.{Header, values}

-- strings.Split(s, sep) for a separator of one byte: `acc` is the part being read, reversed.
unfoldable pub split_loop : ℕ → Text → Text → List Text
split_loop sep acc [] = reverse acc ∷ []
split_loop sep acc (c ∷ s) =
    let here = reverse acc ∷ split_loop sep [] s in
    let on = split_loop sep (c ∷ acc) s in if c == sep then here else on

unfoldable pub split : ℕ → Text → List Text
unfolding split_loop
split sep s = split_loop sep [] s

-- The UTF-8 encodings of the code points that unicode.IsSpace accepts.
abbrev pub spaces : List Text
spaces =
    (9 ∷ [])
    ∷ (10 ∷ [])
    ∷ (11 ∷ [])
    ∷ (12 ∷ [])
    ∷ (13 ∷ [])
    ∷ (32 ∷ [])
    ∷ (0xc2 ∷ 0x85 ∷ [])
    ∷ (0xc2 ∷ 0xa0 ∷ [])
    ∷ (0xe1 ∷ 0x9a ∷ 0x80 ∷ [])
    ∷ (0xe2 ∷ 0x80 ∷ 0x80 ∷ [])
    ∷ (0xe2 ∷ 0x80 ∷ 0x81 ∷ [])
    ∷ (0xe2 ∷ 0x80 ∷ 0x82 ∷ [])
    ∷ (0xe2 ∷ 0x80 ∷ 0x83 ∷ [])
    ∷ (0xe2 ∷ 0x80 ∷ 0x84 ∷ [])
    ∷ (0xe2 ∷ 0x80 ∷ 0x85 ∷ [])
    ∷ (0xe2 ∷ 0x80 ∷ 0x86 ∷ [])
    ∷ (0xe2 ∷ 0x80 ∷ 0x87 ∷ [])
    ∷ (0xe2 ∷ 0x80 ∷ 0x88 ∷ [])
    ∷ (0xe2 ∷ 0x80 ∷ 0x89 ∷ [])
    ∷ (0xe2 ∷ 0x80 ∷ 0x8a ∷ [])
    ∷ (0xe2 ∷ 0x80 ∷ 0xa8 ∷ [])
    ∷ (0xe2 ∷ 0x80 ∷ 0xa9 ∷ [])
    ∷ (0xe2 ∷ 0x80 ∷ 0xaf ∷ [])
    ∷ (0xe2 ∷ 0x81 ∷ 0x9f ∷ [])
    ∷ (0xe3 ∷ 0x80 ∷ 0x80 ∷ [])
    ∷ []

-- The length of the first listed text that `s` begins with, 0 if there is none.
unfoldable pub leading : List Text → Text → ℕ
leading [] s = 0
leading (p ∷ ps) s = if has_prefix s p then length p else leading ps s

-- At most `fuel` spaces off the front.
unfoldable pub trim_front : List Text → ℕ → Text → Text
unfolding leading has_prefix
trim_front ps zero s = s
trim_front ps (suc fuel) s =
    let n = leading ps s in let rest = trim_front ps fuel (drop n s) in if n == 0 then s else rest

-- strings.TrimSpace
unfoldable pub trim_space : Text → Text
unfolding trim_front
trim_space s =
    let t = trim_front spaces (length s) s in
    reverse (trim_front (map reverse spaces) (length t) (reverse t))

-- The small ASCII letter that a text's first code point folds to: the two letters outside ASCII
-- that do are the long s and the Kelvin sign.
unfoldable pub fold : Text → Text
fold [] = []
fold (c ∷ []) = (if leb b'A' c && leb c b'Z' then c + 32 else c) ∷ []
fold (c ∷ d ∷ []) =
    if c == 0xc5 && d == 0xbf
    then b's' ∷ []
    else (if leb b'A' c && leb c b'Z' then c + 32 else c) ∷ fold (d ∷ [])
fold (c ∷ d ∷ e ∷ s) =
    let two = b's' ∷ fold (e ∷ s) in
    let three = b'k' ∷ fold s in
    let one = (if leb b'A' c && leb c b'Z' then c + 32 else c) ∷ fold (d ∷ e ∷ s) in
    if c == 0xc5 && d == 0xbf
    then two
    else if c == 0xe2 && d == 0x84 && e == 0xaa
    then three
    else one

-- strings.EqualFold(value, s), for a `value` in ASCII.
unfoldable pub equal_fold : Text → Text → Bool
unfolding fold text_eq
equal_fold value s = text_eq (fold value) (fold s)

-- `header[name]` is a map lookup: the name is not canonicalised.
unfoldable pub header_contains : Header → Text → Text → Bool
unfolding split trim_space equal_fold
header_contains header name value =
    any (λ v. any (λ s. equal_fold value (trim_space s)) (split b',' v)) (values header name)

unfoldable pub is_web_socket_request : Request → Bool
unfolding header_contains codes
is_web_socket_request r =
    header_contains r.header (codes "Connection") (codes "upgrade")
    && header_contains r.header (codes "Upgrade") (codes "websocket")
