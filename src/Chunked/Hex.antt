-- ===== src/Chunked/Hex.antt =====
-- strconv.FormatInt(n, 16) for a length: lower-case digits, most significant first; and reading them.
use cffi_proxy.Base.{
  ℕ, zero, suc, Bool, true, false, ◌+◌, ◌-◌, ◌*◌, ◌/◌, ◌%◌, ◌<◌, ◌≡◌, refl, ap, ◌∙◌, ◌&&◌, Option,
  none, some, Text, [], ◌∷◌, ◌++◌, ltb, leb, if◌then◌else◌, arith,
}

unfoldable pub hex_digit : ℕ → ℕ
hex_digit d = if ltb d 10 then b'0' + d else b'a' + (d - 10)

-- At most `fuel` digits, in front of `acc`.
unfoldable pub format_loop : ℕ → ℕ → Text → Text
unfolding hex_digit
format_loop zero n acc = acc
format_loop (suc fuel) n acc =
    let rest = format_loop fuel (n / 16) (hex_digit (n % 16) ∷ acc) in
    if ltb n 16 then hex_digit n ∷ acc else rest

-- The fuel is enough: a number has no more digits than its value and one.
unfoldable pub format_hex : ℕ → Text
unfolding format_loop
format_hex n = format_loop (suc n) n []

unfoldable pub hex_value : ℕ → Option ℕ
hex_value c =
    if leb b'0' c && leb c b'9'
    then some (c - b'0')
    else if leb b'a' c && leb c b'f'
    then some (c - b'a' + 10)
    else none

-- Reads digits up to the first byte that is none.
unfoldable pub parse_hex : ℕ → Text → ℕ × Text
unfolding hex_value
parse_hex acc [] = (acc, [])
parse_hex acc (c ∷ s) = elim (hex_value c) [
  | some d ↦ parse_hex (acc * 16 + d) s
  | none ↦ (acc, c ∷ s)
]

-- Whether a digit comes first.
unfoldable pub starts_hex : Text → Bool
unfolding hex_value
starts_hex [] = false
starts_hex (c ∷ s) = elim (hex_value c) [ some d ↦ true | none ↦ false ]

hex_value-hex_digit : (d : ℕ) → d < 16 → hex_value (hex_digit d) ≡ some d
unfolding hex_value hex_digit
hex_value-hex_digit d h = ground arith

parse_digit :
    (acc d : ℕ) (s : Text) → d < 16 → parse_hex acc (hex_digit d ∷ s) ≡ parse_hex (acc * 16 + d) s
unfolding parse_hex
parse_digit acc d s h = rw (hex_value-hex_digit d h, parse_hex)

parse-format_loop :
    (fuel n : ℕ) (acc : Text) → n < fuel → parse_hex 0 (format_loop fuel n acc) ≡ parse_hex n acc
unfolding format_loop
parse-format_loop zero n acc h = absurd (omega arith)
parse-format_loop (suc fuel) n acc h = ground (
  arith,
  parse_digit 0 n acc,
  parse_digit (n / 16) (n % 16) acc,
  parse-format_loop fuel (n / 16) (hex_digit (n % 16) ∷ acc),
)

format_loop-append :
    (fuel n : ℕ) (acc t : Text) → format_loop fuel n acc ++ t ≡ format_loop fuel n (acc ++ t)
unfolding format_loop
format_loop-append zero n acc t = refl
format_loop-append (suc fuel) n acc t =
    ground (arith, format_loop-append fuel (n / 16) (hex_digit (n % 16) ∷ acc) t)

starts_hex-format_loop :
    (fuel n : ℕ) (acc : Text) → n < fuel → starts_hex (format_loop fuel n acc) ≡ true
unfolding format_loop starts_hex
starts_hex-format_loop zero n acc h = absurd (omega arith)
starts_hex-format_loop (suc fuel) n acc h =
    ground (
      arith,
      hex_value-hex_digit n,
      starts_hex-format_loop fuel (n / 16) (hex_digit (n % 16) ∷ acc),
    )

pub starts_hex-format_hex : (n : ℕ) (t : Text) → starts_hex (format_hex n ++ t) ≡ true
unfolding format_hex
starts_hex-format_hex n t =
    ap starts_hex (format_loop-append (suc n) n [] t)
    ∙ starts_hex-format_loop (suc n) n t (omega arith)

-- Reading the digits of a number gives it back, with the bytes that follow them.
pub parse-format_hex : (n : ℕ) (s : Text) → parse_hex 0 (format_hex n ++ 13 ∷ s) ≡ (n, 13 ∷ s)
unfolding format_hex parse_hex
parse-format_hex n s =
    rw
      (format_loop-append (suc n) n [] (13 ∷ s), parse-format_loop (suc n) n (13 ∷ s) (omega arith))
