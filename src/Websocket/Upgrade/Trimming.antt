-- ===== src/Websocket/Upgrade/Trimming.antt =====
-- goproxy/websocket.go: strings.TrimSpace and strings.EqualFold on ASCII texts.
use mathlib.Core.List.{reverse, reverse-append, reverse-reverse}
use cffi_proxy.Base.{
  ℕ, zero, suc, ◌+◌, ◌≤◌, ◌≡◌, refl, sym, ap, ◌∙◌, Bool, true, false, ◌&&◌, ◌||◌, not, List, [],
  ◌∷◌, ◌++◌, map, Text, has_prefix, all, length, length-append, length-reverse, leb, ◌==◌, arith,
  if◌then◌else◌, subst, Bool-cases, inl, inr,
}
use cffi_proxy.Websocket.Upgrade.{spaces, leading, trim_front, trim_space, fold}

abbrev pub blank : ℕ → Bool
blank c = c == 32 || c == 9

-- A printable byte of ASCII, other than a space.
abbrev pub visible : ℕ → Bool
visible c = leb 33 c && leb c 126

-- A text that is empty or begins with a visible byte.
abbrev pub unpadded : Text → Bool
unpadded [] = true
unpadded (c ∷ s) = visible c

-- Texts that are not empty and begin with an invisible byte.
abbrev invisible : Text → Bool
invisible [] = false
invisible (c ∷ s) = not (visible c)

leading-visible :
    (ps : List Text) (s : Text) → all invisible ps ≡ true → unpadded s ≡ true → leading ps s ≡ 0
unfolding leading has_prefix
leading-visible [] s h v = refl
leading-visible ([] ∷ ps) s h v = cc
leading-visible ((d ∷ p) ∷ ps) [] h v = leading-visible ps [] (ground arith) v
leading-visible ((d ∷ p) ∷ ps) (c ∷ s) h v =
    let differ : (c == d) ≡ false = ground arith in
    rw differ (leading-visible ps (c ∷ s) (ground arith) v)

-- A list of spaces in which a blank is one byte long and comes before all that begin with it.
abbrev TakesBlanks : List Text → Type 0
TakesBlanks ps = (c : ℕ) (s : Text) → blank c ≡ true → leading ps (c ∷ s) ≡ 1

trim_front-blanks :
    (ps : List Text) (fuel : ℕ) (pre s : Text)
    → all invisible ps ≡ true
    → TakesBlanks ps
    → all blank pre ≡ true
    → length pre ≤ fuel
    → unpadded s ≡ true
    → trim_front ps fuel (pre ++ s) ≡ s
unfolding trim_front
trim_front-blanks ps zero [] s i t b l v = refl
trim_front-blanks ps zero (c ∷ pre) s i t b l v = absurd (omega arith)
trim_front-blanks ps (suc fuel) [] s i t b l v = rw (leading-visible ps s i v) refl
trim_front-blanks ps (suc fuel) (c ∷ pre) s i t b l v =
    rw (t c (pre ++ s) (ground arith))
      (trim_front-blanks ps fuel pre s i t (ground arith) (omega arith) v)

blank_cases : (P : ℕ → Type 0) → P 32 → P 9 → (c : ℕ) → blank c ≡ true → P c
blank_cases P space tab c h = elim (Bool-cases (c == 32)) [
  | inl e ↦ let same : 32 ≡ c = ground arith in subst P same space
  | inr n ↦ let same : 9 ≡ c = ground arith in subst P same tab
]

spaces-TakesBlanks : TakesBlanks spaces
unfolding leading has_prefix
spaces-TakesBlanks c s h = blank_cases (λ x. leading spaces (x ∷ s) ≡ 1) refl refl c h

reversed-TakesBlanks : TakesBlanks (map reverse spaces)
unfolding leading has_prefix
reversed-TakesBlanks c s h =
    blank_cases (λ x. leading (map reverse spaces) (x ∷ s) ≡ 1) refl refl c h

all-append : (p : ℕ → Bool) (s t : Text) → all p s ≡ true → all p t ≡ true → all p (s ++ t) ≡ true
all-append p [] t h k = k
all-append p (c ∷ s) t h k = ground (arith, all-append p s t)

all-reverse : (p : ℕ → Bool) (s : Text) → all p s ≡ true → all p (reverse s) ≡ true
all-reverse p [] h = refl
all-reverse p (c ∷ s) h =
    subst (λ (x : Text). all p x ≡ true) (sym (reverse-append (c ∷ []) s))
      (all-append p (reverse s) (c ∷ []) (all-reverse p s (ground arith)) (ground arith))

unpadded_of_all : (s : Text) → all visible s ≡ true → unpadded s ≡ true
unpadded_of_all [] h = refl
unpadded_of_all (c ∷ s) h = ground arith

reversed_invisible : all invisible (map reverse spaces) ≡ true
reversed_invisible = refl

-- A visible text between blanks is what is left of them.
pub trim_space-padded :
    (pre post : Text) (c : ℕ) (core : Text)
    → all blank pre ≡ true
    → all blank post ≡ true
    → all visible (c ∷ core) ≡ true
    → trim_space (pre ++ ((c ∷ core) ++ post)) ≡ c ∷ core
unfolding trim_space
trim_space-padded pre post c core b b' v =
    let s = pre ++ ((c ∷ core) ++ post) in
    let t = (c ∷ core) ++ post in
    let front : trim_front spaces (length s) s ≡ t =
      trim_front-blanks spaces (length s) pre t refl spaces-TakesBlanks b
        (omega (arith, length-append pre t)) (ground arith) in
    let back : trim_front (map reverse spaces) (length t) (reverse post ++ reverse (c ∷ core))
        ≡ reverse (c ∷ core) =
      trim_front-blanks (map reverse spaces) (length t) (reverse post) (reverse (c ∷ core))
        reversed_invisible reversed-TakesBlanks (all-reverse blank post b')
        (omega (arith, length-reverse post, length-append (c ∷ core) post))
        (unpadded_of_all (reverse (c ∷ core)) (all-reverse visible (c ∷ core) v)) in
    ap (λ (x : Text). reverse (trim_front (map reverse spaces) (length x) (reverse x))) front
    ∙ ap (λ (x : Text). reverse (trim_front (map reverse spaces) (length t) x))
        (reverse-append (c ∷ core) post)
    ∙ ap reverse back
    ∙ reverse-reverse (c ∷ core)

-- The small letter of a capital.
abbrev pub lower : ℕ → ℕ
lower c = if leb b'A' c && leb c b'Z' then c + 32 else c

pub fold-visible : (s : Text) → all visible s ≡ true → fold s ≡ map lower s
unfolding fold
fold-visible [] h = refl
fold-visible (c ∷ []) h = refl
fold-visible (c ∷ d ∷ []) h = let plain : (c == 0xc5) ≡ false = ground arith in rw plain refl
fold-visible (c ∷ d ∷ e ∷ s) h =
    let plain : (c == 0xc5) ≡ false = ground arith in
    let plain' : (c == 0xe2) ≡ false = ground arith in
    rw (plain, plain') (ap (◌∷◌ (lower c)) (fold-visible (d ∷ e ∷ s) (ground arith)))
