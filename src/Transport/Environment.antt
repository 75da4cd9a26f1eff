-- ===== src/Transport/Environment.antt =====
-- goproxy/transport/transport.go: getenvEitherCase and ProxyFromEnvironment.
use cffi_proxy.Base.{
  Bool, false, not, ◌&&◌, ◌||◌, Option, none, some, [], ◌∷◌, ◌++◌, Text, codes, text_eq,
  if◌then◌else◌, is_some,
}
use cffi_proxy.Action.{Outcome, ok, panics}
use cffi_proxy.Http.{Url, Err, Request}
use cffi_proxy.Transport.Method.{canonical_addr, use_proxy}

-- getenvEitherCase, for a name in capitals and the same in small letters.
unfoldable pub getenv_either_case : (Text → Text) → Text → Text → Text
getenv_either_case env upper lower = elim (env upper) [ [] ↦ env lower | c ∷ s ↦ c ∷ s ]

-- ProxyURL
unfoldable pub proxy_url : Option Url → Request → Option Url × Option Err
proxy_url fixed req = (fixed, none)

lacks_scheme : Option Url → Bool
lacks_scheme none = false
lacks_scheme (some u) = text_eq u.scheme []

-- The parsing of the proxy's address in ProxyFromEnvironment. The inner `err` hides the outer one, so
-- that an error of the first parse stays.
unfoldable pub parse_proxy :
    (Text → Text) → (Text → Option Url × Option Err) → Text → Option Url × Option Err
unfolding lacks_scheme
parse_proxy quote parse proxy =
    let (first, err) = parse proxy in
    let (second, err') = parse (codes "http://" ++ proxy) in
    let found =
      if (is_some err || lacks_scheme first) && not (is_some err') then second else first in
    elim err [
      | some e ↦ (none, some (codes "invalid proxy address " ++ (quote proxy ++ (codes ": " ++ e))))
      | none ↦ (found, none)
    ]

-- ProxyFromEnvironment; `env` is os.Getenv and `quote` the %q of fmt.
unfoldable pub proxy_from_environment :
    (Text → Text)
    → (Text → Text)
    → (Text → Option Url × Option Err)
    → (Text → Option Text)
    → (Text → Bool)
    → Request
    → Outcome (Option Url × Option Err)
unfolding getenv_either_case parse_proxy
proxy_from_environment env quote parse split_host is_loopback req =
    elim (getenv_either_case env (codes "HTTP_PROXY") (codes "http_proxy")) [
      | [] ↦ ok (none, none)
      | c ∷ s ↦
          elim (use_proxy split_host is_loopback
            (getenv_either_case env (codes "NO_PROXY") (codes "no_proxy"))
            (canonical_addr req.url)) [
              | panics p ↦ panics p
              | ok used ↦ if used then ok (parse_proxy quote parse (c ∷ s)) else ok (none, none)
            ]
    ]
