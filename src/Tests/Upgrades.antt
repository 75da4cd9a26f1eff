-- ===== src/Tests/Upgrades.antt =====
-- The recognition of upgrades and the use of NO_PROXY, at small inputs.
use cffi_proxy.Base.{
  ◌≡◌, refl, true, [], ◌∷◌, codes, text_eq, false, some, last_index_of, has_prefix,
}
use cffi_proxy.Action.{ok}
use cffi_proxy.Transport.Method.{use_proxy, without_port, host_has_port, to_lower, has_suffix}
use cffi_proxy.Transport.Method.Exceptions.{use_proxy-excepts}
use cffi_proxy.Websocket.Upgrade.{trim_space}
use cffi_proxy.Http.{Request}
use cffi_proxy.Http.Headers.{lookup}
use cffi_proxy.Websocket.Upgrade.{is_web_socket_request}
use cffi_proxy.Websocket.Upgrade.Tokens.{Token, IsToken, is_web_socket_request-tokens}
use cffi_proxy.Tests.Values.{small_request}

-- "a, Upgrade" and "WebSocket ".
abbrev some_option : Token
some_option = record { before = []; first = b'a'; others = []; after = [] }

abbrev upgrade_option : Token
upgrade_option = record {
  before = 32 ∷ [];
  first = b'U';
  others = b'p' ∷ b'g' ∷ b'r' ∷ b'a' ∷ b'd' ∷ b'e' ∷ [];
  after = [];
}

abbrev protocol : Token
protocol = record {
  before = [];
  first = b'W';
  others = b'e' ∷ b'b' ∷ b'S' ∷ b'o' ∷ b'c' ∷ b'k' ∷ b'e' ∷ b't' ∷ [];
  after = 32 ∷ [];
}

abbrev upgrading : Request
upgrading = record small_request {
  header =
      (codes "Connection", codes "a, Upgrade" ∷ [])
      ∷ (codes "Upgrade", codes "WebSocket " ∷ [])
      ∷ [];
}

IsToken-some_option : IsToken some_option
IsToken-some_option = record {
  blank_before = refl;
  blank_after = refl;
  all_visible = refl;
  no_commas = refl;
}

IsToken-upgrade_option : IsToken upgrade_option
IsToken-upgrade_option = record {
  blank_before = refl;
  blank_after = refl;
  all_visible = refl;
  no_commas = refl;
}

IsToken-protocol : IsToken protocol
IsToken-protocol = record {
  blank_before = refl;
  blank_after = refl;
  all_visible = refl;
  no_commas = refl;
}

is_web_socket_request-tokens_example : is_web_socket_request upgrading ≡ true
unfolding codes text_eq lookup
is_web_socket_request-tokens_example =
    is_web_socket_request-tokens upgrading
      (record { head = some_option; tail = upgrade_option ∷ [] } ∷ [])
      (record { head = protocol; tail = [] } ∷ []) refl refl
      (IsToken-some_option, (IsToken-upgrade_option, tt), tt) (IsToken-protocol, tt, tt)

-- NO_PROXY is ".Ex, b:80".
abbrev below_ex : Token
below_ex = record { before = []; first = b'.'; others = b'E' ∷ b'x' ∷ []; after = [] }

abbrev port_80 : Token
port_80 = record { before = 32 ∷ []; first = b'b'; others = codes ":80"; after = [] }

use_proxy-excepts_example :
    use_proxy (λ addr. some (codes "a.ex")) (λ host. false) (codes ".Ex, b:80") (codes "a.ex:80")
    ≡ ok false
unfolding codes text_eq without_port host_has_port last_index_of to_lower trim_space has_suffix
    has_prefix
use_proxy-excepts_example =
    use_proxy-excepts (λ addr. some (codes "a.ex")) (λ host. false) b'a' (codes ".ex:80")
      (codes "a.ex") below_ex (port_80 ∷ []) refl refl refl refl
      (
        record { blank_before = refl; blank_after = refl; all_visible = refl; no_commas = refl },
        (
          record { blank_before = refl; blank_after = refl; all_visible = refl; no_commas = refl },
          tt,
        ),
      )
      (refl, (refl, tt))
