-- ===== src/Tests/Handling.antt =====
-- The program's handlers and those of the extensions, and the signer, at small inputs.
use mathlib.Core.List.{Perm}
use cffi_proxy.Base.{
  ◌≡◌, ◌↔◌, contains, refl, true, false, none, some, Option, [], ◌∷◌, ◌++◌, Text, arith, inl, codes,
  has_prefix, text_eq,
}
use cffi_proxy.Action.{ok, pure, panics, nil_map_write}
use cffi_proxy.Http.{Err, Response}
use cffi_proxy.Http.Headers.{lookup}
use cffi_proxy.Http.Headers.Mime.{mime, capitals}
use cffi_proxy.Http.World.{put_request}
use cffi_proxy.Dispatcher.Conditions.{content_type_is, content_type}
use cffi_proxy.Proxy.Serve.{valid_status, begin_request, serve_http}
use cffi_proxy.Program.{TlsClient, program, transport_handle_request}
use cffi_proxy.Program.Relaying.{program-relays, program-panics}
use cffi_proxy.Regretable.{RegretableReader, new_size, read}
use cffi_proxy.Regretable.Stream.{pending}
use cffi_proxy.Image.{Codec, ask, done, run, handle_image, regretable, resp_is_image}
use cffi_proxy.Image.Reads.{bytes_read}
use cffi_proxy.Image.Undecodable.{handle_image-restores}
use cffi_proxy.Html.{Reads, Charsets, TextResponse, handle_string, charset_or_default}
use cffi_proxy.Html.Translation.{Filtered, handle_string-translates}
use cffi_proxy.Counter.{rsa}
use cffi_proxy.Signer.{Signing, Certificate, host_seed, sign_host}
use cffi_proxy.Signer.Sorting.{host_seed-perm}
use cffi_proxy.Signer.Hosts.{Answers, sign_host-Answers}
use cffi_proxy.Tests.Streams.{text_reader, plain_crypto}
use cffi_proxy.Tests.Values.{State, small_request, small_world, small_net, mitm_action}

-- A TLS client that gets response 1, or fails.
abbrev pub small_tls : Option Err → TlsClient (Unit {0})
small_tls failure = record {
  mapped = (99 ∷ [], 4) ∷ [];
  intn = λ n. pure 0;
  new_http_client = λ profile. pure (0, none);
  send = λ c r. pure (some 1, failure);
}

-- Request 0 has been sent with an empty RequestURI.
abbrev sent_world : State
sent_world = put_request 0 (record small_request { request_uri = [] }) (begin_request 0 small_world)

program-relays_example :
    (serve_http mime (small_net true) (program mime (small_tls none) mitm_action) 0 small_world).0
    ≡ ok tt
unfolding transport_handle_request begin_request text_eq lookup valid_status
program-relays_example =
    (program-relays mime (small_tls none) mitm_action (small_net true) 0 1 0 1
      ((65 ∷ [], (66 ∷ []) ∷ []) ∷ []) small_world sent_world refl refl refl refl refl (omega arith)
      refl).0

program-panics_example :
    (serve_http mime
      (small_net false)
      (program mime (small_tls (some (101 ∷ []))) mitm_action)
      0
      small_world).0
    ≡ panics nil_map_write
unfolding transport_handle_request begin_request text_eq lookup
program-panics_example =
    (program-panics mime (small_tls (some (101 ∷ []))) mitm_action (small_net false) 0 7 (101 ∷ [])
      small_world _ refl refl).0

-- A codec that reads two bytes, and knows no image.
abbrev blind : Codec (Unit {0})
blind = record { decode = ask 2 (λ got err. done none); png = λ i. none; jpeg = λ i. none }

abbrev png_response : Response
png_response = record {
  status = [];
  status_code = 200;
  header = some ((codes "Content-Type", codes "image/png" ∷ []) ∷ []);
  body = none;
  request = none;
}

handle_image-restores_example :
    (rb : RegretableReader Text) × (handle_image mime blind
        (λ i. ok i)
        text_reader
        png_response
        (1 ∷ 2 ∷ 3 ∷ [])
      ≡ ok (record { head = png_response; body = regretable rb }))
    × (pending text_reader rb ≡ 1 ∷ 2 ∷ 3 ∷ [])
unfolding resp_is_image run bytes_read content_type_is text_eq content_type lookup codes capitals
    has_prefix read new_size
handle_image-restores_example =
    handle_image-restores mime blind (λ i. ok i) text_reader png_response (1 ∷ 2 ∷ 3 ∷ []) refl refl
      refl (omega arith)

-- Readers that give one text at once, and a charset whose bytes are one more than those of utf-8.
abbrev whole : Text → Reads (Unit {0})
whole t = λ len s. (s, t, none)

abbrev shifted : Charsets (Unit {0})
shifted = record {
  to_lower = λ t. t;
  read_all = λ r s. r 512 s;
  new_buffer = λ t s. (s, whole t);
  new_reader = λ name r. inl (whole (98 ∷ []));
  translator_to = λ name. inl 5;
  translation = λ k t. k ∷ t;
  new_translating_reader = λ r k len s. let (s', t, e) = r len s in (s', k ∷ t, e);
  read_all-new_buffer = λ t s. refl;
  read_all-new_translating_reader = λ r k s. refl;
}

abbrev shifted_response : TextResponse (Unit {0})
shifted_response = record {
  head = record png_response {
    header = some ((codes "Content-Type", codes "text/html; charset=x" ∷ []) ∷ []);
  };
  body = record { read = whole (99 ∷ []); close = λ s. (s, none) };
}

handle_string-translates_example :
    (resp : TextResponse (Unit {0})) × (s : Unit {0}) × (handle_string mime shifted
        (λ t. pure (t ++ t))
        none
        (some shifted_response)
        tt
      ≡ (ok (some resp), s))
    × Filtered shifted shifted_response resp s (5 ∷ 98 ∷ 98 ∷ [])
unfolding charset_or_default text_eq lookup codes capitals has_prefix
handle_string-translates_example =
    handle_string-translates mime shifted (λ t. pure (t ++ t)) shifted_response tt tt tt (98 ∷ [])
      (98 ∷ 98 ∷ []) refl (whole (98 ∷ [])) 5 refl refl refl refl

abbrev small_signing : Signing
small_signing = record {
  crypto = plain_crypto;
  sha1 = λ t. t;
  parse_subject = λ leaf. some leaf;
  parse_error = λ leaf. [];
  parse_ip = λ h. none;
  now = 3000000;
  random_serial = 1;
  runtime_version = 49 ∷ [];
  generate_rsa = λ c. ((c, rsa (1 ∷ [])), none);
  generate_ecdsa = λ c. ((c, rsa (1 ∷ [])), some (101 ∷ []));
  create = λ c t subject k ca. (subject, none);
}

-- The signer that digests nothing: its seeds are the messages.
abbrev undigested : Signing
undigested = record small_signing { sha1 = λ t. t }

host_seed-perm_example :
    (host_seed undigested ((97 ∷ []) ∷ (98 ∷ []) ∷ [])
      ≡ host_seed undigested ((98 ∷ []) ∷ (97 ∷ []) ∷ []))
    ↔ Perm {A = Text} ((97 ∷ []) ∷ (98 ∷ []) ∷ []) ((98 ∷ []) ∷ (97 ∷ []) ∷ [])
unfolding contains
host_seed-perm_example =
    (host_seed-perm small_signing ((97 ∷ []) ∷ (98 ∷ []) ∷ []) ((98 ∷ []) ∷ (97 ∷ []) ∷ []) refl
      refl refl).1

abbrev small_ca : Certificate
small_ca = record { chain = (1 ∷ []) ∷ []; private_key = rsa (2 ∷ []) }

sign_host-Answers_example : Answers (1 ∷ []) (sign_host small_signing small_ca ((97 ∷ []) ∷ []))
sign_host-Answers_example =
    sign_host-Answers small_signing small_ca (1 ∷ []) [] ((97 ∷ []) ∷ []) refl
