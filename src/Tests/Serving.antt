-- ===== src/Tests/Serving.antt =====
-- ServeHTTP, filters, headers and authentication, at the small proxy.
use cffi_proxy.Base.{
  ◌≡◌, refl, Bool, true, false, none, some, [], ◌∷◌, text_eq, codes, if◌then◌else◌, map, all,
}
use cffi_proxy.Base.Maps.{delete, store}
use cffi_proxy.Action.{ok}
use cffi_proxy.Http.{Request, Response}
use cffi_proxy.Http.Headers.{values, lookup}
use cffi_proxy.Http.Headers.Mime.{mime}
use cffi_proxy.Http.World.{client_head, client_copy}
use cffi_proxy.Dispatcher.{ProxyHttpServer, do_request, request_test}
use cffi_proxy.Proxy.Headers.{copy_headers, remove_proxy_headers}
use cffi_proxy.Proxy.Headers.Copy.{values-copy_headers}
use cffi_proxy.Proxy.Headers.HopByHop.{IsStripped, remove_proxy_headers-IsStripped}
use cffi_proxy.Proxy.Filters.{filter_request, filter_response}
use cffi_proxy.Proxy.Filters.Order.{filter_request-snoc}
use cffi_proxy.Proxy.Filters.Registered.{filter_request-do_request}
use cffi_proxy.Proxy.Serve.{valid_status, begin_request, respond, serve_http}
use cffi_proxy.Websocket.Upgrade.{is_web_socket_request, header_contains}
use cffi_proxy.Proxy.Serve.Transparent.{sending, serve_http-Delivered}
use cffi_proxy.Proxy.Serve.Outcomes.{serve_http-answered, respond-delivers}
use cffi_proxy.Tests.Values.{
  State, small_request, small_world, small_net, small_proxy, answers, passes, replaces,
}

-- A proxy that replaces the response, and does not keep what the writer's header held.
abbrev fresh_headers : ProxyHttpServer (Unit {0})
fresh_headers = record (small_proxy [] (replaces ∷ []) []) { keep_destination_headers = false }

-- The writer's header already has an entry under another name, which is gone in the end.
abbrev written_world : State
written_world = record small_world { client_header = (68 ∷ [], (69 ∷ []) ∷ []) ∷ [] }

respond-delivers_example :
    let out = respond mime fresh_headers (some 0) (some 1) written_world in
    (out.0 ≡ ok tt)
    × (out.1.events
        ≡ client_copy false (120 ∷ 2 ∷ []) ∷ client_head 200 ((65 ∷ [], (66 ∷ []) ∷ []) ∷ []) ∷ [])
unfolding filter_response copy_headers lookup text_eq cffi_proxy.Http.Headers.Mime.capitals codes
    valid_status delete store
respond-delivers_example =
    let delivers =
      respond-delivers mime fresh_headers (some 0) 1 2 1 2 written_world
        (record written_world { ctx = record (written_world.ctx) { resp = some 1 } }) refl refl refl
        refl in
    (delivers.0, delivers.1)

serve_http-answered_example :
    serve_http mime (small_net true) (small_proxy (answers ∷ []) [] []) 0 small_world
    ≡ serve_http mime (small_net false) (small_proxy (answers ∷ []) [] []) 0 small_world
unfolding filter_request begin_request text_eq
serve_http-answered_example =
    serve_http-answered mime (small_proxy (answers ∷ []) [] []) (small_net true) (small_net false) 0
      (some 0) 2 small_world (begin_request 0 small_world) refl refl

-- The request, without its hop-by-hop headers, is answered with response 1.
serve_http-Delivered_example :
    (serve_http mime (small_net false) (small_proxy [] [] []) 0 small_world).0 ≡ ok tt
unfolding text_eq is_web_socket_request header_contains lookup valid_status begin_request
serve_http-Delivered_example =
    (serve_http-Delivered mime (small_proxy [] [] []) (small_net false) 0 (some 1) none small_world
      (sending mime (small_proxy [] [] []) 0 small_world) refl refl refl refl refl
      (1, refl, refl)).0

abbrev is_get : Request → Bool
is_get q = text_eq q.method (71 ∷ [])

filter_request-do_request_example :
    filter_request
      (do_request
        (map request_test (is_get ∷ []))
        answers
        (small_proxy (passes ∷ []) [] [])).req_handlers
      0
      small_world
    ≡ (if all (λ t. t small_request) (is_get ∷ [])
        then answers 0 small_world
        else (ok (some 0, none), small_world))
unfolding filter_request
filter_request-do_request_example =
    filter_request-do_request (small_proxy (passes ∷ []) [] []) (is_get ∷ []) answers 0 (some 0)
      small_world small_world refl

filter_request-snoc_example :
    filter_request (passes ∷ answers ∷ []) 0 small_world ≡ (ok (some 0, some 2), small_world)
unfolding filter_request
filter_request-snoc_example = filter_request-snoc (passes ∷ []) answers 0 small_world

values-copy_headers_example :
    values
      (copy_headers mime
        ((65 ∷ [], (66 ∷ []) ∷ []) ∷ [])
        ((65 ∷ [], (67 ∷ []) ∷ (68 ∷ []) ∷ []) ∷ [])
        true)
      (65 ∷ [])
    ≡ (66 ∷ []) ∷ (67 ∷ []) ∷ (68 ∷ []) ∷ []
unfolding copy_headers lookup text_eq cffi_proxy.Http.Headers.Mime.capitals
values-copy_headers_example =
    values-copy_headers mime (65 ∷ []) ((65 ∷ [], (66 ∷ []) ∷ []) ∷ [])
      ((65 ∷ [], (67 ∷ []) ∷ (68 ∷ []) ∷ []) ∷ []) true refl

remove_proxy_headers-IsStripped_example :
    IsStripped small_request (remove_proxy_headers mime small_request)
remove_proxy_headers-IsStripped_example = remove_proxy_headers-IsStripped mime small_request
