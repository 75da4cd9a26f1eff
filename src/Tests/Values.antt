-- ===== src/Tests/Values.antt =====
-- A small proxy with one request, two responses and a network that answers with the first.
use cffi_proxy.Base.{
  ℕ, Bool, true, false, none, some, List, [], ◌∷◌, ◌++◌, length, take, drop, if◌then◌else◌, refl,
  ap, append-nil, Text, ◌≡◌,
}
use cffi_proxy.Action.{pure, modify, ◌>>◌}
use cffi_proxy.Http.{Request, Response, Url}
use cffi_proxy.Http.World.{World, emit, conn_written}
use cffi_proxy.Dispatcher.{
  ProxyHttpServer, ReqHandler, RespHandler, HttpsHandler, ConnectAction, connect_reject,
  connect_mitm,
}
use cffi_proxy.Proxy.Network.{Network}
use cffi_proxy.Chunked.Decode.{joined}
use cffi_proxy.Https.Tunnels.{Tunnels}

abbrev pub State : Type 0
State = World (Unit {0})

abbrev pub small_url : Url
small_url = record { scheme = 104 ∷ []; host = 97 ∷ []; path = 47 ∷ [] }

abbrev pub small_request : Request
small_request = record {
  method = 71 ∷ [];
  url = small_url;
  header = (65 ∷ [], (66 ∷ []) ∷ []) ∷ [];
  host = 97 ∷ [];
  remote_addr = 49 ∷ [];
  request_uri = 47 ∷ [];
  close = false;
  body = none;
}

abbrev pub small_response : ℕ → Response
small_response p = record {
  status = [];
  status_code = 200;
  header = some ((65 ∷ [], (66 ∷ []) ∷ []) ∷ []);
  body = some p;
  request = some 0;
}

abbrev pub small_world : State
small_world = record {
  requests = λ r. small_request;
  responses = small_response;
  bodies = λ b. record { content = 120 ∷ b ∷ []; failure = none; is_closed = false };
  next_response = 7;
  next_body = 7;
  ctx = record { req = 0; resp = none; round_tripper = none; error = none; session = 3 };
  sess = 3;
  client_header = [];
  events = [];
  env = tt;
}

-- A network that answers with response 1, or fails if it is told to.
abbrev pub small_net : Bool → Network (Unit {0})
small_net fails = record {
  round_trip = λ r. pure (if fails then (none, some (101 ∷ [])) else (some 1, none));
  call_round_tripper = λ f r. pure (some 2, none);
  nonproxy_handler = λ r. pure tt;
  connect_dial = λ host. pure (if fails then (none, some (101 ∷ [])) else (some 1, none));
  can_hijack = true;
  hijack = pure (0, none);
  write_request = λ r c. pure none;
  read_response = λ c r. pure (some 1, none);
  write_response = λ p c. pure none;
}

pub joined-halves : (t : Text) → joined (take 1 t ∷ drop 1 t ∷ []) ≡ t
joined-halves [] = refl
joined-halves (b ∷ bs) = ap (λ (u : Text). b ∷ u) (append-nil bs)

abbrev pub small_tunnels : Tunnels (Unit {0})
small_tunnels = record {
  wire = λ c. record { write = λ w t. (emit (conn_written c t) w, length t, none) };
  half_closable = λ c. true;
  call_hijack = λ f r c. pure tt;
  read_request = λ c. pure (some 0, none);
  peek = λ c. pure none;
  discard = λ n c. pure none;
  default_tls_config = 0;
  make_tls_config = λ f host. pure (f, none);
  tls_server = λ c config. pure 5;
  tls_handshake = λ c. pure none;
  tls_dial = λ host config. pure (some 6, none);
  h2_round_trip = λ r c config host. pure tt;
  write_header = λ h c. modify (emit (conn_written c (72 ∷ []))) >> pure none;
  pieces = λ t. take 1 t ∷ drop 1 t ∷ [];
  joined-pieces = joined-halves;
  url_string = λ u. u.scheme ++ u.path;
  parse_url = λ t. small_url;
  itoa = λ n. 50 ∷ [];
}

-- A handler that answers every request with response 2, and one that answers none.
abbrev pub answers : ReqHandler (Unit {0})
answers r = pure (some r, some 2)

abbrev pub passes : ReqHandler (Unit {0})
passes r = pure (some r, none)

-- A response handler that puts response 2 in place of any response, and leaves nil.
abbrev pub replaces : RespHandler (Unit {0})
replaces resp = pure (elim resp [ none ↦ none | some p ↦ some 2 ])

abbrev pub small_proxy :
    List (ReqHandler (Unit {0}))
    → List (RespHandler (Unit {0}))
    → List (HttpsHandler (Unit {0}))
    → ProxyHttpServer (Unit {0})
small_proxy hs ks cs = record {
  keep_destination_headers = true;
  keep_header = false;
  allow_http2 = false;
  req_handlers = hs;
  resp_handlers = ks;
  https_handlers = cs;
}

abbrev pub reject_action : ConnectAction
reject_action = record { action = connect_reject; hijack = none; tls_config = none }

abbrev pub mitm_action : ConnectAction
mitm_action = record { action = connect_mitm; hijack = none; tls_config = none }
