-- ===== src/Lib.antt =====
-- The proxy of this repository (goproxy/), as functions on the memory that its handlers share.
--
-- A client's request comes to ServeHTTP (goproxy/proxy.go). It makes a ProxyCtx, runs the request
-- handlers that the program has registered (goproxy/dispatcher.go, goproxy/actions.go), sends the
-- request with ctx.RoundTrip unless a handler has answered, runs the response handlers, and copies
-- the response to the client. A CONNECT goes to handleHttps (goproxy/https.go), where CONNECT
-- handlers choose to tunnel, to intercept or to reject. Upgrades are tunnelled
-- (goproxy/websocket.go), and HTTP/2 is relayed frame by frame (goproxy/h2.go). Authentication
-- (goproxy/ext/auth/basic.go) and the changing of texts and images (goproxy/ext) are handlers. The
-- program (main.go) registers two handlers of its own, of which one answers every request by a TLS
-- client (goproxy/mitm). Apart from these stand the chunked writer, the reader that can take reads
-- back, the certificates for intercepted hosts with the random bytes for their keys, and the
-- transport that keeps connections (goproxy/transport).
--
-- The files:
--   Base, Action                  helpers; state passing with panics
--   Http, Http/Headers, World     requests, responses and bodies behind pointers; http.Header as a
--                                 list of entries, its methods as an interface with laws; the
--                                 shared memory and the log of what is done to the network
--   Dispatcher, Conditions        ReqProxyConds.Do, HandleConnect, ProxyConds.Do, HandleBytes; the
--                                 conditions UrlIs, ReqHostIs, StatusCodeIs and the others
--   Proxy/Headers, Filters, Serve copyHeaders, removeProxyHeaders; filterRequest, filterResponse;
--                                 ServeHTTP
--   Proxy/Network                 what ServeHTTP calls, as a parameter; ProxyCtx.RoundTrip
--   Https                         stripPort; handleHttps with its six actions, the loop over an
--                                 intercepted client and the answer inside TLS; dial, connectDial
--                                 and tunnels through another proxy
--   Server                        ServeHTTP's choice between a CONNECT and another request
--   Websocket                     isWebSocketRequest; the three ways to serve a websocket
--   Tunnel                        copyAndClose, copyOrWarn and proxyWebsocket, as steps that
--                                 interleave
--   Auth                          BasicUnauthorized, auth, Basic, BasicConnect, ProxyBasic
--   Regretable, Chunked, Counter  goproxy/regretable, goproxy/chunked.go,
--                                 goproxy/counterecryptor.go
--   Transport/Pool                putIdleConn, getIdleConn, CloseIdleConnections
--   Transport/Method, Environment canonicalAddr, connectMethod, useProxy, RegisterProtocol;
--                                 ProxyFromEnvironment
--   Transport/Dialling            getConn, dial, DetailedRoundTrip
--   Transport/Connection          roundTrip and readLoop with the pool, as steps that interleave
--   Transport/BodySignal          bodyEOFSignal and the other bodies
--   H2, H2/Session                proxyFrame and the relays; H2Transport.RoundTrip
--   H2/Goroutines                 its two goroutines and its select, as steps that interleave
--   Signer                        hashSorted, signHost, TLSConfigFromCA
--   Image, Html                   HandleImage; HandleString, HandleStringReader, ProxyCtx.Charset
--   Program                       main.go's handlers, CffiRequestTransport.HandleRequest
--   Responses                     NewResponse, TextResponse
--   Tests                         the theorems at concrete inputs
--
-- A handler is any action on the memory: it may change requests, responses, the context and the
-- rest, and may panic. `defer` runs on a panic too. Pointers are numbers, so that aliasing counts.
-- Numbers are unbounded but for the session counter (64 bits) and the bytes of the AES counter;
-- http.Request and http.Response have the fields that the proxy reads or writes.
--
-- Fuel: the loop of getIdleConn gets the length of its list and one more, as each round takes one
-- connection off. The relay of HTTP/2 frames is asked for one round more than there are frames, as
-- each round reads one. The loops over an intercepted client's requests are modelled for any number
-- of rounds, since a client decides how many there are. The chunk decoder, part of a specification,
-- gets the number of pieces and one more. Of the callers on a connection there are any number.
--
-- The goroutines that copy a tunnel's bytes are one event in Https and Websocket, and steps in Tunnel.
--
-- Not modelled: what is logged; TLS, HTTP, certificates, charsets and image formats, which are
-- parameters; a URL that url.Parse refuses inside an interception; the constant certificate of
-- goproxy/certs.go; the flags, the listener and the shutdown of main.go; and goproxy/uagen, which is
-- commented out.
pub mod Base
pub mod Action
pub mod Http
pub mod Dispatcher
pub mod Websocket
pub mod Proxy
pub mod Https
pub mod Auth
pub mod Responses
pub mod Server
pub mod H2
pub mod Tunnel
pub mod Program
pub mod Image
pub mod Html
pub mod Signer
pub mod Regretable
pub mod Chunked
pub mod Counter
pub mod Transport
pub mod Tests
