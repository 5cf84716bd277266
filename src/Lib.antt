-- ===== src/Lib.antt =====
-- The forwarder proxy: models of its core parts and the theorems about them.
--
-- A Go string or byte slice is a list of bytes, a result with an error is Base.Fallible's Result, an
-- integer that may be negative is a ℤ of Base.Int, any other number is a natural number.
--
-- ProxyProto (proxyproto/) reads the PROXY protocol header in front of a connection's bytes: Header has
-- the types and io.ReadFull, V1 the text header, V2 the binary header, Read the entry ReadHeader, Tlv
-- the method ParseTLVs, Conn the net.Conn of net.go with a step for each call. A connection is the list
-- of the bytes that it will still give. net.ParseIP is a parameter of the functions that use it. The loop of ParseTLVs has one round more than there are bytes,
-- which is enough since each round moves the offset.
--
-- Net has the dialer and the listeners of net.go (Redirect, Dialer, Listen), with the calls that they
-- make as events in order, the counting connection of conntrack/ (Conntrack), with 64-bit counters, and
-- the dialer through an HTTP proxy of dialvia/ (DialVia).
--
-- H2 (internal/martian/h2) relays one direction of an HTTP/2 connection: Frame has the queued frames
-- and what they write (queued_frames.go), Chunks the splitting of header blocks and payloads, Output
-- the queue of a stream, Relay the flow-control state with the calls that change it (relay.go). The
-- output channel is the list of the frames put on it; the parts of the calls that hold the mutex
-- flowMu are atomic, and a sequence of them is a list of events, in any order. A loop over Go's map of buffers
-- takes the order of its visits as an argument. Splitting a payload takes as many rounds as it has
-- bytes, and one more for a DATA payload, which is enough when the limit of a frame is positive.
--
-- Process is processFrame, with the calls that a frame leads to as effects in order; the decoder of
-- hpack is a parameter, and the frames that are read are those that a framer writes.
-- Writer is the sending half of relay.go, which the relayAdapter of processor.go calls: it encodes with
-- the encoder of hpack, a parameter that has a state and may fail, and queues what comes out. Threads
-- has relayFrames: the output channel with its capacity, the two goroutines that put frames on it and
-- the one that sends them, as a step relation, in which a put and a write take the time that they need. Setup is h2.go: the forwarding of the preface, and the
-- chains of processors that are made for a stream, in a map that both directions look up.
--
-- Http has what the modifiers use of net/http and strings on ASCII texts: Headers (http.Header as an
-- association list by canonical names), Message (the fields of a request), Text; and Rules, the rules
-- of header/header.go with its two regular expressions written out.
--
-- Martian (internal/martian) has the modifiers of internal/martian/header (HopByHop, Via, Framing,
-- Forwarded), Fifo the groups of modifiers of internal/martian/fifo, where a nested group is a
-- constructor of the list of modifiers, and MessageHeader the type of internal/martian/proxyutil/header.go.
--
-- Flush, Failure, Proxy, Connect and Conn are internal/martian itself. Proxy and Connect have the
-- configuration and what proxy.go and proxy_connect.go do for a request; Conn the connection of
-- proxy_conn.go: Read and Write are readRequest and writeResponse with what stands around them, Handle
-- is `handle` with every handler below it, Loop the rounds of handleLoop. What has happened on a
-- connection is a list of Events, the last one first; the network, the clock, the transport, the
-- dialers and TLS are functions of that list (the record Outside), so that they may answer differently
-- each time. Events also has the protocol that the calls are to keep, as a machine over the list. A
-- handler whose last line calls `handle` again, inside an intercepted tunnel, is one more round of the
-- loop. The closing of request bodies, traces and logs are not listed, and the endless copying of a tunnel
-- is one event.
--
-- Handler is the same proxy as an http.Handler, of proxy_handler.go, on a response writer.
--
-- Serve has the goroutines of proxy.go, Serve, handleLoop, Shutdown and Close, as a function of
-- interleaved actions; Shutdown holds connsMu from its first action to its last one.
--
-- Mitm is mitm/mitm.go: the authority, the certificates that it issues for a host, the cache in front
-- of that and the choice of the protocols; crypto/x509, the randomness and the cache are parameters.
-- View is messageview/messageview.go: a snapshot gives the text and the message as it is left. How
-- headers are printed and bodies are chunked or compressed are parameters.
--
-- H2.Grpc is the adapter and the emitter of internal/martian/h2/grpc; the rounds of the adapter's loop
-- are bounded by twice the length of its buffer and two more, since every round that goes on has taken
-- bytes off the buffer or has read a header.
--
-- Proxy has the root package: Credentials (credentials.go), Rules (ruleset/regexp.go), Pac
-- (pac/proxy.go), Route (the choice of the next hop in http_proxy.go), BasicAuth
-- (middleware/basic_auth.go), Guards (middlewareStack of http_proxy.go, which puts the modifiers of
-- Martian into groups), ErrorPages (http_proxy_errors.go) and Config (host.go and the proxy URLs of
-- config.go). Life builds a proxy from its configuration (http_proxy.go, with configureProxy, which
-- joins Route, Guards and ErrorPages to Martian.Proxy); Life.Run has the goroutines of its run and those
-- of runctx/runctx.go as steps of an errgroup; the names of the hosts file, which Life puts behind those of
-- the local host, are a field of the configurations of Route and Guards. Log is httplog/httplog.go on the views of Martian.View,
-- Script pac/pac.go, pac/pool.go and pac/utils.go on a JavaScript machine that is a parameter, Sources readurl.go,
-- fileurl/fileurl.go and what remains of config.go on a file system that is one, and Server the small
-- servers beside the proxy (http_server.go, api.go, shutdown.go, ratelimit/). The splitting and joining of addresses, the parser of URLs, base64, the engine of regular
-- expressions, quoting and status texts are parameters.
--
-- Not modelled: sockets, the goroutines that copy the bytes of a tunnel, the adapters of logging
-- libraries in log/, the values of metrics (prom.go, middleware/prometheus.go), the configurations of
-- crypto/tls, of the transport and of DNS (tls.go, http_transport.go, dns.go), the parser of the hosts
-- file, the functions that a PAC script may call, mitm.go and pac.go, which load and wire, the flags and
-- commands of command/ and bind/ except for two functions that redact, and the libraries that the
-- program calls. These are calls of other packages with hardly a decision of their own. sizesuffix.go,
-- middleware/delegator.go and the templates of utils/cobrautil are for the most part files of rclone, prometheus
-- and kubectl.
pub mod Base
pub mod ProxyProto
pub mod Net
pub mod H2
pub mod Http
pub mod Martian
pub mod Proxy
mod Tests
