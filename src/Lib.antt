-- ===== src/Lib.antt =====
-- cslb is a client-side load balancer in Go that follows nginx's upstream modules. This library
-- models its balancing core and proves what makes it correct.
--
-- The program's parts, and the files that model them (paths from the repository's root):
-- * balancer.go, servers and groups. Peer.antt has Peer, its `init` and setChecked; Group.antt has
--   PeerGroup and BuildGroups. A `*Peer` is a number, and a memory (Heap) gives the struct behind
--   it: every operation takes the memory and returns it, so that aliasing is that of the code.
-- * roundrobin.go, smoothWeightedPeer. Smooth.antt has the loop as written; Smooth/Spec.antt says
--   what it promises without memory or loop, and Smooth/Refines.antt connects the two. The other
--   children prove conservation of the weights and the fairness of the schedule.
-- * roundrobin.go and util.go, the per-request picker. RoundRobin.antt has RRPicker with the maps
--   `tried` and probeChecked as functions, the two paths of pickFromGroup, commitPeer, the passage
--   to the backup group, and done with its five branches (Done and doneNeutral).
--   RoundRobin/Contract.antt is the contract of a pick from one group; RoundRobin/Backup.antt
--   makes it an interface (Lawful) that an algorithm fills, and lifts it to a pick over both
--   groups.
-- * leastconn.go. LeastConn.antt has both passes of the choice, and fills that interface.
-- * hash.go, iphash.go, random.go. Hash.antt, IpHash.antt and Random.antt have the pickers that
--   embed RRPicker and fall back on it; Slot.antt has the walk along the weights that the first
--   two share.
-- * chash.go. Ring.antt has the construction of the ketama ring, the search in it and the
--   splitting of an address; Chash.antt has the picker that walks the ring.
-- * balancer.go, PickWithRetry and PickOne. Balancer.antt has them over any Picker: a state, which
--   holds the picker and the shared memory, and its operations.
-- * The locks. System.antt has the sections under a group's mutex as steps on the shared memory;
--   its runs are all the orders of such steps.
-- * transport.go, RoundTrip. Http.antt has requests, responses, round trippers and errors.
--   Decision.antt judges an attempt: decideAttempt, requestWasSent, the checks of roundTrip.
--   Trip.antt has the loop over any picker that may have a doneNeutral, with events for what Pick
--   returns and for what code outside sees; Trip/Rule.antt lists the ways through a round,
--   Trip/Outcome.antt says what the loop may return, Trip/Connections.antt is the interface
--   (IsAccountable) to what a picker and the other requests do, and the other children each prove
--   one thing that the loop keeps. AnyPicker.antt has newPicker and the six pickers behind one
--   state, and AnyPicker/Shared.antt fills the interface.
-- * transport.go, configuration. Server.antt has ServerConfig and its options, Upstream.antt
--   UpstreamConfig and its normalization (Upstream/Addresses.antt says what the backend of a peer
--   is), Upstream/Balancers.antt newBalancer, Transport.antt the options of NewTransportE and the
--   registration of upstreams, Transport/Way.antt the first checks of RoundTrip; ClientIp.antt has
--   clientIP.
-- * transport.go, bodies. Body.antt has prepareBody, readBody, prepareSpilledBody and the getBody
--   functions that they return, with the file or Seeker that all attempts share: a content and a
--   position, which Seek sets. Body/Attempts.antt has what reads from it, and moves it on.
--   RoundTrip.antt composes the checks, newPicker, prepareBody and the loop into RoundTrip.
--
-- Conventions. An `int` is an integer that does not wrap, and is a natural number where the code
-- keeps it from being negative (Weight, TotalWeight, effectiveWeight, fails); a uint32 keeps its
-- wrap-around. A time counts nanoseconds from the zero time and may run backwards; Sub is exact,
-- where Go saturates at the largest Duration. Each section reads the clock once, and the reading
-- is an argument; the pickers that call peerAvailable read it once for each candidate. A string is
-- a list of bytes.
--
-- Parameters. crc32.ChecksumIEEE and strconv.Itoa (HashLib; the ring takes crc32 alone), net.IP's
-- To4 and To16 (NetLib), and rand.Intn, which returns a number below its positive bound. In
-- PickWithRetry, tryFunc and what other requests do to the shared memory between the calls of a
-- picker are given by Surroundings. In RoundTrip, Outside gives the same, with the round tripper's
-- replies, the request's context and the error of getBody; the making of an *http.Transport,
-- url.Parse, net.ParseIP, net.SplitHostPort and strings.TrimSpace are parameters as well.
-- strings.Contains and the equality of strings are written out. errors.Join of a single error is
-- that error, which errors.Is does not tell apart.
--
-- Fuel. PickWithRetry has no bound in the code: `retry_loop` takes fuel, and one more than the
-- number of peers is enough for the round-robin picker. The binary searches take as fuel the
-- number of ranges, or one more than the number of points, which is enough since each round
-- shrinks the interval. The hash and random loops run on the tries that the code's own bound of 20
-- leaves. The loop of RoundTrip takes fuel too: one more than the picks that its picker has left
-- is enough, which for any picker of the transport is the budget of RoundRobin/Untried.antt.
--
-- Not modelled: the HTTP transport itself and what it does with a request's headers beyond Host;
-- the removal of a temporary file when one of its calls fails; the tests; and the wrappers that
-- only hold two groups (RoundRobin, LeastConn, Hash, IPHash).
pub mod Prelude
pub mod Peer
pub mod Smooth
pub mod Group
pub mod RoundRobin
pub mod LeastConn
pub mod Slot
pub mod Hash
pub mod IpHash
pub mod Random
pub mod Ring
pub mod Chash
pub mod System
pub mod Balancer
pub mod Http
pub mod Decision
pub mod Server
pub mod Upstream
pub mod ClientIp
pub mod AnyPicker
pub mod Transport
pub mod Body
pub mod Trip
pub mod RoundTrip
pub mod Tests
