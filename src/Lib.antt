-- ===== src/Lib.antt =====
-- A model of the message path and the routing of AISMixer, with the theorems that make them correct.
--
-- A datagram's sentences reach the assembler (assembler.py), which joins multipart messages; what it
-- completes goes through the deduplicator (dedup.py); the source of a message is recorded in a map
-- with a time to live (core/state/s_cache.py over core/utils/ttlmap.py); and the active routing
-- table (core/routing.py, held by core/routing_state.py) says to which targets it is sent, by the
-- numbers that core/target_identity.py has checked. core/python_data_plane.py drives them, one parsed
-- sentence at a time, and keeps metadata for the messages that are not complete. Frames come from plain
-- listeners and from the secure one (aismixer_secure.py), which authenticates stations by a handshake
-- (core/udpsec_crypto.py, core/udpsec_protocol.py) and keeps their sessions. The calls go one way, and
-- each component keeps a state of its own.
--
-- - Assembler.antt, Assembler/Feed.antt: `AIVDMAssembler` of assembler.py. The record Assembler is
--   the object; `_feed_validated_fragment` is feed_validated_fragment, `_cleanup_expired` is
--   cleanup_expired, `_evict_capacity_victim` is evict_capacity_victim, `_expire_group` is
--   expire_group. Methods that can raise are of type Exec, which gives the state beside the error.
--   The other files of the folder have the lemmas; feed_key is the feed of a multipart fragment as
--   one step on a key.
-- - Dedup.antt: `Deduplicator` of dedup.py. The cache key is generic; cache_key is `_cache_key`.
-- - TtlMap.antt: `TTLMap` of core/utils/ttlmap.py; contains_key is `contains`.
-- - SourceState.antt: `SourceState` of core/state/s_cache.py.
-- - Routing.antt, Routing/Zones.antt, Routing/Targets.antt: core/routing.py (resolve_zones,
--   match_routes, `RoutingTable`) and `freeze_target_id_by_name` of core/target_identity.py.
-- - Processor.antt: `PythonDataPlaneProcessor` of core/python_data_plane.py, which drives the assembler,
--   the deduplicator and the source state. process_sentence is one round of the loop of `_process_impl`,
--   emit_lines its inner loop over the lines; FrameSource is what a frame says of its source, and
--   TextLibrary has `str.strip` and strict UTF-8. Readings has what the clocks and the group ID
--   generator return. Processor/State.antt has the state with the metadata tables, and
--   Processor/Counters.antt the counters of the calls.
-- - OutputLines.antt: core/output_builder.py and meta_writer.py; an encoder that refuses a text is the
--   ValueError of `encode`.
-- - SourceIdentity.antt: core/source_identity.py.
-- - SourcePolicy.antt: the choice of the source value in core/s_policy.py.
-- - RoutingControl.antt: core/routing_control.py and core/runtime_routing.py; a routing section is
--   taken as its zones and routes.
-- - NetworkPolicy.antt: the allow list of core/network_policy.py; what `ipaddress` does is the interface
--   IpLibrary.
-- - Scanner.antt: core/nmea_scanner.py; find_spans is `finditer` on its two patterns.
-- - SecureState.antt, SecureState/Expiring.antt, SecureState/Sessions.antt, SecureState/Nonces.antt,
--   SecureState/Stats.antt: `_BoundedExpiringSet` and `SecureState` of aismixer_secure.py, method by
--   method; SecureState/Calls.antt has sequences of calls, and the other files the lemmas.
-- - Udpsec/Crypto.antt, Udpsec/Protocol.antt: core/udpsec_crypto.py and core/udpsec_protocol.py; the
--   interface Library has the primitives and codecs. Udpsec/Bytes.antt has the operations on bytes.
-- - Udpsec/Messages.antt, Udpsec/Server.antt: the rest of aismixer_secure.py: receive is one round of
--   `_secure_server_loop`, handshake and secure_data its two branches. A packet that is sent or a
--   frame that is queued is an output. Udpsec/Rounds.antt has rounds one after the other.
-- - RoutingState.antt: `RoutingState` of core/routing_state.py.
-- - Prelude.antt: Python's `dict` as an association list in insertion order, `sorted`, Boolean
--   tests, key equality as an interface, and the exceptions.
--
-- Times are natural numbers of ticks, what the clock returns is an argument, and `now - t >= d` is
-- written `t + d <= now`. Texts are lists of code points. The code compares cache entries of the
-- deduplicator by identity: each has an id that is never used again. A frozen set is a list of which
-- only membership is observed. A secure session is an object that callers hold: it has an id, and a
-- handle is its address and id. A send that fails is caught after all that its round does, so it
-- changes nothing in the model. A lock makes each call one step, so concurrency is an order of calls.
--
-- Some loops run on fuel. evict_while_full has one more than the size of the cache, and each round
-- takes one entry away. resolve has one more than the number of zone definitions, and each level
-- adds a defined zone to the path, which has no zone twice. decimal_digits, the decimal text of a
-- number, has one more than the number, and each round divides it by ten. xor_bits and hex_digits take
-- the 21 bits and the six hexadecimal digits that a code point has at most.
--
-- Not modelled: the fields of a sentence and the reading of configuration (what `isinstance` refuses
-- cannot be written with these types), control sockets, statistics, the
-- forwarder's sockets and the proxy under nmea_sproxy.
pub mod Prelude
pub mod Assembler
pub mod Dedup
pub mod TtlMap
pub mod Udpsec
pub mod SourceState
pub mod Routing
pub mod RoutingState
pub mod SecureState
pub mod RoutingControl
pub mod OutputLines
pub mod Processor
pub mod SourcePolicy
pub mod Scanner
pub mod SourceIdentity
pub mod NetworkPolicy
