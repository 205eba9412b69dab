-- ===== src/Lib.antt =====
-- Verification of a real-time video transport: the session with its sender and receiver, the packet
-- protocol on its byte streams, forward error correction of one loss, the pacer, and the helpers below
-- them.
--
-- A session connects two programs. It drives a sender, which cuts frames to segments and keeps them
-- until they are acknowledged, and a receiver, which keeps the segments of a frame until all are there,
-- plays frames in their time, and asks again for the packets that are missing. The session does all
-- this under one lock, by the messages that come, the calls of its user and a heartbeat.
--
-- A message goes down through the parts like this. The transport builds a header and a message and
-- encodes them into a growing byte stream, which ends with a checksum; a received packet is checked,
-- its header read, then its message. Segments of video are also covered by parity packets, from which
-- the receiver rebuilds a lost segment. What is to be sent waits in the pacer, whose budget follows
-- the bitrate; the receiver reports its losses and arrival times in feedback messages, which travel
-- inside the packets, with sequence numbers that are cut to 16 bits and unwrapped again.
--
-- The modules and the code they are about:
--   Prelude      shared names, Boolean tests, lists, signed integers (Int), exclusive or (Bits)
--   Stream       common/cf_stream.c, .h: Stream.Buffer the operations on the buffer, Bytes the byte
--                order, Write and Read the mach_*_write and mach_*_read functions; Writes and Reads
--                are the interface to clients: which bytes a writer adds, what a reader takes off
--   Crc          common/cf_crc32.c: the table, crc32, and the bitwise division it stands for
--   Hex          common/cf_hex.c: wb_bin2asc and wb_asc2bin with their tables
--   Unwrapper    common/cf_unwrapper.c: wrap_uint16 and wrap_uint32
--   SkipList     common/cf_skiplist.c: the nodes in order, as the other parts use them; Towers the
--                levels with search, insertion and removal; Ways, Levels, Refines, Inserts and
--                Removes hold the proofs
--   Proto        sim_transport/sim_proto.h, sim_proto.inl: one encoder and one decoder for each
--                message; Wire holds the wire format of each, independent of both
--   Message      sim_transport/sim_proto.c: header, dispatch on the message id, checksum
--   FlexFecXor   sim_transport/fec/flex_fec_xor.c: flex_fec_generate and flex_fec_recover
--   Session      sim_transport/sim_session.c: Process the video and the messages that come, Timer the
--                heartbeat; States, Rtt, Beats and Timeout hold the proofs. The two ends are the record Ends
--   Sender       sim_transport/sim_sender.c: Put a frame, Ack acknowledgements and ageing, Send the
--                packets that go out; Cached, Split and Reach hold the proofs
--   FrameCache   sim_transport/sim_receiver.c, the cache of frames: what puts in it and evicts, Play what
--                takes from it; Frames, Safe, Reach, Assemble, Copy and Deliver hold the proofs
--   Receiver     sim_transport/sim_receiver.c, the rest: the losses, Ack the acknowledgements; Nacks
--                holds the proofs
--   Delivery     the sender and the frame cache together
--   Limiter      sim_transport/sim_limiter.c: the sliding window of bytes sent; a write out of its buckets
--                is none; Buckets and Sums hold the proofs
--   CcFeedback   estimator/estimator_common.c: feedback_msg_encode and feedback_msg_decode
--   BbrFeedback  bbr/bbr_common.c: bbr_feedback_msg_encode and bbr_feedback_msg_decode
--   WindowedFilter  bbr/windowed_filter.c: the best three samples of a window of time
--   Pacing       pacing/: Budget interval_budget.c, Alr alr_detector.c, Queue pacer_queue.c,
--                Sender pace_sender.c
-- A function keeps its name where the name is not only a prefix (bin_stream_resize is Stream.resize,
-- mach_uint32_read is Stream.Read.read_uint32, sim_segment_encode is Proto.Encode.encode_segment,
-- sim_sender_put is Sender.Put.put, real_video_cache_get is FrameCache.Play.cache_get).
--
-- How the code is modelled. Functions that change an object take its state and give the new one. A
-- return code of -1 is none, or false, as each comment says. A pointer into the buffer of a stream is
-- an offset; a field array with its count is the list of the entries that count. Memory that malloc
-- or realloc leaves undefined reads as 0. Unsigned fields wrap where the code makes them; a sum of
-- sizes of objects in memory does not wrap, so the doubling of bin_stream_resize does not either,
-- which in C wraps for a size above 2 ^ 63; an int of the pacer is an integer, since overflow of it
-- is undefined, and a cast to int keeps the last 32 bits with their sign (as_int), as in the limiter
-- and the pacer. On the wire the highest byte comes first; the conversions are those of a
-- little-endian host, and the others store the same bytes.
--
-- Bounds and fuel. The doubling loop of bin_stream_resize has as fuel the size asked for. The loop of
-- pace_try_transmit has one more turn than the cache has packets, and each turn sends one that was
-- not sent. Every other loop is structural: those of the frame cache over frame ids run over their
-- number, which is the loop of the code as long as ids stay below the last number of 32 bits. A loop
-- of a skip list is cut to the ways along its levels; each pointer of a level is the key of the node
-- before it there.
--
-- Parameters. The clock is an argument of the functions that read it, and so is what rand gives, as
-- the depth of a node of a skip list; send_cb of the pacer, cc of the sender and notify_cb of the
-- session are lists of their calls. The group of parity packets of a sender is the record FlexSender,
-- whose update gives at most a fixed number of packets; the product with a float in
-- real_video_cache_sync_timestamp is the function scale.
--
-- Not modelled: the growth of the buffer of sizes that sim_split_frame fills; the groups of parity
-- packets, and the recovery of segments by them; the calls of the receiver's cc; the rates that
-- sim_bitrate_change and sim_session_set_bitrates compute with floating-point numbers, and the
-- bandwidth estimators and BBR, which do so throughout; the counters of a session that only go into
-- its log; sockets, threads and logs; the codecs and the player, which are C++ around other
-- libraries.
pub mod BbrFeedback
pub mod CcFeedback
pub mod Crc
pub mod Delivery
pub mod FlexFecXor
pub mod FrameCache
pub mod Hex
pub mod Limiter
pub mod Message
pub mod Pacing
pub mod Prelude
pub mod Proto
pub mod Receiver
pub mod Sender
pub mod Session
pub mod SkipList
pub mod Stream
pub mod Unwrapper
pub mod WindowedFilter
