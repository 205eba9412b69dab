-- ===== src/Proto/Wire.antt =====
-- The byte format of each message of sim_transport/sim_proto.inl, its flags included.
use lmp.Prelude.{ℕ, ◌^◌, ◌%◌, List, [], ◌∷◌, ◌++◌, ltb, if◌then◌else◌, length}
use lmp.Stream.Bytes.{put_1, put_2, put_4, put_8}
use lmp.Stream.Writes.{put_data}
use lmp.Proto.{
  Connect, ConnectAck, Disconnect, Segment, SegmentAck, Ping, Feedback, Fir, Pad, FecMeta, Fec,
  u16_max, u8_max,
}
use lmp.Proto.Encode.{segment_mask}

unfoldable pub wire_connect : Connect → List ℕ
wire_connect b = put_4 b.cid ++ (put_data b.token ++ put_1 b.cc_type)

unfoldable pub wire_connect_ack : ConnectAck → List ℕ
wire_connect_ack b = put_4 b.cid ++ put_4 b.result

unfoldable pub wire_disconnect : Disconnect → List ℕ
wire_disconnect b = put_4 b.cid

unfoldable pub wire_ping : Ping → List ℕ
wire_ping b = put_8 (b.ts % 2 ^ 64)

unfoldable pub wire_feedback : Feedback → List ℕ
wire_feedback b = put_4 b.base_packet_id ++ put_data b.feedback

unfoldable pub wire_id : ℕ → List ℕ
wire_id id = if ltb u16_max id then put_4 id else put_2 id

unfoldable pub wire_place : ℕ → ℕ → List ℕ
wire_place index total =
    if ltb u8_max total
    then put_2 index ++ put_2 total
    else put_1 (index % 2 ^ 8) ++ put_1 (total % 2 ^ 8)

unfoldable pub wire_segment : Segment → List ℕ
wire_segment b =
    put_1 (segment_mask b)
    ++ (put_1 b.payload_type
        ++ (wire_id b.packet_id
            ++ (wire_id b.fid
                ++ (put_4 b.timestamp
                    ++ (wire_place b.index b.total
                        ++ (put_2 b.fec_id
                            ++ (put_2 b.send_ts
                                ++ (put_2 b.transport_seq ++ put_data b.payload))))))))

unfoldable pub wire_uint16s : List ℕ → List ℕ
wire_uint16s [] = []
wire_uint16s (x ∷ xs) = put_2 x ++ wire_uint16s xs

unfoldable pub wire_segment_ack : SegmentAck → List ℕ
wire_segment_ack b =
    put_4 b.base_packet_id
    ++ (put_4 b.acked_packet_id
        ++ (put_1 (length b.nack)
            ++ (wire_uint16s b.nack ++ (put_1 (length b.acked) ++ wire_uint16s b.acked))))

unfoldable pub wire_fir : Fir → List ℕ
wire_fir b = put_4 b.fir_seq

unfoldable pub wire_pad : Pad → List ℕ
wire_pad b = put_4 b.send_ts ++ (put_2 b.transport_seq ++ put_data b.padding)

unfoldable pub wire_fec_meta : FecMeta → List ℕ
wire_fec_meta b =
    put_4 b.seq
    ++ (put_4 b.fid
        ++ (put_4 b.ts
            ++ (put_2 b.index
                ++ (put_2 b.total ++ (put_1 b.ftype ++ (put_1 b.payload_type ++ put_2 b.size))))))

unfoldable pub wire_fec : Fec → List ℕ
wire_fec b =
    put_2 b.fec_id
    ++ (put_1 b.row
        ++ (put_1 b.col
            ++ (put_1 b.index
                ++ (put_2 b.count
                    ++ (put_4 b.base_id
                        ++ (put_2 b.transport_seq
                            ++ (put_4 b.send_ts
                                ++ (wire_fec_meta b.fec_meta ++ put_data b.fec_data))))))))
