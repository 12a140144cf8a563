-- ===== src/Video/Examples.antt =====
-- The theorems on src/stream/proto/video at concrete headers, frames and packets.
use moonlight_common_rust.Common.{
  ◌^◌, ◌<◌, ◌≡◌, ◌≢◌, refl, arith, true, false, List, [], ◌∷◌, ◌++◌, Option, none, some, Bytes, All,
  drop, replicate, if◌then◌else◌, ◌==◌, ok, out_of_fuel,
}
use moonlight_common_rust.Common.Map.{get, remove, insert, update}
use moonlight_common_rust.ReedSolomon.{ReedSolomon}
use moonlight_common_rust.Version.{version, at_least, cmp}
use moonlight_common_rust.Video.Packet.{
  RtpVideoHeader, VideoHeader, VideoMultiFecBlocks, VideoFecInfo, serialize_fec_info,
  deserialize_fec_info, serialize_blocks, deserialize_blocks, VideoFrameHeader, idr,
  deserialize_rtp, serialize_rtp, deserialize_video, serialize_video, deserialize_frame_header,
  serialize_frame_header, deserialize_frame_type, serialize_frame_type,
  fec_percentage_to_parity_shards, fec_percentage_from,
}
use moonlight_common_rust.Video.Packet.RoundTrip.{
  deserialize_rtp-serialize_rtp, deserialize_video-serialize_video,
  serialize_video-deserialize_video, deserialize_frame_header-serialize_frame_header,
}
use moonlight_common_rust.Video.Nal.{h264, contained_in_h264}
use moonlight_common_rust.Video.Packet.Fec.{fec_percentage_to_parity_shards-fec_percentage_from}
use moonlight_common_rust.Video.Payloader.{
  VideoPayloader, push_frame, frame_header, generate_fec_block, fec_shards, header_size, pad,
}
use moonlight_common_rust.Video.Payloader.FecBlock.{generate_fec_block_lem, block_packets}
use moonlight_common_rust.Video.Payloader.Frame.{Sends, push_frame-Sends}
use moonlight_common_rust.Video.Payloader.Short.{push_frame_short, fec_info_of}
use moonlight_common_rust.Video.Depayloader.{
  VideoDepayloader, VideoFrameMetadata, new, take_frame, frame, is_frame_available,
  constructed_frame, frame_of, parse_frame_header, frame_len, metadata_of,
  rtp_timestamp_to_duration, frame_header_len,
}
use moonlight_common_rust.Video.Depayloader.Construct.{
  no_shards, try_construct_fec_block, construct_in, new_frame, absorb, absorb_packet, mark_shard,
  copy_shard, count_shards, try_finish, finish_block, recover_if, recover, next_block, commit,
}
use moonlight_common_rust.Video.Depayloader.Handle.{
  handle_packet, construct_stored, construct_blocks, store_packet, first_block,
}
use moonlight_common_rust.Video.Depayloader.Progress.{IsBounded}
use moonlight_common_rust.Video.Depayloader.Invariant.{
  handle_packet-IsBounded, handle_packets, handle_packets-ends,
}
use moonlight_common_rust.Video.Depayloader.Frames.{parsed, take_frame_lem}

-- A codec whose parity is made of sevens, and that recovers nothing.
abbrev codec : ReedSolomon
codec = record {
  new = λ d p. true;
  encode_sep = λ d p len shards. some (replicate p (replicate len 7));
  reconstruct_data = λ d p shards. ([], false);
}

abbrev rtp : RtpVideoHeader
rtp = record {
  header = 0x90;
  packet_type = 0;
  sequence_number = 65535;
  timestamp = 90000;
  ssrc = 0;
  reserved = 0 ∷ 0 ∷ 0 ∷ 0 ∷ [];
}

deserialize_rtp-serialize_rtp_example : deserialize_rtp (serialize_rtp rtp) ≡ rtp
deserialize_rtp-serialize_rtp_example = deserialize_rtp-serialize_rtp rtp (record {
  sequence_number_fits = omega arith;
  timestamp_fits = omega arith;
  ssrc_fits = omega arith;
  reserved_len = refl;
})

abbrev sixteen : Bytes
sixteen = 0x90 ∷ 0 ∷ 255 ∷ 254 ∷ 1 ∷ 2 ∷ 3 ∷ 4 ∷ 0 ∷ 0 ∷ 0x10 ∷ 0x40 ∷ 5 ∷ 6 ∷ 7 ∷ 8 ∷ []

sixteen-IsU8 : All (λ b. b < 2 ^ 8) sixteen
sixteen-IsU8 = (
  omega arith,
  (
    omega arith,
    (
      omega arith,
      (
        omega arith,
        (
          omega arith,
          (
            omega arith,
            (
              omega arith,
              (
                omega arith,
                (
                  omega arith,
                  (
                    omega arith,
                    (
                      omega arith,
                      (omega arith, (omega arith, (omega arith, (omega arith, (omega arith, tt))))),
                    ),
                  ),
                ),
              ),
            ),
          ),
        ),
      ),
    ),
  ),
)

serialize_video-deserialize_video_example : serialize_video (deserialize_video sixteen) ≡ sixteen
serialize_video-deserialize_video_example =
    serialize_video-deserialize_video sixteen refl sixteen-IsU8

abbrev header : VideoHeader
header = record {
  stream_packet_index = 0x010000;
  frame_index = 3;
  flags = 7;
  extra_flags = 0;
  multi_fec_flags = 0x10;
  multi_fec_blocks = record { last_block_index = 3; current_block = 2; unused = 0 };
  fec_info = record { data_shards_total = 100; shard_index = 99; fec_percentage = 20; unused = 0 };
}

deserialize_video-serialize_video_example : deserialize_video (serialize_video header) ≡ header
deserialize_video-serialize_video_example = deserialize_video-serialize_video header (record {
  stream_packet_index_fits = omega arith;
  frame_index_fits = omega arith;
  blocks_fit = record {
    last_block_index_fits = omega arith;
    current_block_fits = omega arith;
    unused_fits = omega arith;
  };
  fec_info_fits = record {
    data_shards_total_fits = omega arith;
    shard_index_fits = omega arith;
    fec_percentage_fits = omega arith;
    unused_fits = omega arith;
  };
})

abbrev idr_header : VideoFrameHeader
idr_header = record {
  header_type = 1;
  host_processing_latency = 300;
  frame_type = idr;
  last_payload_len = 1000;
  reserved = 0 ∷ 0 ∷ [];
}

deserialize_frame_header-serialize_frame_header_example :
    deserialize_frame_header (serialize_frame_header idr_header) ≡ idr_header
deserialize_frame_header-serialize_frame_header_example =
    deserialize_frame_header-serialize_frame_header idr_header (record {
      latency_fits = omega arith;
      frame_type_named = tt;
      last_payload_len_fits = omega arith;
      reserved_len = refl;
    })

abbrev sent_info : VideoFecInfo
sent_info = record { data_shards_total = 7; shard_index = 3; fec_percentage = 28; unused = 0 }

fec_percentage_to_parity_shards-fec_percentage_from_example :
    fec_percentage_to_parity_shards
      (deserialize_fec_info (serialize_fec_info sent_info)).data_shards_total
      (deserialize_fec_info (serialize_fec_info sent_info)).fec_percentage
    ≡ 2
unfolding fec_percentage_from
fec_percentage_to_parity_shards-fec_percentage_from_example =
    fec_percentage_to_parity_shards-fec_percentage_from sent_info 2
      (record {
        data_shards_total_fits = omega arith;
        shard_index_fits = omega arith;
        fec_percentage_fits = omega arith;
        unused_fits = omega arith;
      })
      (omega arith) (omega arith) refl

abbrev payloader : VideoPayloader
payloader = record {
  payload_len = 10;
  max_data_shards_per_block = 2;
  fec_config = none;
  sequence_number = 65535;
  frame_index = 1;
  packet_queue = [];
}

abbrev long_frame : Bytes
long_frame = 1 ∷ 2 ∷ 3 ∷ 4 ∷ 5 ∷ 6 ∷ 7 ∷ 8 ∷ 9 ∷ 10 ∷ 11 ∷ 12 ∷ 13 ∷ 14 ∷ 15 ∷ []

push_frame-Sends_example :
    (p' : VideoPayloader) × (packets : List Bytes) × (push_frame codec payloader 90000 none idr
        long_frame
      ≡ ok p')
    × Sends payloader (frame_header payloader none idr long_frame) long_frame p' packets
push_frame-Sends_example =
    push_frame-Sends codec payloader 90000 none idr long_frame refl (omega arith) (omega arith)
      (omega arith) (omega arith) (omega arith)

abbrev short_frame : Bytes
short_frame = 21 ∷ 22 ∷ []

push_frame_short_example :
    (p' : VideoPayloader) × (first second : Bytes) × (push_frame codec payloader 90000 none idr
        short_frame
      ≡ ok p')
    × (p'.packet_queue ≡ [] ++ first ∷ second ∷ [])
    × ((fec_info_of first).data_shards_total ≡ 1)
    × ((fec_info_of second).data_shards_total ≡ 1)
    × ((fec_info_of second).shard_index ≡ 1)
    × (drop header_size first
        ≡ pad 10 (serialize_frame_header (frame_header payloader none idr short_frame) ++ []))
    × (drop header_size second ≡ pad 10 short_frame)
push_frame_short_example =
    push_frame_short codec payloader 90000 none idr short_frame refl (omega arith) (omega arith)
      (omega arith)

abbrev with_fec : VideoPayloader
with_fec = record payloader {
  fec_config = some (record { min_required_fec_packets = 2; fec_percentage = 20 });
}

abbrev only_block : VideoMultiFecBlocks
only_block = record { last_block_index = 0; current_block = 0; unused = 0 }

abbrev parity : List Bytes
parity = replicate 2 (replicate 10 7)

with_fec_shards : fec_shards with_fec.fec_config 2 ≡ ok (2, 100)
unfolding fec_shards fec_percentage_to_parity_shards fec_percentage_from
with_fec_shards = refl

generate_fec_block_lem_example :
    generate_fec_block codec with_fec 65535 none only_block 90000 long_frame
    ≡ ok (
      record with_fec {
        packet_queue =
            [] ++ block_packets with_fec 65535 none only_block 90000 long_frame 100 parity;
      },
      4,
    )
generate_fec_block_lem_example =
    generate_fec_block_lem codec with_fec 65535 none only_block 90000 long_frame 2 100 parity
      (omega arith) tt with_fec_shards (refl, refl, omega arith, omega arith)

abbrev depayloader : VideoDepayloader
depayloader = record {
  config = record { packet_size = 26; format = h264; server_version = version 7 1 450 };
  packets = [];
  frames =
      (
        5,
        record {
          current_block = 1;
          buffer_offset = 10;
          available_shards = no_shards;
          total_data_shards = none;
          fec_percentage = none;
          last_block_index = 0;
          timestamp = 90000;
          buffer = serialize_frame_header idr_header ++ (21 ∷ 22 ∷ []);
        },
      )
      ∷ [];
}

depayloader-IsBounded : IsBounded (new depayloader.config)
unfolding new get
depayloader-IsBounded = record { frames_bounded = λ k f e. cc; packets_bounded = tt }

-- A packet that is no picture data.
abbrev other_packet : Bytes
other_packet = replicate 42 0

-- The only packet of a frame of two blocks, which completes the first.
abbrev picture_header : VideoHeader
picture_header = record {
  stream_packet_index = 256;
  frame_index = 6;
  flags = 5;
  extra_flags = 0;
  multi_fec_flags = 0x10;
  multi_fec_blocks = record { last_block_index = 1; current_block = 0; unused = 0 };
  fec_info = record { data_shards_total = 1; shard_index = 0; fec_percentage = 0; unused = 0 };
}

abbrev picture_packet : Bytes
picture_packet = sixteen ++ (serialize_video picture_header ++ replicate 10 1)

abbrev first_block_done : VideoDepayloader
first_block_done = record {
  config = depayloader.config;
  packets = [];
  frames =
      (
        6,
        record {
          current_block = 1;
          buffer_offset = 10;
          available_shards = no_shards;
          total_data_shards = none;
          fec_percentage = some 0;
          last_block_index = 1;
          timestamp = 0x01020304;
          buffer = replicate 10 1;
        },
      )
      ∷ [];
}

handle_packet-runs :
    handle_packet codec (new depayloader.config) picture_packet ≡ ok first_block_done
unfolding handle_packet construct_stored construct_blocks store_packet first_block
    try_construct_fec_block construct_in new_frame absorb absorb_packet mark_shard copy_shard
    count_shards try_finish finish_block recover_if recover next_block commit deserialize_video
    deserialize_blocks deserialize_fec_info serialize_video serialize_blocks serialize_fec_info
    deserialize_rtp new get insert update fec_percentage_to_parity_shards
handle_packet-runs = refl

handle_packet-IsBounded_example : IsBounded first_block_done
handle_packet-IsBounded_example =
    handle_packet-IsBounded codec (new depayloader.config) first_block_done picture_packet
      depayloader-IsBounded handle_packet-runs

handle_packets-ends_example :
    handle_packets codec
      (new depayloader.config)
      (other_packet ∷ (sixteen ++ (serialize_video header ++ replicate 10 1)) ∷ [])
    ≢ out_of_fuel
handle_packets-ends_example =
    handle_packets-ends codec depayloader.config
      (other_packet ∷ (sixteen ++ (serialize_video header ++ replicate 10 1)) ∷ [])

abbrev taken : Option (VideoFrameMetadata × Bytes)
taken = some (
  record {
    frame_index = 5;
    frame_type = idr;
    timestamp = (1, 0);
    host_processing_latency = some 30000;
  },
  21 ∷ 22 ∷ [],
)

take_frame-runs : take_frame depayloader 5 ≡ ok (record depayloader { frames = [] }, taken)
unfolding contained_in_h264 take_frame constructed_frame frame_of parse_frame_header frame_len
    metadata_of rtp_timestamp_to_duration frame_header_len at_least cmp deserialize_frame_header
    serialize_frame_header deserialize_frame_type serialize_frame_type get remove
take_frame-runs = refl

take_frame_lem_example :
    (frame depayloader 5 ≡ parsed depayloader taken)
    × (get 5 [] ≡ (
        if (if 5 == 5 then is_frame_available depayloader 5 else false)
        then none
        else get 5 depayloader.frames))
    × (depayloader.packets ≡ [])
take_frame_lem_example =
    take_frame_lem depayloader (record depayloader { frames = [] }) 5 5 taken take_frame-runs
