-- ===== src/Video/Depayloader/Invariant.antt =====
-- The bound on the last block's index that `handle_packet` needs, kept by every packet.
mod Block
use moonlight_common_rust.Common.{
  ℕ, suc, ◌+◌, ◌%◌, ◌<◌, ◌≡◌, ◌≢◌, ◌⊎◌, refl, sym, ◌∙◌, zero, >>=-ends_at, if◌then◌else◌, Bool,
  true, false, not, List, [], ◌∷◌, Option, none, some, Bytes, All, retain, find?, Outcome, ok, err,
  panic, out_of_fuel, assert, ◌>>=◌, ◌>>◌, arith, Option-cases, Bool-cases, >>=-eq-ok, ltb, ◌==◌,
  inl, inr, saturating_add_u8,
}
use moonlight_common_rust.Common.Map.{Map, get, insert, update, get-insert}
use moonlight_common_rust.ReedSolomon.{ReedSolomon, Shard}
use moonlight_common_rust.Video.Depayloader.{
  VideoDepayloader, VideoDepayloaderConfig, Packet, Frame, is_of_frame, new, payload_len,
  is_complete, frame_of,
}
use moonlight_common_rust.Video.Depayloader.Construct.{
  Failure, new_frame, absorb_packet, absorb, fill_parity, recover, recover_if, run_codec,
  next_block, commit, try_finish, finish_block, construct_in, try_construct_fec_block, mark_shard,
  copy_shard, count_shards,
}
use moonlight_common_rust.Video.Depayloader.Handle.{
  construct_blocks, construct_stored, handle_packet, store_packet, max_rounds, first_block,
  video_header_of,
}
use moonlight_common_rust.Video.Depayloader.Rounds.{absorb-Place, recover_if-Place}
use moonlight_common_rust.Video.Depayloader.Progress.{
  IsBounded, find?-bounded, store_packet-IsBounded, handle_packet-ends,
}
use moonlight_common_rust.Video.Depayloader.Invariant.Block.{construct_in-IsBounded}

insert-IsBounded :
    (d : VideoDepayloader) (fi : ℕ) (g : Frame)
    → IsBounded d
    → g.last_block_index < 4
    → IsBounded (record d { frames = insert fi g d.frames })
insert-IsBounded d fi g b small = record {
  frames_bounded = λ k f e.
      let at : (if fi == k then some g else get k d.frames) ≡ some f =
        sym (get-insert fi k g d.frames) ∙ e in
      elim (Bool-cases (fi == k)) [
        | inl same ↦ let q : f ≡ g = ground arith in rw q small
        | inr other ↦ b.frames_bounded k f (ground arith)
      ];
  packets_bounded = b.packets_bounded;
}

try_construct_fec_block-IsBounded :
    (rs : ReedSolomon) (d : VideoDepayloader) (fi bi : ℕ) (r : VideoDepayloader × Bool)
    → IsBounded d
    → try_construct_fec_block rs d fi bi ≡ ok r
    → IsBounded r.0
unfolding try_construct_fec_block new_frame
try_construct_fec_block-IsBounded rs d fi bi r b e = elim (Option-cases (get fi d.frames)) [
  | inr (f, known) ↦
      let run : construct_in rs d fi bi f ≡ ok r = ground arith in
      construct_in-IsBounded rs d fi bi f r b (b.frames_bounded fi f known) run
  | inl unknown ↦ elim (Option-cases (find? (is_of_frame fi) d.packets)) [
    | inl nothing ↦ let q : r.0 ≡ d = ground arith in rw q b
    | inr (entry, found) ↦
        let small = find?-bounded (is_of_frame fi) d.packets entry b.packets_bounded found in
        let run : construct_in rs (record d { frames = insert fi (new_frame entry.1) d.frames }) fi
              bi (new_frame entry.1)
            ≡ ok r =
          ground arith in
        construct_in-IsBounded rs (record d { frames = insert fi (new_frame entry.1) d.frames }) fi
          bi (new_frame entry.1) r (insert-IsBounded d fi (new_frame entry.1) b small) small run
  ]
]

construct_blocks-IsBounded :
    (rs : ReedSolomon) (fuel : ℕ) (d d' : VideoDepayloader) (fi bi : ℕ)
    → IsBounded d
    → construct_blocks rs fuel d fi bi ≡ ok d'
    → IsBounded d'
unfolding construct_blocks
construct_blocks-IsBounded rs zero d d' fi bi b e = cc
construct_blocks-IsBounded rs (suc fuel) d d' fi bi b e =
    let ((d1, more), ran, e1) = >>=-eq-ok (try_construct_fec_block rs d fi bi) _ e in
    let b1 = try_construct_fec_block-IsBounded rs d fi bi (d1, more) b ran in
    elim (Bool-cases more) [
      | inl again ↦
          construct_blocks-IsBounded rs fuel d1 d' fi (saturating_add_u8 bi 1) b1 (ground arith)
      | inr done ↦ let q : d' ≡ d1 = ground arith in rw q b1
    ]

-- A depayloader in which the index of the last block has two bits, in every stored frame and every stored
-- packet, is again one behind every packet that it takes without an error, whatever its bytes.
pub handle_packet-IsBounded :
    (rs : ReedSolomon) (d d' : VideoDepayloader) (packet : Bytes)
    → IsBounded d
    → handle_packet rs d packet ≡ ok d'
    → IsBounded d'
unfolding handle_packet construct_stored
handle_packet-IsBounded rs d d' packet b e =
    elim (Bool-cases ((video_header_of packet).flags % 2 == 1)) [
      | inr other ↦ let q : d' ≡ d = ground arith in rw q b
      | inl picture ↦
          let header = video_header_of packet in
          let stored = store_packet d packet in
          let first = first_block stored header.frame_index header.multi_fec_blocks.current_block in
          let run : construct_blocks rs max_rounds stored header.frame_index first ≡ ok d' =
            ground arith in
          construct_blocks-IsBounded rs max_rounds stored d' header.frame_index first
            (store_packet-IsBounded d packet b) run
    ]

new-IsBounded : (config : VideoDepayloaderConfig) → IsBounded (new config)
unfolding new get
new-IsBounded config = record { frames_bounded = λ k f e. cc; packets_bounded = tt }

-- Packets one after the other, up to the first error.
pub handle_packets : ReedSolomon → VideoDepayloader → List Bytes → Outcome Failure VideoDepayloader
handle_packets rs d [] = ok d
handle_packets rs d (packet ∷ packets) =
    handle_packet rs d packet >>= λ next. handle_packets rs next packets

handle_packets-ends_from :
    (rs : ReedSolomon) (d : VideoDepayloader) (packets : List Bytes)
    → IsBounded d
    → handle_packets rs d packets ≢ out_of_fuel
unfolding handle_packets
handle_packets-ends_from rs d [] b = λ e. cc
handle_packets-ends_from rs d (packet ∷ packets) b =
    >>=-ends_at (handle_packet rs d packet) _ (handle_packet-ends rs d packet b) (λ next e.
      handle_packets-ends_from rs next packets (handle_packet-IsBounded rs d next packet b e))

-- From a new depayloader, under any configuration and codec: every sequence of packets, whatever their bytes,
-- is worked off, with a result, an error or a panic. The loop over the blocks never runs on.
pub handle_packets-ends :
    (rs : ReedSolomon) (config : VideoDepayloaderConfig) (packets : List Bytes)
    → handle_packets rs (new config) packets ≢ out_of_fuel
handle_packets-ends rs config packets =
    handle_packets-ends_from rs (new config) packets (new-IsBounded config)
