-- ===== src/Video/Depayloader/Progress.antt =====
-- The `while` loop of `handle_packet` ends: each round finishes a block of the frame.
use moonlight_common_rust.Common.{
  ℕ, suc, ◌<◌, ◌≡◌, ◌≢◌, refl, sym, ◌∙◌, Bool, true, false, [], ◌∷◌, none, some, Bytes, All, find?,
  ok, out_of_fuel, arith, Option-cases, Bool-cases, inl, inr, saturating_add_u8, ==_refl,
  >>=-ends_at,
}
use moonlight_common_rust.Common.Map.{Map, get, insert, get-insert}
use moonlight_common_rust.ReedSolomon.{ReedSolomon}
use moonlight_common_rust.Video.Packet.{deserialize_video, deserialize_blocks}
use moonlight_common_rust.Video.Depayloader.{VideoDepayloader, Packet, Frame, is_of_frame}
use moonlight_common_rust.Video.Depayloader.Construct.{
  new_frame, construct_in, try_construct_fec_block,
}
use moonlight_common_rust.Video.Depayloader.Handle.{
  construct_blocks, construct_stored, handle_packet, store_packet, video_header_of,
}
use moonlight_common_rust.Video.Depayloader.Rounds.{
  construct_in-Advanced, try_construct_fec_block-ends, construct_known,
}

-- Block indices have two bits, in what is stored as in what is read.
pub record IsBounded (d : VideoDepayloader) : Type 0 where
  pub frames_bounded : (k : ℕ) (f : Frame) → get k d.frames ≡ some f → f.last_block_index < 4
  pub packets_bounded :
      All (λ entry. entry.1.video_header.multi_fec_blocks.last_block_index < 4) d.packets

pub find?-bounded :
    (p : ℕ × Packet → Bool) (packets : Map Packet) (entry : ℕ × Packet)
    → All (λ e. e.1.video_header.multi_fec_blocks.last_block_index < 4) packets
    → find? p packets ≡ some entry
    → entry.1.video_header.multi_fec_blocks.last_block_index < 4
find?-bounded p [] entry h e = cc
find?-bounded p (x ∷ packets) entry h e = elim (Bool-cases (p x)) [
  | inl hit ↦
      let found : find? p (x ∷ packets) ≡ some x = rw (hit, find?) refl in
      let same : x ≡ entry = cc in rw (← same) h.0
  | inr miss ↦ find?-bounded p packets entry h.1 (rw (miss, find?) at e)
]

fresh_round :
    (rs : ReedSolomon) (fuel : ℕ) (d : VideoDepayloader) (frame_index block_index : ℕ)
    (entry : ℕ × Packet)
    → 5 < fuel
    → entry.1.video_header.multi_fec_blocks.last_block_index < 4
    → let f = new_frame entry.1 in
      (r : VideoDepayloader × Bool)
      → construct_in rs
          (record d { frames = insert frame_index f d.frames })
          frame_index
          block_index
          f
        ≡ ok r
      → elim r.1 [
        | false ↦ ok r.0
        | true ↦ construct_blocks rs fuel r.0 frame_index (saturating_add_u8 block_index 1)
      ]
        ≢ out_of_fuel
fresh_round rs fuel d fi bi entry enough small (d', false) e = λ p. cc
fresh_round rs fuel d fi bi entry enough small (d', true) e =
    let f = new_frame entry.1 in
    let known : get fi (insert fi f d.frames) ≡ some f =
      rw (get-insert fi fi f d.frames, ==_refl fi) refl in
    let ((g, at, cb, lb), _, _) = construct_in-Advanced rs _ d' fi bi f known e in
    let last : g.last_block_index < 4 = unfold new_frame in rw lb small in
    construct_known rs fuel d' fi (saturating_add_u8 bi 1) g at (omega arith) (omega arith)

first_of_frame :
    (rs : ReedSolomon) (d : VideoDepayloader) (frame_index block_index : ℕ) (entry : ℕ × Packet)
    → get frame_index d.frames ≡ none
    → find? (is_of_frame frame_index) d.packets ≡ some entry
    → try_construct_fec_block rs d frame_index block_index
      ≡ construct_in rs
          (record d { frames = insert frame_index (new_frame entry.1) d.frames })
          frame_index
          block_index
          (new_frame entry.1)
unfolding try_construct_fec_block
first_of_frame rs d fi bi entry unknown found = rw (unknown, try_construct_fec_block, found) refl

none_of_frame :
    (rs : ReedSolomon) (d : VideoDepayloader) (frame_index block_index : ℕ)
    → get frame_index d.frames ≡ none
    → find? (is_of_frame frame_index) d.packets ≡ none
    → try_construct_fec_block rs d frame_index block_index ≡ ok (d, false)
unfolding try_construct_fec_block
none_of_frame rs d fi bi unknown nothing = rw (unknown, try_construct_fec_block, nothing) refl

-- A loop with fuel for five rounds and more ends.
construct_blocks-ends :
    (rs : ReedSolomon) (fuel : ℕ) (d : VideoDepayloader) (frame_index block_index : ℕ)
    → 5 < fuel
    → IsBounded d
    → construct_blocks rs (suc fuel) d frame_index block_index ≢ out_of_fuel
unfolding construct_blocks
construct_blocks-ends rs fuel d fi bi enough bounded = elim (Option-cases (get fi d.frames)) [
  | inr (f, known) ↦
      construct_known rs (suc fuel) d fi bi f known (omega arith)
        (omega (arith, bounded.frames_bounded fi f known))
  | inl unknown ↦ elim (Option-cases (find? (is_of_frame fi) d.packets)) [
    | inl nothing ↦ rw (none_of_frame rs d fi bi unknown nothing, construct_blocks) (λ p. cc)
    | inr (entry, found) ↦
        let small = find?-bounded (is_of_frame fi) d.packets entry bounded.packets_bounded found in
        >>=-ends_at (try_construct_fec_block rs d fi bi) _ (try_construct_fec_block-ends rs d fi bi)
          (λ r e.
            fresh_round rs fuel d fi bi entry enough small r
              (sym (first_of_frame rs d fi bi entry unknown found) ∙ e))
  ]
]

pub insert-bounded :
    (k : ℕ) (p : Packet) (packets : Map Packet)
    → p.video_header.multi_fec_blocks.last_block_index < 4
    → All (λ e. e.1.video_header.multi_fec_blocks.last_block_index < 4) packets
    → All (λ e. e.1.video_header.multi_fec_blocks.last_block_index < 4) (insert k p packets)
unfolding insert
insert-bounded k p [] small h = (small, tt)
insert-bounded k p ((j, q) ∷ packets) small h = ground (arith, insert-bounded k p packets small h.1)

last_block_index-lt :
    (packet : Bytes) → (video_header_of packet).multi_fec_blocks.last_block_index < 4
unfolding deserialize_video deserialize_blocks
last_block_index-lt packet = omega arith

pub store_packet-IsBounded :
    (d : VideoDepayloader) (packet : Bytes) → IsBounded d → IsBounded (store_packet d packet)
unfolding store_packet
store_packet-IsBounded d packet b = record {
  frames_bounded = b.frames_bounded;
  packets_bounded = insert-bounded _ _ d.packets (last_block_index-lt packet) b.packets_bounded;
}

construct_stored-ends :
    (rs : ReedSolomon) (d : VideoDepayloader) (packet : Bytes)
    → IsBounded d
    → construct_stored rs d packet ≢ out_of_fuel
unfolding construct_stored
construct_stored-ends rs d packet b =
    construct_blocks-ends rs 255 (store_packet d packet) _ _ (omega arith)
      (store_packet-IsBounded d packet b)

-- With the last block indices of the stored frames and packets within their two bits, `handle_packet` ends on
-- every packet, with a result, an error or a panic: its loop over the blocks needs no more rounds than
-- the model gives it.
pub handle_packet-ends :
    (rs : ReedSolomon) (d : VideoDepayloader) (packet : Bytes)
    → IsBounded d
    → handle_packet rs d packet ≢ out_of_fuel
unfolding handle_packet
handle_packet-ends rs d packet b = ground (arith, construct_stored-ends rs d packet b)
