-- ===== src/Video/Depayloader/Rounds.antt =====
-- One round of the loop of `handle_packet` either stops or finishes a block of its frame.
use moonlight_common_rust.Common.{
  ℕ, zero, suc, ◌+◌, ◌≤◌, ◌<◌, ◌≡◌, ◌≢◌, refl, Bool, true, false, List, [], ◌∷◌, some, ok,
  out_of_fuel, arith, Option-cases, inl, inr, saturating_add_u8, ◌>>=◌, ◌>>◌, assert, >>=-eq-ok,
  >>=-ends, >>=-ends_at, assert-ends,
}
use moonlight_common_rust.Common.Map.{Map, get, get-update_self}
use moonlight_common_rust.ReedSolomon.{ReedSolomon, Shard}
use moonlight_common_rust.Video.Depayloader.{
  VideoDepayloader, Packet, Frame, payload_len, frame_of, frame_len, parse_frame_header,
}
use moonlight_common_rust.Video.Depayloader.Construct.{
  mark_shard, copy_shard, absorb_packet, absorb, fill_parity, recover, recover_if, run_codec,
  next_block, commit, count_shards, try_finish, finish_block, construct_in, try_construct_fec_block,
}
use moonlight_common_rust.Video.Depayloader.Handle.{construct_blocks}

-- The place of a frame in its blocks.
abbrev pub Place : Frame → Frame → Type 0
Place f g = (g.current_block ≡ f.current_block) × (g.last_block_index ≡ f.last_block_index)

absorb_packet-Place :
    (len frame_index block_index : ℕ) (f g : Frame) (p : Packet) (keep : Bool)
    → absorb_packet len frame_index block_index f p ≡ ok (g, keep)
    → Place f g
unfolding absorb_packet mark_shard copy_shard
absorb_packet-Place len fi bi f g p keep e = ground arith

pub absorb-Place :
    (len frame_index block_index : ℕ) (f g : Frame) (packets rest : Map Packet)
    → absorb len frame_index block_index f packets ≡ ok (g, rest)
    → Place f g
unfolding absorb
absorb-Place len fi bi f g [] rest e = ground arith
absorb-Place len fi bi f g ((k, p) ∷ packets) rest e =
    let ((h, keep), first, e1) = >>=-eq-ok (absorb_packet len fi bi f p) _ e in
    let ((i, kept), later, e2) = >>=-eq-ok (absorb len fi bi h packets) _ e1 in
    let a = absorb_packet-Place len fi bi f h p keep first in
    let b = absorb-Place len fi bi h i packets kept later in ground arith

absorb_packet-ends :
    (len frame_index block_index : ℕ) (f : Frame) (p : Packet)
    → absorb_packet len frame_index block_index f p ≢ out_of_fuel
unfolding absorb_packet
absorb_packet-ends len fi bi f p = ground arith

absorb-ends :
    (len frame_index block_index : ℕ) (f : Frame) (packets : Map Packet)
    → absorb len frame_index block_index f packets ≢ out_of_fuel
unfolding absorb
absorb-ends len fi bi f [] = ground arith
absorb-ends len fi bi f ((k, p) ∷ packets) =
    >>=-ends (absorb_packet len fi bi f p) _ (absorb_packet-ends len fi bi f p)
      λ r. >>=-ends (absorb len fi bi r.0 packets) _ (absorb-ends len fi bi r.0 packets) (λ q e. cc)

frame_of-ends :
    (d : VideoDepayloader) (frame_index : ℕ) (f : Frame) → frame_of d frame_index f ≢ out_of_fuel
unfolding frame_of parse_frame_header frame_len
frame_of-ends d fi f = ground arith

fill_parity-ends :
    (frame_index block_index : ℕ) (packets : Map Packet) (shards : List Shard)
    → fill_parity frame_index block_index packets shards ≢ out_of_fuel
unfolding fill_parity
fill_parity-ends fi bi [] shards = ground arith
fill_parity-ends fi bi ((k, p) ∷ packets) shards =
    >>=-ends (assert _) _ (assert-ends _) (λ u. fill_parity-ends fi bi packets _)

run_codec-ends :
    (rs : ReedSolomon) (total parity_total : ℕ) (f : Frame) (shards : List Shard)
    → run_codec rs total parity_total f shards ≢ out_of_fuel
unfolding run_codec
run_codec-ends rs total parity f shards = ground arith

run_codec-Place :
    (rs : ReedSolomon) (total parity_total : ℕ) (f g : Frame) (shards : List Shard) (success : Bool)
    → run_codec rs total parity_total f shards ≡ ok (g, success)
    → Place f g
unfolding run_codec
run_codec-Place rs total parity f g shards success e = ground arith

recover_if-ends :
    (rs : ReedSolomon) (go : Bool) (len frame_index block_index total parity_total : ℕ) (f : Frame)
    (packets : Map Packet)
    → recover_if rs go len frame_index block_index total parity_total f packets ≢ out_of_fuel
unfolding recover_if recover
recover_if-ends rs false len fi bi total parity f packets = λ e. cc
recover_if-ends rs true len fi bi total parity f packets =
    >>=-ends (assert _) _ (assert-ends _) λ u.
      >>=-ends (fill_parity fi bi packets _) _ (fill_parity-ends fi bi packets _)
        λ shards. run_codec-ends rs total parity _ shards

recovered-Place :
    (rs : ReedSolomon) (fi bi total parity : ℕ) (inside : Bool) (f g h : Frame)
    (packets : Map Packet) (shards : List Shard) (success : Bool)
    → Place f g
    → (assert inside
        >> (fill_parity fi bi packets shards >>= λ filled. run_codec rs total parity g filled))
      ≡ ok (h, success)
    → Place f h
recovered-Place rs fi bi total parity inside f g h packets shards success same e =
    let (u, _, e1) = >>=-eq-ok (assert inside) _ e in
    let (filled, _, e2) = >>=-eq-ok (fill_parity fi bi packets shards) _ e1 in
    let p = run_codec-Place rs total parity g h filled success e2 in omega arith

pub recover_if-Place :
    (rs : ReedSolomon) (go : Bool) (len frame_index block_index total parity_total : ℕ)
    (f g : Frame) (packets : Map Packet) (success : Bool)
    → recover_if rs go len frame_index block_index total parity_total f packets ≡ ok (g, success)
    → Place f g
unfolding recover_if recover
recover_if-Place rs false len fi bi total parity f g packets success e = ground arith
recover_if-Place rs true len fi bi total parity f g packets success e =
    recovered-Place rs fi bi total parity _ f _ g packets _ success (refl, refl) e

-- The frame behind a round that has finished a block.
abbrev Advanced : VideoDepayloader → ℕ → Frame → Type 0
Advanced d frame_index f =
    (g : Frame) × (get frame_index d.frames ≡ some g)
    × (g.current_block ≡ f.current_block + 1)
    × (g.last_block_index ≡ f.last_block_index)

commit-ends :
    (d : VideoDepayloader) (frame_index : ℕ) (h g : Frame) (packets : Map Packet) (success : Bool)
    → commit d frame_index h g packets success ≢ out_of_fuel
unfolding commit
commit-ends d fi h g packets false = λ e. cc
commit-ends d fi h g packets true = ground (arith, frame_of-ends d fi h)

commit-Advanced :
    (d d' : VideoDepayloader) (frame_index : ℕ) (f old h g : Frame) (packets : Map Packet)
    (success : Bool)
    → get frame_index d.frames ≡ some old
    → h.current_block ≡ f.current_block + 1
    → h.last_block_index ≡ f.last_block_index
    → commit d frame_index h g packets success ≡ ok (d', true)
    → Advanced d' frame_index f
unfolding commit
commit-Advanced d d' fi f old h g packets false known e1 e2 e = cc
commit-Advanced d d' fi f old h g packets true known e1 e2 e =
    (h, ground (arith, get-update_self fi h old d.frames), e1, e2)

finish_block-ends :
    (rs : ReedSolomon) (d : VideoDepayloader) (frame_index block_index : ℕ) (f : Frame)
    (packets : Map Packet) (total percentage parity : ℕ)
    → finish_block rs d frame_index block_index f packets total percentage parity ≢ out_of_fuel
unfolding finish_block
finish_block-ends rs d fi bi f packets total percentage parity =
    >>=-ends (recover_if rs _ _ fi bi total _ f packets) _
      (recover_if-ends rs _ _ fi bi total _ f packets)
      λ r. commit-ends d fi (next_block (payload_len d) total r.0) r.0 packets r.1

finish_block-Advanced :
    (rs : ReedSolomon) (d d' : VideoDepayloader) (frame_index block_index : ℕ) (f old : Frame)
    (packets : Map Packet) (total percentage parity : ℕ)
    → get frame_index d.frames ≡ some old
    → finish_block rs d frame_index block_index f packets total percentage parity ≡ ok (d', true)
    → Advanced d' frame_index f
unfolding finish_block next_block
finish_block-Advanced rs d d' fi bi f old packets total percentage parity known e =
    let ((g, success), ran, e1) = >>=-eq-ok (recover_if rs _ _ fi bi total _ f packets) _ e in
    let (cb, lb) = recover_if-Place rs _ _ fi bi total _ f g packets success ran in
    commit-Advanced d d' fi f old (next_block (payload_len d) total g) g packets success known
      (omega arith) lb e1

try_finish-ends :
    (rs : ReedSolomon) (d : VideoDepayloader) (frame_index block_index : ℕ) (f : Frame)
    (packets : Map Packet)
    → try_finish rs d frame_index block_index f packets ≢ out_of_fuel
unfolding try_finish
try_finish-ends rs d fi bi f packets = grind (arith, finish_block-ends)

try_finish-Advanced :
    (rs : ReedSolomon) (d d' : VideoDepayloader) (frame_index block_index : ℕ) (f old : Frame)
    (packets : Map Packet)
    → get frame_index d.frames ≡ some old
    → try_finish rs d frame_index block_index f packets ≡ ok (d', true)
    → Advanced d' frame_index f
unfolding try_finish
try_finish-Advanced rs d d' fi bi f old packets known e = elim (Option-cases f.total_data_shards) [
  | inl none_known ↦ ground arith
  | inr (total, et) ↦ elim (Option-cases f.fec_percentage) [
    | inl unknown ↦ ground arith
    | inr (percentage, ep) ↦
        let counted = count_shards total f.available_shards 0 0 0 in
        let done : finish_block rs d fi bi f packets total percentage counted.1 ≡ ok (d', true) =
          ground arith in
        finish_block-Advanced rs d d' fi bi f old packets total percentage counted.1 known done
  ]
]

construct_in-ends :
    (rs : ReedSolomon) (d : VideoDepayloader) (frame_index block_index : ℕ) (f : Frame)
    → construct_in rs d frame_index block_index f ≢ out_of_fuel
unfolding construct_in
construct_in-ends rs d fi bi f =
    let run =
      >>=-ends (absorb (payload_len d) fi bi f d.packets) (λ r. try_finish rs d fi bi r.0 r.1)
        (absorb-ends (payload_len d) fi bi f d.packets) (λ r. try_finish-ends rs d fi bi r.0 r.1) in
    ground (arith, run)

pub construct_in-Advanced :
    (rs : ReedSolomon) (d d' : VideoDepayloader) (frame_index block_index : ℕ) (f : Frame)
    → get frame_index d.frames ≡ some f
    → construct_in rs d frame_index block_index f ≡ ok (d', true)
    → Advanced d' frame_index f
      × (block_index ≡ f.current_block)
      × (block_index ≤ f.last_block_index)
unfolding construct_in
construct_in-Advanced rs d d' fi bi f known e =
    let here : (bi ≡ f.current_block) × (bi ≤ f.last_block_index) = ground arith in
    let run : (absorb (payload_len d) fi bi f d.packets >>= λ r. try_finish rs d fi bi r.0 r.1)
        ≡ ok (d', true) =
      ground arith in
    let ((g, rest), taken, e1) =
      >>=-eq-ok (absorb (payload_len d) fi bi f d.packets) (λ r. try_finish rs d fi bi r.0 r.1)
        run in
    let (cb, lb) = absorb-Place (payload_len d) fi bi f g d.packets rest taken in
    let (h, at, ch, lh) = try_finish-Advanced rs d d' fi bi g f rest known e1 in
    ((h, at, omega arith, omega arith), here.0, here.1)

pub try_construct_fec_block-ends :
    (rs : ReedSolomon) (d : VideoDepayloader) (frame_index block_index : ℕ)
    → try_construct_fec_block rs d frame_index block_index ≢ out_of_fuel
unfolding try_construct_fec_block
try_construct_fec_block-ends rs d fi bi = grind (arith, construct_in-ends)

-- What is known of the frame behind a round that has finished a block.
try_construct_fec_block-Advanced :
    (rs : ReedSolomon) (d d' : VideoDepayloader) (frame_index block_index : ℕ) (f : Frame)
    → get frame_index d.frames ≡ some f
    → try_construct_fec_block rs d frame_index block_index ≡ ok (d', true)
    → Advanced d' frame_index f × (f.current_block ≤ f.last_block_index)
unfolding try_construct_fec_block
try_construct_fec_block-Advanced rs d d' fi bi f known e =
    let run : construct_in rs d fi bi f ≡ ok (d', true) = ground arith in
    let (advanced, at, le) = construct_in-Advanced rs d d' fi bi f known run in
    (advanced, omega arith)

pub construct_known :
    (rs : ReedSolomon) (fuel : ℕ) (d : VideoDepayloader) (frame_index block_index : ℕ) (f : Frame)
    → get frame_index d.frames ≡ some f
    → 0 < fuel
    → f.last_block_index + 1 < fuel + f.current_block
    → construct_blocks rs fuel d frame_index block_index ≢ out_of_fuel
unfolding construct_blocks
construct_known rs zero d fi bi f known some_fuel enough = absurd (omega arith)
construct_known rs (suc fuel) d fi bi f known some_fuel enough =
    >>=-ends_at (try_construct_fec_block rs d fi bi) _ (try_construct_fec_block-ends rs d fi bi) (
      go λ d' g known' fuel' enough'.
        construct_known rs fuel d' fi (saturating_add_u8 bi 1) g known' fuel' enough')
  where
    go :
        ((d' : VideoDepayloader) (g : Frame)
          → get fi d'.frames ≡ some g
          → 0 < fuel
          → g.last_block_index + 1 < fuel + g.current_block
          → construct_blocks rs fuel d' fi (saturating_add_u8 bi 1) ≢ out_of_fuel)
        → (r : VideoDepayloader × Bool) → try_construct_fec_block rs d fi bi ≡ ok r
        → elim r.1 [
          | false ↦ ok r.0
          | true ↦ construct_blocks rs fuel r.0 fi (saturating_add_u8 bi 1)
        ]
          ≢ out_of_fuel
    go next (d', false) e = λ p. cc
    go next (d', true) e =
        let ((g, at, cb, lb), le) = try_construct_fec_block-Advanced rs d d' fi bi f known e in
        next d' g at (omega arith) (omega arith)
