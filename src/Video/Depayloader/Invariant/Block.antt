-- ===== src/Video/Depayloader/Invariant/Block.antt =====
-- The bound on block indices, behind one try to finish a block.
use moonlight_common_rust.Common.{
  ℕ, ◌+◌, ◌<◌, ◌≡◌, ◌⊎◌, Bool, true, false, not, [], ◌∷◌, some, All, retain, ok, ◌>>=◌, arith,
  Option-cases, Bool-cases, >>=-eq-ok, ltb, ◌==◌, inl, inr,
}
use moonlight_common_rust.Common.Map.{Map, get, update}
use moonlight_common_rust.ReedSolomon.{ReedSolomon}
use moonlight_common_rust.Video.Depayloader.{
  VideoDepayloader, Packet, Frame, is_of_frame, payload_len, is_complete,
}
use moonlight_common_rust.Video.Depayloader.Construct.{
  absorb_packet, absorb, recover_if, next_block, commit, try_finish, finish_block, construct_in,
  count_shards,
}
use moonlight_common_rust.Video.Depayloader.Rounds.{absorb-Place, recover_if-Place}
use moonlight_common_rust.Video.Depayloader.Progress.{IsBounded}

abbrev pub PacketIsBounded : ℕ × Packet → Type 0
PacketIsBounded entry = entry.1.video_header.multi_fec_blocks.last_block_index < 4

get-update :
    (k j : ℕ) (v w : Frame) (m : Map Frame)
    → get j (update k v m) ≡ some w
    → (w ≡ v) ⊎ (get j m ≡ some w)
unfolding get update
get-update k j v w [] e = cc
get-update k j v w ((i, u) ∷ m) e = ground (arith, get-update k j v w m)

retain-All :
    (p : ℕ × Packet → Bool) (m : Map Packet)
    → All PacketIsBounded m
    → All PacketIsBounded (retain p m)
retain-All p [] all = tt
retain-All p (x ∷ m) all = elim (Bool-cases (p x)) [
  | inl e ↦ rw (e, retain) (all.0, retain-All p m all.1)
  | inr e ↦ rw (e, retain) (retain-All p m all.1)
]

absorb-All :
    (len fi bi : ℕ) (f g : Frame) (packets rest : Map Packet)
    → absorb len fi bi f packets ≡ ok (g, rest)
    → All PacketIsBounded packets
    → All PacketIsBounded rest
unfolding absorb
absorb-All len fi bi f g [] rest e all = let same : rest ≡ [] = ground arith in rw same tt
absorb-All len fi bi f g ((k, p) ∷ packets) rest e all =
    let ((h, keep), first, e1) = >>=-eq-ok (absorb_packet len fi bi f p) _ e in
    let ((i, kept), later, e2) = >>=-eq-ok (absorb len fi bi h packets) _ e1 in
    let others = absorb-All len fi bi h i packets kept later all.1 in
    elim (Bool-cases keep) [
      | inl stays ↦ let same : rest ≡ (k, p) ∷ kept = ground arith in rw same (all.0, others)
      | inr goes ↦ let same : rest ≡ kept = ground arith in rw same others
    ]

pub update-IsBounded :
    (d : VideoDepayloader) (fi : ℕ) (g : Frame) (packets : Map Packet)
    → IsBounded d
    → g.last_block_index < 4
    → All PacketIsBounded packets
    → IsBounded (record d { frames = update fi g d.frames; packets = packets })
update-IsBounded d fi g packets b small all = record {
  frames_bounded = λ k f e. elim (get-update fi k g f d.frames e) [
    | inl same ↦ rw same small
    | inr old ↦ b.frames_bounded k f old
  ];
  packets_bounded = all;
}

commit-IsBounded :
    (d : VideoDepayloader) (fi : ℕ) (h g : Frame) (packets : Map Packet) (success : Bool)
    (r : VideoDepayloader × Bool)
    → IsBounded d
    → h.last_block_index < 4
    → All PacketIsBounded packets
    → commit d fi h g packets success ≡ ok r
    → IsBounded r.0
unfolding commit
commit-IsBounded d fi h g packets false r b small all e = cc
commit-IsBounded d fi h g packets true r b small all e = elim (Bool-cases (is_complete h)) [
  | inr open_still ↦
      let q : r.0 ≡ record d { frames = update fi h d.frames; packets = packets } = ground arith in
      rw q (update-IsBounded d fi h packets b small all)
  | inl done ↦
      let left = retain (λ entry. not (is_of_frame fi entry)) packets in
      let q : r.0 ≡ record d { frames = update fi h d.frames; packets = left } = ground arith in
      rw q (
        update-IsBounded d fi h left b small
          (retain-All (λ entry. not (is_of_frame fi entry)) packets all))
]

finish_block-IsBounded :
    (rs : ReedSolomon) (d : VideoDepayloader) (fi bi : ℕ) (f : Frame) (packets : Map Packet)
    (total percentage parity : ℕ) (r : VideoDepayloader × Bool)
    → IsBounded d
    → f.last_block_index < 4
    → All PacketIsBounded packets
    → finish_block rs d fi bi f packets total percentage parity ≡ ok r
    → IsBounded r.0
unfolding finish_block next_block
finish_block-IsBounded rs d fi bi f packets total percentage parity r b small all e =
    let ((g, success), ran, e1) = >>=-eq-ok (recover_if rs _ _ fi bi total _ f packets) _ e in
    let (cb, lb) = recover_if-Place rs _ _ fi bi total _ f g packets success ran in
    commit-IsBounded d fi (next_block (payload_len d) total g) g packets success r b (omega arith)
      all e1

try_finish-IsBounded :
    (rs : ReedSolomon) (d : VideoDepayloader) (fi bi : ℕ) (f : Frame) (packets : Map Packet)
    (r : VideoDepayloader × Bool)
    → IsBounded d
    → f.last_block_index < 4
    → All PacketIsBounded packets
    → try_finish rs d fi bi f packets ≡ ok r
    → IsBounded r.0
unfolding try_finish
try_finish-IsBounded rs d fi bi f packets r b small all e =
    let waits = update-IsBounded d fi f packets b small all in
    elim (Option-cases f.total_data_shards) [
      | inl unknown ↦
          let q : r.0 ≡ record d { frames = update fi f d.frames; packets = packets } =
            ground arith in
          rw q waits
      | inr (total, et) ↦ elim (Option-cases f.fec_percentage) [
        | inl unknown ↦ absurd (ground arith)
        | inr (percentage, ep) ↦
            let counted = count_shards total f.available_shards 0 0 0 in
            elim (Bool-cases (ltb (counted.0 + counted.1) total)) [
              | inl few ↦
                  let q : r.0 ≡ record d { frames = update fi f d.frames; packets = packets } =
                    ground arith in
                  rw q waits
              | inr enough ↦
                  let done : finish_block rs d fi bi f packets total percentage counted.1 ≡ ok r =
                    ground arith in
                  finish_block-IsBounded rs d fi bi f packets total percentage counted.1 r b small
                    all done
            ]
      ]
    ]

pub construct_in-IsBounded :
    (rs : ReedSolomon) (d : VideoDepayloader) (fi bi : ℕ) (f : Frame) (r : VideoDepayloader × Bool)
    → IsBounded d
    → f.last_block_index < 4
    → construct_in rs d fi bi f ≡ ok r
    → IsBounded r.0
unfolding construct_in
construct_in-IsBounded rs d fi bi f r b small e = elim (Bool-cases (ltb f.last_block_index bi)) [
  | inl late ↦ let q : r.0 ≡ d = ground arith in rw q b
  | inr inside ↦ elim (Bool-cases (bi == f.current_block)) [
    | inr other ↦ let q : r.0 ≡ d = ground arith in rw q b
    | inl mine ↦
        let run : (absorb (payload_len d) fi bi f d.packets >>= λ r. try_finish rs d fi bi r.0 r.1)
            ≡ ok r =
          ground arith in
        let ((g, rest), taken, e1) =
          >>=-eq-ok (absorb (payload_len d) fi bi f d.packets) (λ r. try_finish rs d fi bi r.0 r.1)
            run in
        let (cb, lb) = absorb-Place (payload_len d) fi bi f g d.packets rest taken in
        try_finish-IsBounded rs d fi bi g rest r b (omega arith)
          (absorb-All (payload_len d) fi bi f g d.packets rest taken b.packets_bounded) e1
  ]
]
