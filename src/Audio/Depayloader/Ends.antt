-- ===== src/Audio/Depayloader/Ends.antt =====
-- `poll_frame` of src/stream/proto/audio/depayloader.rs goes round again after a packet that it cannot
-- decrypt. It ends all the same.
use moonlight_common_rust.Common.{
  ℕ, zero, suc, ◌+◌, ◌%◌, ◌^◌, ◌<◌, ◌≤◌, ◌≡◌, ◌≢◌, refl, arith, [], ◌∷◌, none, some, ◌==◌,
  Bool-cases, Option-cases, inl, inr, IsU16, out_of_fuel,
}
use moonlight_common_rust.Common.Map.{Map, get}
use moonlight_common_rust.Crypto.{CryptoBackend}
use moonlight_common_rust.Audio.Depayloader.{
  AudioDepayloader, DataPacket, poll_loop, poll_frame, decrypted, to_frame, cleanup, advance,
  retain_from, minimum_sequence_number,
}

get-retain_from-none :
    (k minimum : ℕ) (m : Map DataPacket) → get k m ≡ none → get k (retain_from minimum m) ≡ none
unfolding get retain_from
get-retain_from-none k minimum [] h = refl
get-retain_from-none k minimum ((j, v) ∷ m) h = ground (arith, get-retain_from-none k minimum m)

get-retain_from_below :
    (k minimum : ℕ) (m : Map DataPacket) → k < minimum → get k (retain_from minimum m) ≡ none
unfolding get retain_from
get-retain_from_below k minimum [] h = refl
get-retain_from_below k minimum ((j, v) ∷ m) h = ground (arith, get-retain_from_below k minimum m h)

-- The state of the next round.
next : AudioDepayloader → AudioDepayloader
next d = cleanup (advance d)

module _ (crypto : CryptoBackend) where
  -- Another round is needed only for a packet that is there.
  round-ends :
      (fuel : ℕ) (d : AudioDepayloader)
      → ((packet : DataPacket)
          → get d.current_sequence_number d.data_packets ≡ some packet
          → poll_loop crypto fuel (cleanup (advance d)) ≢ out_of_fuel)
      → poll_loop crypto (suc fuel) d ≢ out_of_fuel
  unfolding poll_loop
  round-ends fuel d k = elim (Option-cases (get d.current_sequence_number d.data_packets)) [
    | inl e ↦ rw (e, poll_loop) (λ p. cc)
    | inr (packet, e) ↦
        let rest = k packet e in
        elim (Option-cases
          (decrypted crypto d.encryption d.current_sequence_number (to_frame packet))) [
            | inl z ↦ rw (e, z, poll_loop) rest
            | inr (f, z) ↦ rw (e, z, poll_loop) (λ p. cc)
          ]
  ]

  ends_missing :
      (fuel : ℕ) (d : AudioDepayloader)
      → get d.current_sequence_number d.data_packets ≡ none
      → 0 < fuel
      → poll_loop crypto fuel d ≢ out_of_fuel
  ends_missing zero d e h = absurd (omega arith)
  ends_missing (suc fuel) d e h = round-ends fuel d (λ packet z. cc)

  -- Nothing is stored under 0: the numbers run up to the wrap-around at most.
  ends_without_zero :
      (fuel : ℕ) (d : AudioDepayloader)
      → IsU16 d.current_sequence_number
      → get 0 d.data_packets ≡ none
      → 65536 < fuel + d.current_sequence_number
      → poll_loop crypto fuel d ≢ out_of_fuel
  unfolding advance cleanup poll_loop
  ends_without_zero zero d small none0 enough = absurd (omega arith)
  ends_without_zero (suc fuel) d small none0 enough =
      let n : ℕ = d.current_sequence_number in
      let kept : get 0 (cleanup (advance d)).data_packets ≡ none =
        get-retain_from-none 0 _ d.data_packets none0 in
      round-ends fuel d (λ packet e. elim (Bool-cases (n + 1 == 65536)) [
        | inl z ↦
            let w : (n + 1) % 2 ^ 16 ≡ 0 = ground arith in
            ends_missing fuel (cleanup (advance d))
              (rw w (get-retain_from-none 0 _ d.data_packets none0)) (omega arith)
        | inr z ↦
            let w : (n + 1) % 2 ^ 16 ≡ n + 1 = ground arith in
            ends_without_zero fuel (cleanup (advance d)) (omega arith) kept (omega arith)
      ])

  -- From the first five numbers on: past them, 0 is cleaned up.
  ends_from_start :
      (fuel : ℕ) (d : AudioDepayloader)
      → d.current_sequence_number ≤ 4
      → 65536 < fuel + d.current_sequence_number
      → poll_loop crypto fuel d ≢ out_of_fuel
  unfolding advance cleanup minimum_sequence_number
  ends_from_start zero d small enough = absurd (omega arith)
  ends_from_start (suc fuel) d small enough =
      let n : ℕ = d.current_sequence_number in
      let w : (n + 1) % 2 ^ 16 ≡ n + 1 = omega arith in
      round-ends fuel d (λ packet e. elim (Bool-cases (n == 4)) [
        | inl z ↦
            let f : n ≡ 4 = ground arith in
            ends_without_zero fuel (cleanup (advance d)) (omega arith)
              (get-retain_from_below 0 _ d.data_packets (omega arith)) (omega arith)
        | inr z ↦
            let f : n < 4 = ground arith in
            ends_from_start fuel (cleanup (advance d)) (omega arith) (omega arith)
      ])

  ends_anywhere :
      (fuel : ℕ) (d : AudioDepayloader)
      → IsU16 d.current_sequence_number
      → 131072 < fuel + d.current_sequence_number
      → poll_loop crypto fuel d ≢ out_of_fuel
  unfolding advance cleanup
  ends_anywhere zero d small enough = absurd (omega arith)
  ends_anywhere (suc fuel) d small enough =
      let n : ℕ = d.current_sequence_number in
      round-ends fuel d (λ packet e. elim (Bool-cases (n + 1 == 65536)) [
        | inl z ↦
            let f : n ≡ 65535 = ground arith in
            let w : (n + 1) % 2 ^ 16 ≡ 0 = omega arith in
            ends_from_start fuel (cleanup (advance d)) (omega arith) (omega arith)
        | inr z ↦
            let f : n < 65535 = ground arith in
            let w : (n + 1) % 2 ^ 16 ≡ n + 1 = omega arith in
            ends_anywhere fuel (cleanup (advance d)) (omega arith) (omega arith)
      ])

  -- `poll_frame` ends, whatever the decryption of the stored packets does: the rounds of the model are
  -- never used up, for every state whose current sequence number is a 16-bit number.
  pub poll_frame-ends :
      (d : AudioDepayloader) → IsU16 d.current_sequence_number → poll_frame crypto d ≢ out_of_fuel
  unfolding poll_frame
  poll_frame-ends d small = ends_anywhere 131074 d small (omega arith)
