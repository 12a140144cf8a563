-- ===== src/Microphone/Sent.antt =====
-- What the microphone stream sends.
use moonlight_common_rust.Common.{
  ℕ, zero, suc, ◌+◌, ◌/◌, ◌%◌, ◌^◌, ◌*◌, div_ceil, ◌≡◌, refl, sym, ap, arith, append-nil,
  append_assoc, Option, none, some, Outcome, ok, err, ◌>>=◌, Bytes, List, [], ◌∷◌, ◌++◌, length,
  ltb, if◌then◌else◌, IsU16, IsU32, u16_from_le, u32_from_le, wrapping_add_u16, Option-cases,
  Bool-cases, ◌∙◌, inl, inr,
}
use moonlight_common_rust.Crypto.{
  CryptoBackend, SunshineEncryption, round_to_pkcs7_safe_len, round_to_pkcs7_padded_len,
}
use moonlight_common_rust.Microphone.{
  FoundationMicHeader, foundation_max_mic_packet_size, serialize_mic_header, deserialize_mic_header,
  FoundationMicPayloaderError, packet_too_large, crypto_failed, mic_header, mic_iv, mic_payload,
  push_frame, poll_packet, FoundationMicStream, Transmit, send_microphone_opus_data, poll_transmit,
}

abbrev pub HeaderFits : FoundationMicHeader → Type 0
HeaderFits h = IsU16 h.sequence_number × IsU32 h.timestamp × IsU32 h.ssrc

-- A microphone header whose numbers fit their fields is read back from the start of a packet.
pub deserialize_mic_header-serialize_mic_header :
    (h : FoundationMicHeader) (rest : Bytes)
    → HeaderFits h
    → deserialize_mic_header (serialize_mic_header h ++ rest) ≡ h
unfolding deserialize_mic_header serialize_mic_header
deserialize_mic_header-serialize_mic_header h rest (hs, ht, hc) =
    let s = h.sequence_number in
    let t = h.timestamp in
    let c = h.ssrc in
    let e0 : u16_from_le (s % 2 ^ 8) (s / 2 ^ 8 % 2 ^ 8) ≡ s = omega arith in
    let e1 : u32_from_le (t % 2 ^ 8) (t / 2 ^ 8 % 2 ^ 8) (t / 2 ^ 16 % 2 ^ 8) (t / 2 ^ 24 % 2 ^ 8)
        ≡ t =
      omega arith in
    let e2 : u32_from_le (c % 2 ^ 8) (c / 2 ^ 8 % 2 ^ 8) (c / 2 ^ 16 % 2 ^ 8) (c / 2 ^ 24 % 2 ^ 8)
        ≡ c =
      omega arith in
    rw (e0, e1, e2)

-- Frames with their timestamps, sent one after the other.
pub send_all :
    CryptoBackend
    → FoundationMicStream
    → List (ℕ × Bytes)
    → Outcome FoundationMicPayloaderError FoundationMicStream
send_all crypto s [] = ok s
send_all crypto s ((timestamp, frame) ∷ frames) =
    send_microphone_opus_data crypto s timestamp frame >>= (λ next. send_all crypto next frames)

-- What is polled in `n` calls.
pub poll_all : ℕ → FoundationMicStream → List Transmit
poll_all zero s = []
poll_all (suc n) s =
    let (next, transmit) = poll_transmit s in
    elim transmit [ none ↦ [] | some t ↦ t ∷ poll_all n next ]

prepend : Bytes → Option (List Bytes) → Option (List Bytes)
prepend packet none = none
prepend packet (some packets) = some (packet ∷ packets)

-- The twelve bytes before a frame, in little endian behind the first two: no flags, the type 0x61, the
-- sequence number, the timestamp and the magic number 0x12345678.
unfoldable header_bytes : (sequence_number timestamp : ℕ) → Bytes
header_bytes s t =
    0
    ∷ 0x61
    ∷ (s % 2 ^ 8)
    ∷ (s / 2 ^ 8 % 2 ^ 8)
    ∷ (t % 2 ^ 8)
    ∷ (t / 2 ^ 8 % 2 ^ 8)
    ∷ (t / 2 ^ 16 % 2 ^ 8)
    ∷ (t / 2 ^ 24 % 2 ^ 8)
    ∷ 0x78
    ∷ 0x56
    ∷ 0x34
    ∷ 0x12
    ∷ []

-- The big-endian sum of the encryption's number and the sequence number, with twelve zeros.
abbrev iv_bytes : (n : ℕ) → Bytes
iv_bytes n =
    (n / 2 ^ 24 % 2 ^ 8)
    ∷ (n / 2 ^ 16 % 2 ^ 8)
    ∷ (n / 2 ^ 8 % 2 ^ 8)
    ∷ (n % 2 ^ 8)
    ∷ (0 ∷ 0 ∷ 0 ∷ 0 ∷ 0 ∷ 0 ∷ 0 ∷ 0 ∷ 0 ∷ 0 ∷ 0 ∷ 0 ∷ [])

-- The frame, or its encryption in the room of its whole blocks of 16 bytes and one block more.
unfoldable sealed_frame :
    CryptoBackend → Option SunshineEncryption → (sequence_number : ℕ) (frame : Bytes) → Option Bytes
sealed_frame crypto none s frame = some frame
sealed_frame crypto (some e) s frame =
    crypto.encrypt_aes_cbc e.aes_key (iv_bytes (e.aes_iv + s)) frame
      (div_ceil (length frame) 16 * 16 + 16)

-- The packets that frames become, or none when the backend refuses a frame or a packet has more than 1400
-- bytes. The sequence numbers follow one another modulo 2^16.
unfoldable pub packets_of :
    CryptoBackend
    → Option SunshineEncryption
    → (sequence_number : ℕ) → List (ℕ × Bytes)
    → Option (List Bytes)
unfolding prepend header_bytes sealed_frame
packets_of crypto encryption s [] = some []
packets_of crypto encryption s ((timestamp, frame) ∷ frames) =
    let rest = packets_of crypto encryption ((s + 1) % 2 ^ 16) frames in
    elim (sealed_frame crypto encryption s frame) [
      | none ↦ none
      | some payload ↦
          if ltb 1400 (length (header_bytes s timestamp ++ payload))
          then none
          else prepend (header_bytes s timestamp ++ payload) rest
    ]

serialize_mic_header-header_bytes :
    (s t : ℕ) → serialize_mic_header (mic_header s t) ≡ header_bytes s t
unfolding serialize_mic_header header_bytes
serialize_mic_header-header_bytes s t =
    let e0 : t % 2 ^ 32 % 2 ^ 8 ≡ t % 2 ^ 8 = omega arith in
    let e1 : t % 2 ^ 32 / 2 ^ 8 % 2 ^ 8 ≡ t / 2 ^ 8 % 2 ^ 8 = omega arith in
    let e2 : t % 2 ^ 32 / 2 ^ 16 % 2 ^ 8 ≡ t / 2 ^ 16 % 2 ^ 8 = omega arith in
    let e3 : t % 2 ^ 32 / 2 ^ 24 % 2 ^ 8 ≡ t / 2 ^ 24 % 2 ^ 8 = omega arith in rw (e0, e1, e2, e3)

mic_iv-iv_bytes : (iv s : ℕ) → mic_iv iv s ≡ iv_bytes (iv + s)
mic_iv-iv_bytes iv s =
    let n : ℕ = iv + s in
    let e0 : n % 2 ^ 32 % 2 ^ 8 ≡ n % 2 ^ 8 = omega arith in
    let e1 : n % 2 ^ 32 / 2 ^ 8 % 2 ^ 8 ≡ n / 2 ^ 8 % 2 ^ 8 = omega arith in
    let e2 : n % 2 ^ 32 / 2 ^ 16 % 2 ^ 8 ≡ n / 2 ^ 16 % 2 ^ 8 = omega arith in
    let e3 : n % 2 ^ 32 / 2 ^ 24 % 2 ^ 8 ≡ n / 2 ^ 24 % 2 ^ 8 = omega arith in rw (e0, e1, e2, e3)

mic_payload-sealed_frame :
    (crypto : CryptoBackend) (encryption : Option SunshineEncryption) (s : ℕ) (frame : Bytes)
    → mic_payload crypto encryption s frame ≡ sealed_frame crypto encryption s frame
unfolding mic_payload sealed_frame round_to_pkcs7_safe_len round_to_pkcs7_padded_len
mic_payload-sealed_frame crypto none s frame = refl
mic_payload-sealed_frame crypto (some e) s frame =
    ap (λ iv. crypto.encrypt_aes_cbc e.aes_key iv frame (div_ceil (length frame) 16 * 16 + 16))
      (mic_iv-iv_bytes e.aes_iv s)

-- The frames are all sent and their packets stand behind those of the queue; or an error is returned.
abbrev pub Sends :
    CryptoBackend → FoundationMicStream → List (ℕ × Bytes) → Option (List Bytes) → Type 0
Sends crypto s frames none = (e : FoundationMicPayloaderError) × (send_all crypto s frames ≡ err e)
Sends crypto s frames (some packets) =
    (sent : FoundationMicStream) × (send_all crypto s frames ≡ ok sent)
    × (sent.addr ≡ s.addr)
    × (sent.payloader.packets ≡ s.payloader.packets ++ packets)

abbrev pub pushed : FoundationMicStream → Bytes → FoundationMicStream
pushed s packet = record s {
  payloader = record (s.payloader) {
    packets = s.payloader.packets ++ (packet ∷ []);
    sequence_number = wrapping_add_u16 s.payloader.sequence_number 1;
  };
}

Sends-prepend :
    (crypto : CryptoBackend) (s : FoundationMicStream) (timestamp : ℕ) (frame packet : Bytes)
    (frames : List (ℕ × Bytes)) (rest : Option (List Bytes))
    → send_microphone_opus_data crypto s timestamp frame ≡ ok (pushed s packet)
    → Sends crypto (pushed s packet) frames rest
    → Sends crypto s ((timestamp, frame) ∷ frames) (prepend packet rest)
unfolding send_all prepend
Sends-prepend crypto s timestamp frame packet frames none did (e, failed) = (e, rw (did, failed))
Sends-prepend crypto s timestamp frame packet frames (some packets) did (sent, done, same, queue) =
    (sent, rw (did, done), same, queue ∙ append_assoc s.payloader.packets (packet ∷ []) packets)

send_all-Sends :
    (crypto : CryptoBackend) (s : FoundationMicStream) (frames : List (ℕ × Bytes))
    → Sends crypto s frames
        (packets_of crypto s.payloader.encryption s.payloader.sequence_number frames)
unfolding send_all send_microphone_opus_data push_frame packets_of
send_all-Sends crypto s [] = (s, refl, refl, sym (append-nil s.payloader.packets))
send_all-Sends crypto s ((timestamp, frame) ∷ frames) =
    let p = s.payloader in
    let all = packets_of crypto p.encryption p.sequence_number ((timestamp, frame) ∷ frames) in
    let rest = packets_of crypto p.encryption (wrapping_add_u16 p.sequence_number 1) frames in
    let same = mic_payload-sealed_frame crypto p.encryption p.sequence_number frame in
    let head = serialize_mic_header-header_bytes p.sequence_number timestamp in
    elim (Option-cases (mic_payload crypto p.encryption p.sequence_number frame)) [
      | inl refused ↦
          let q : all ≡ none = rw (sym same ∙ refused, packets_of) in
          rw q (crypto_failed, rw refused)
      | inr (payload, made) ↦
          let packet = header_bytes p.sequence_number timestamp ++ payload in
          elim (Bool-cases (ltb foundation_max_mic_packet_size (length packet))) [
            | inl large ↦
                let q : all ≡ none = rw (sym same ∙ made, large, packets_of) in
                rw q (packet_too_large, rw (made, head, large))
            | inr small ↦
                let q : all ≡ prepend packet rest = rw (sym same ∙ made, small, packets_of) in
                rw q (
                  Sends-prepend crypto s timestamp frame packet frames rest (rw (made, head, small))
                    (send_all-Sends crypto (pushed s packet) frames))
          ]
    ]

abbrev pub transmits : ℕ → List Bytes → List Transmit
transmits addr [] = []
transmits addr (packet ∷ packets) =
    record { destination = addr; data_bytes = packet } ∷ transmits addr packets

poll_all-queue :
    (addr : ℕ) (encryption : Option SunshineEncryption) (sequence_number : ℕ) (packets : List Bytes)
    (more : ℕ)
    → (let s : FoundationMicStream = record {
      addr = addr;
      payloader = record {
        encryption = encryption;
        packets = packets;
        sequence_number = sequence_number;
      };
    } in
        poll_all (length packets + more) s ≡ transmits addr packets)
unfolding poll_all poll_transmit poll_packet
poll_all-queue addr encryption n [] zero = refl
poll_all-queue addr encryption n [] (suc more) =
    let e : 0 + suc more ≡ suc more = omega arith in rw e
poll_all-queue addr encryption n (packet ∷ packets) more =
    let e : suc (length packets) + more ≡ suc (length packets + more) = omega arith in
    rw e (
      ap (◌∷◌ (record { destination = addr; data_bytes = packet }))
        (poll_all-queue addr encryption n packets more))

-- With packets: all frames are sent without an error, and as many polls give these packets in order, each to
-- the stream's address, and then no more. Without: an error is returned.
abbrev pub Delivers :
    CryptoBackend
    → FoundationMicStream
    → List (ℕ × Bytes)
    → (more : ℕ) → Option (List Bytes)
    → Type 0
Delivers crypto s frames more none =
    (e : FoundationMicPayloaderError) × (send_all crypto s frames ≡ err e)
Delivers crypto s frames more (some packets) =
    (sent : FoundationMicStream) × (send_all crypto s frames ≡ ok sent)
    × (poll_all (length packets + more) sent ≡ transmits s.addr packets)

Sends-Delivers :
    (crypto : CryptoBackend) (s : FoundationMicStream) (frames : List (ℕ × Bytes)) (more : ℕ)
    (o : Option (List Bytes))
    → s.payloader.packets ≡ []
    → Sends crypto s frames o
    → Delivers crypto s frames more o
Sends-Delivers crypto s frames more none empty failed = failed
Sends-Delivers crypto s frames more (some packets) empty (sent, done, same, queue) =
    let all : sent.payloader.packets ≡ packets = queue ∙ ap (λ q. q ++ packets) empty in
    (
      sent,
      done,
      rw (sym same, sym all)
          (poll_all-queue sent.addr sent.payloader.encryption sent.payloader.sequence_number
            sent.payloader.packets more),
    )

-- From a stream whose queue is empty, under any backend and with encryption or without: if the frames
-- become packets, then all are sent without an error, and as many polls give these packets in order, each
-- to the stream's address, and then no more; if not, an error is returned. The packets are given byte by byte: the
-- header with the sequence numbers in order, modulo 2^16, and behind it the frame, or what the backend makes of it under an IV
-- that is the sum of the encryption's and the sequence number. Frames do not become packets when the
-- backend refuses one, or one has more than 1400 bytes with its header.
pub send_all-poll_all :
    (crypto : CryptoBackend) (s : FoundationMicStream) (frames : List (ℕ × Bytes)) (more : ℕ)
    → s.payloader.packets ≡ []
    → Delivers crypto s frames more
        (packets_of crypto s.payloader.encryption s.payloader.sequence_number frames)
send_all-poll_all crypto s frames more empty =
    Sends-Delivers crypto s frames more
      (packets_of crypto s.payloader.encryption s.payloader.sequence_number frames) empty
      (send_all-Sends crypto s frames)
