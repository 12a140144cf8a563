-- ===== src/Control/Examples.antt =====
-- The theorems on src/stream/proto/control at concrete packets.
use moonlight_common_rust.Common.{
  ℕ, ◌+◌, ◌≤◌, ◌≡◌, refl, arith, true, [], ◌∷◌, ◌++◌, some, Bytes, ok, err, panic, length,
  replicate, take, IsU16, length-replicate,
}
use moonlight_common_rust.Common.Int.{pos, negsuc}
use moonlight_common_rust.Version.{ServerVersion, version, at_least, cmp}
use moonlight_common_rust.Version
use moonlight_common_rust.Crypto.{AesGcmBackend, IsAesGcm}
use moonlight_common_rust.Control.Config.{
  periodic_ping, hdr_mode, new, gen7_encrypted, direction, serialize_ty, deserialize_ty,
  client_bound, is_some_of,
}
use moonlight_common_rust.Control.Config.Types.{deserialize_ty-serialize_ty}
use moonlight_common_rust.Control.Packet.{ControlPacket, keyboard, ty, controller_arrival, set_led}
use moonlight_common_rust.Control.Packet.Serialize.{serialize}
use moonlight_common_rust.Control.Packet.Deserialize.{deserialize}
use moonlight_common_rust.Control.Packet.Deserialize.Fields.{found}
use moonlight_common_rust.Control.Packet.RoundTrip.{deserialize-serialize}
use moonlight_common_rust.Control.Packet.RoundTrip.Ranges.{Fits}
use moonlight_common_rust.Control.Packet.Size.{max_size, length-serialize}
use moonlight_common_rust.Control.Packet.Panics.{deserialize-one_short}
use moonlight_common_rust.Control.Encryption.{
  ControlEncryptionError, sunshine, generate_iv, encrypt_control_packet_into,
  decrypt_control_packet_into, decrypt_payload, payload_size, deserialize_header,
  encrypt_clientbound_control_packet_into, decrypt_clientbound_control_packet_into,
  encrypt_serverbound_control_packet_into, decrypt_serverbound_control_packet_into, header_size,
}
use moonlight_common_rust.Control.Encryption.RoundTrip.{ComesBack, decrypt-encrypt}
use moonlight_common_rust.Control.Encryption.Opened.{IsSealed, decrypt-opened, decrypt-encrypt_long}
use moonlight_common_rust.Control.Encryption.Nonces.{generate_iv-injective}

abbrev server : ServerVersion
server = version 7 1 431

deserialize_ty-serialize_ty_example :
    (deserialize_ty (direction periodic_ping) (gen7_encrypted server) 0x0200 ≡ some periodic_ping)
    × IsU16 0x0200
unfolding new serialize_ty at_least cmp
deserialize_ty-serialize_ty_example =
    deserialize_ty-serialize_ty server true (gen7_encrypted server) refl periodic_ping 0x0200 refl

abbrev key_press : ControlPacket
key_press = keyboard true 0 0x8041 1 0

abbrev key_press_bytes : Bytes
key_press_bytes = 6 ∷ 2 ∷ 14 ∷ 0 ∷ 0 ∷ 0 ∷ 0 ∷ 10 ∷ 3 ∷ 0 ∷ 0 ∷ 0 ∷ 0 ∷ 0x41 ∷ 0x80 ∷ 1 ∷ 0 ∷ 0 ∷ []

deserialize-serialize_example :
    deserialize (direction (ty key_press)) (gen7_encrypted server) key_press_bytes ≡ found key_press
unfolding new serialize Fits
deserialize-serialize_example =
    deserialize-serialize server true (gen7_encrypted server) refl key_press key_press_bytes
      (omega arith, omega arith) refl

-- An HDR packet of a host that says two bytes and has one.
deserialize-one_short_example :
    deserialize client_bound (gen7_encrypted server) (0x0e ∷ 1 ∷ 2 ∷ 0 ∷ 1 ∷ []) ≡ panic
unfolding deserialize_ty is_some_of
deserialize-one_short_example =
    deserialize-one_short client_bound (gen7_encrypted server) (0x0e ∷ 1 ∷ 2 ∷ 0 ∷ 1 ∷ []) hdr_mode
      refl (omega arith) (omega arith)

-- A backend that leaves the bytes as they are, with a tag of zeros.
abbrev pub plain_backend : AesGcmBackend
plain_backend = record {
  encrypt_aes_gcm = λ key iv input room. some (input, replicate 16 0);
  decrypt_aes_gcm = λ key iv input tag room. some input;
}

pub plain_backend-IsAesGcm : IsAesGcm plain_backend
plain_backend-IsAesGcm =
    λ key iv input room fits. (input, replicate 16 0, refl, refl, refl, λ place wide. refl)

abbrev ping_packet : Bytes
ping_packet = 0 ∷ 2 ∷ 4 ∷ 0 ∷ 0 ∷ 0 ∷ 0 ∷ 0 ∷ []

decrypt-encrypt_example :
    ComesBack
      (encrypt_clientbound_control_packet_into plain_backend sunshine [] 7)
      (decrypt_clientbound_control_packet_into plain_backend sunshine [])
      ping_packet
      (replicate 40 0)
      (replicate 9 0)
    × ComesBack
        (encrypt_serverbound_control_packet_into plain_backend sunshine [] 7)
        (decrypt_serverbound_control_packet_into plain_backend sunshine [])
        ping_packet
        (replicate 40 0)
        (replicate 9 0)
decrypt-encrypt_example =
    decrypt-encrypt plain_backend sunshine [] 7 ping_packet (replicate 40 0) (replicate 9 0)
      plain_backend-IsAesGcm (omega arith) (omega arith) (omega arith) (omega arith)

-- A header for one byte, and the byte.
abbrev sealed : Bytes
sealed = 1 ∷ 0 ∷ 21 ∷ 0 ∷ 7 ∷ 0 ∷ 0 ∷ 0 ∷ (replicate 16 0 ++ (5 ∷ []))

decrypt-opened_example : IsSealed plain_backend [] (generate_iv sunshine true) sealed [] 1 (5 ∷ [])
unfolding decrypt_control_packet_into decrypt_payload payload_size deserialize_header
decrypt-opened_example =
    decrypt-opened plain_backend [] (generate_iv sunshine true) sealed [] 1 (5 ∷ []) (ground arith)
      refl

generate_iv-injective_example : (true ≡ true) × (◌≡◌ {A = ℕ} 300 300)
generate_iv-injective_example =
    generate_iv-injective true true 300 300 (omega arith) (omega arith) refl

-- More bytes than the header's length has bits for.
abbrev long_packet : Bytes
long_packet = replicate 65516 0

decrypt-encrypt_long_example :
    (written : Bytes) × (error : ControlEncryptionError) × (encrypt_control_packet_into
        plain_backend [] 7
        (generate_iv sunshine true 7)
        long_packet
        (replicate 65540 0)
      ≡ ok (header_size + length long_packet, written))
    × (decrypt_control_packet_into plain_backend []
          (generate_iv sunshine true)
          (take (header_size + length long_packet) written)
          []
        ≡ err error)
decrypt-encrypt_long_example =
    decrypt-encrypt_long plain_backend [] 7 (generate_iv sunshine true) long_packet
      (replicate 65540 0) [] plain_backend-IsAesGcm (omega arith)
      (omega (arith, length-replicate {A = ℕ} 65516 0))
      (omega (arith, length-replicate {A = ℕ} 65516 0, length-replicate {A = ℕ} 65540 0))

length-serialize_example : length key_press_bytes ≤ max_size
unfolding serialize Fits
length-serialize_example =
    length-serialize (gen7_encrypted server) key_press key_press_bytes (omega arith, omega arith)
      refl

-- A server with a negative last number is Sunshine.
abbrev sunshine_server : ServerVersion
sunshine_server = Version.new (pos 7) (pos 1) (pos 431) (negsuc 0)

abbrev arrival : ControlPacket
arrival = controller_arrival 3 1 0 0

abbrev led : ControlPacket
led = set_led 3 255 0 0
