-- ===== src/Session/Message/Sealing.antt =====
-- The bytes that `encrypt` puts on the wire, and what `doDecryptWhisperMessage` reads in them.
use libsignal_node.Common.{
  ℕ, suc, ◌*◌, ◌^◌, ◌≤◌, ◌<◌, ◌≡◌, refl, arith, Bytes, ◌∷◌, ◌++◌, some, true, length, take,
  length-append, length-take, ◌==◌, nat_eq, bytes_eq, bytes_beq_iff, ℤ, pos, negsuc, ok,
}
use libsignal_node.Platform.{Platform, PlatformLaws}
use libsignal_node.Crypto.{alloc, ascii, encrypt, decrypt, calculate_mac, verify_mac}
use libsignal_node.Crypto.Hkdf.{derive_secrets-hkdf, block1, block2, block3}
use libsignal_node.Wire.Reader.{bytes_field}
use libsignal_node.Wire.Whisper.{WhisperMessage, encode_whisper, decode_whisper}
use libsignal_node.Wire.Whisper.RoundTrip.{decode_whisper-encode_whisper}
use libsignal_node.Session.Message.{seal, unseal, mac_input, to_uint32, encode_tuple_byte}

pub to_uint32-lt : (n : ℤ) → to_uint32 n < 2 ^ 32
unfolding to_uint32
to_uint32-lt (pos n) = omega arith
to_uint32-lt (negsuc n) = omega arith

module _ (p : Platform) (laws : PlatformLaws p) where
  encode_whisper-pos :
      (m : WhisperMessage) (b : Bytes) → m.ephemeral_key ≡ some b → 1 ≤ length (encode_whisper p m)
  unfolding encode_whisper bytes_field
  encode_whisper-pos m b e =
      rw (e, bytes_field)
        (omega (
          arith,
          laws.write_uint32-pos 10,
          length-append (p.write_uint32 10) (p.write_bytes b),
          length-append (p.write_uint32 10 ++ p.write_bytes b) _,
        ))

  length-calculate_mac : (key text : Bytes) → length (calculate_mac p key text) ≡ 32
  unfolding calculate_mac
  length-calculate_mac key text = laws.length-hmac key text

  verify_mac-take :
      (text key : Bytes) → verify_mac p text key (take 8 (calculate_mac p key text)) 8 ≡ ok tt
  unfolding verify_mac calculate_mac
  verify_mac-take text key =
      let mac : Bytes = take 8 (calculate_mac p key text) in
      let size : (length mac == 8) ≡ true =
        ground (arith, length-take 8 (p.hmac_sha256 key text), laws.length-hmac key text) in
      rw (size, (bytes_beq_iff mac mac).1 refl)

  -- What is on the wire for a message, and how the receiver opens it.
  pub record Sealed (text key ours theirs ephemeral bytes : Bytes) (counter previous : ℤ)
      : Type 0 where
    pub message : Bytes
    pub mac : Bytes
    pub ciphertext : Bytes
    pub blocks : ℕ
    pub wire : bytes ≡ 51 ∷ (message ++ mac)
    pub mac_size : length mac ≡ 8
    pub message_size : 1 ≤ length message
    pub ciphertext_size : length ciphertext ≡ 16 * suc blocks
    pub decodes :
        decode_whisper p message
        ≡ ok (record {
          ephemeral_key = some ephemeral;
          counter = some (to_uint32 counter);
          previous_counter = some (to_uint32 previous);
          ciphertext = some ciphertext;
        })
    pub opens : unseal p key theirs ours message mac ciphertext ≡ ok text

  pub seal-Sealed :
      (key ours theirs ephemeral text : Bytes) (counter previous : ℤ)
      → (bytes : Bytes) × (seal p key ours theirs ephemeral counter previous text ≡ ok bytes)
        × Sealed text key ours theirs ephemeral bytes counter previous
  unfolding seal encrypt encode_tuple_byte
  seal-Sealed key ours theirs ephemeral text counter previous =
      let prk : Bytes = calculate_mac p (alloc 32) key in
      let info : Bytes = ascii "WhisperMessageKeys" in
      let (three, _, _, size1, _, size3) = derive_secrets-hkdf p laws key (alloc 32) info refl in
      let k1 : Bytes = block1 p prk info in
      let k2 : Bytes = block2 p prk info in
      let iv : Bytes = take 16 (block3 p prk info) in
      let iv_size : length iv ≡ 16 = omega (arith, length-take 16 (block3 p prk info)) in
      let (c, encrypts, decrypts, blocks, size) = laws.aes_round_trip k1 text iv size1 iv_size in
      let m : WhisperMessage = record {
        ephemeral_key = some ephemeral;
        counter = some (to_uint32 counter);
        previous_counter = some (to_uint32 previous);
        ciphertext = some c;
      } in
      let msg : Bytes = encode_whisper p m in
      let mac : Bytes = take 8 (calculate_mac p k2 (mac_input ours theirs 51 msg)) in
      (
        51 ∷ (msg ++ mac),
        rw (three, encrypts) refl,
        record {
          message = msg;
          mac = mac;
          ciphertext = c;
          blocks = blocks;
          wire = refl;
          mac_size = omega (
            arith,
            length-take 8 (calculate_mac p k2 (mac_input ours theirs 51 msg)),
            length-calculate_mac k2 (mac_input ours theirs 51 msg),
          );
          message_size = encode_whisper-pos m ephemeral refl;
          ciphertext_size = size;
          decodes =
              decode_whisper-encode_whisper p laws m (to_uint32-lt counter) (to_uint32-lt previous);
          opens =
              unfold unseal decrypt in
              rw (three, verify_mac-take (mac_input ours theirs 51 msg) k2) decrypts;
        },
      )
