-- ===== src/Group/Cipher/Sealing.antt =====
-- A group message on the wire: what the sender signs, the receiver reads and accepts.
use libsignal_node.Common.{
  ℕ, suc, ◌+◌, ◌-◌, ◌^◌, ◌<◌, ◌≡◌, refl, sym, ap, ◌∙◌, arith, Bytes, ◌∷◌, ◌++◌, true, length, take,
  drop, ltb, ◌==◌, nat_eq, ok, take-append, drop-append, length-append,
}
use libsignal_node.Platform.{Platform, PlatformLaws}
use libsignal_node.Curve.{
  calculate_signature, verify_signature, scrub_pub_key_format, validate_priv_key,
}
use libsignal_node.Wire.Group.{encode_sender_key_message, decode_sender_key_message}
use libsignal_node.Wire.Group.RoundTrip.{decode_sender_key_message-encode_sender_key_message}
use libsignal_node.Group.Message.{
  SenderKeyMessage, parse_sender_key_message, new_sender_key_message, check_signature, version_byte,
}

module _ (p : Platform) (laws : PlatformLaws p) (id iteration : ℕ) (ciphertext priv : Bytes)
    (id_fits : id < 2 ^ 32) (fits : iteration < 2 ^ 32) (priv_size : length priv ≡ 32) where
  pub message : Bytes
  message =
      encode_sender_key_message p
        (record { id = id; iteration = iteration; ciphertext = ciphertext })

  pub signature : Bytes
  signature = p.sign priv (version_byte ∷ message)

  unfoldable pub wire : Bytes
  wire = version_byte ∷ (message ++ signature)

  unfoldable pub sent : SenderKeyMessage
  sent = record {
    message_version = 3;
    key_id = id;
    iteration = iteration;
    ciphertext = ciphertext;
    signature = signature;
    serialized = wire;
  }

  pub new_sender_key_message-ok : new_sender_key_message p id iteration ciphertext priv ≡ ok sent
  unfolding new_sender_key_message calculate_signature validate_priv_key sent wire signature message
  new_sender_key_message-ok = let whole : (length priv == 32) ≡ true = ground arith in rw whole refl

  signature_size : length signature ≡ 64
  unfolding signature
  signature_size = laws.length-sign priv (version_byte ∷ message)

  pub parse_sender_key_message-ok : parse_sender_key_message p wire ≡ ok sent
  unfolding parse_sender_key_message wire sent
  parse_sender_key_message-ok =
      let total : length (message ++ signature) ≡ length message + 64 =
        length-append message signature ∙ ap (λ n. length message + n) signature_size in
      let long : ltb 64 (length (message ++ signature) + 1) ≡ true = ground (arith, total) in
      let body : take (length (message ++ signature) + 1 - 64 - 1) (message ++ signature)
          ≡ message =
        take-append (length (message ++ signature) + 1 - 64 - 1) message signature
          (omega (arith, total)) in
      let tail : drop (length (message ++ signature) + 1 - 64)
            (version_byte ∷ (message ++ signature))
          ≡ signature =
        drop-append (length (message ++ signature) + 1 - 64) (version_byte ∷ message) signature
          (omega (arith, total)) in
      let reads : decode_sender_key_message p message
          ≡ ok (record { id = id; iteration = iteration; ciphertext = ciphertext }) =
        unfold message in
        decode_sender_key_message-encode_sender_key_message p laws
          (record { id = id; iteration = iteration; ciphertext = ciphertext }) id_fits fits in
      rw (long, body, reads, tail) refl

  pub check_signature-ok : check_signature p (5 ∷ p.public_of priv) sent ≡ ok tt
  unfolding check_signature verify_signature scrub_pub_key_format sent wire
  check_signature-ok =
      let key_size : length (p.public_of priv) ≡ 32 = laws.length-public_of priv in
      let long : (suc (length (p.public_of priv)) == 33) ≡ true = ground (arith, key_size) in
      let exact : (length (p.public_of priv) == 32) ≡ true = ground (arith, key_size) in
      let total : length (version_byte ∷ (message ++ signature)) ≡ suc (length message) + 64 =
        omega (arith, length-append message signature, signature_size) in
      let cut : length (version_byte ∷ (message ++ signature)) - 64 ≡ suc (length message) =
        omega (arith, total) in
      let head : take (length (version_byte ∷ (message ++ signature)) - 64) wire
          ≡ version_byte ∷ message =
        unfold wire in
        take-append (length (version_byte ∷ (message ++ signature)) - 64) (version_byte ∷ message)
          signature (sym cut) in
      let tail : drop (length (version_byte ∷ (message ++ signature)) - 64) wire ≡ signature =
        unfold wire in
        drop-append (length (version_byte ∷ (message ++ signature)) - 64) (version_byte ∷ message)
          signature (sym cut) in
      let size : (length signature == 64) ≡ true = ground (arith, signature_size) in
      let good : p.verify (p.public_of priv) (version_byte ∷ message) signature ≡ true =
        unfold signature in laws.verify-sign priv (version_byte ∷ message) in
      rw (long, exact, tail, size, head, good) refl
