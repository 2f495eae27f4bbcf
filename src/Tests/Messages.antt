-- ===== src/Tests/Messages.antt =====
-- Encrypting and decrypting on one chain.
use libsignal_node.Common.{
  ◌≡◌, arith, Bytes, [], ◌∷◌, ok, err, pos, message_counter_error, ◌+ℤ◌, pos_part, ◌<◌, ◌^◌,
}
use libsignal_node.Platform.Sample.{sample, sample_laws}
use libsignal_node.Session.Entry.{SessionEntry}
use libsignal_node.Session.Message.{encrypt_message, do_decrypt_whisper_message}
use libsignal_node.Session.Message.RoundTrip.{decrypt-encrypt}
use libsignal_node.Session.Message.Replay.{do_decrypt_whisper_message-replay}
use libsignal_node.Tests.Fixtures.{pair, alice, bob, sender, receiver, in_sync}

abbrev hello : Bytes
hello = 104 ∷ 105 ∷ []

counter_fits : pos_part (in_sync.sending.chain_key.counter +ℤ pos 1) < 2 ^ 32
unfolding ◌+ℤ◌ in_sync
counter_fits = omega arith

decrypt-encrypt_example :
    (bytes : Bytes) × (s' : SessionEntry) × (r' : SessionEntry) × (encrypt_message sample
        alice.pub_key hello sender
      ≡ ok (bytes, s'))
    × (do_decrypt_whisper_message sample (pair 5) bob.pub_key bytes receiver ≡ ok (hello, r'))
decrypt-encrypt_example =
    decrypt-encrypt sample sample_laws alice.pub_key bob.pub_key hello 1 (pair 5) sender receiver
      in_sync (omega arith) counter_fits

-- One message on its way: its bytes and the receiver's session once it has been read.
delivered :
    (bytes : Bytes) × (s' : SessionEntry) × (r' : SessionEntry) × (encrypt_message sample
        alice.pub_key hello sender
      ≡ ok (bytes, s'))
    × (do_decrypt_whisper_message sample (pair 5) bob.pub_key bytes receiver ≡ ok (hello, r'))
delivered =
    decrypt-encrypt sample sample_laws alice.pub_key bob.pub_key hello 1 (pair 5) sender receiver
      in_sync (omega arith) counter_fits

do_decrypt_whisper_message-replay_example :
    do_decrypt_whisper_message sample (pair 6) bob.pub_key delivered.0 delivered.2
    ≡ err (message_counter_error "Key used already or never filled")
do_decrypt_whisper_message-replay_example =
    do_decrypt_whisper_message-replay sample (pair 5) (pair 6) bob.pub_key delivered.0 hello
      receiver delivered.2 delivered.4
