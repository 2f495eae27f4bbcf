-- ===== src/Tests/Formats.antt =====
-- The wire formats, the stored session and the record on concrete values.
use libsignal_node.Common.{
  ℕ, zero, suc, lookup, string_eq, Bool, true, false, Option-cases, inl, inr, ◌≡◌, ◌≢◌, refl, arith,
  [], ◌∷◌, none, some, replicate, pos, ok, Dict, String,
}
use libsignal_node.Platform.Sample.{sample, sample_laws}
use libsignal_node.Wire.Whisper.{
  WhisperMessage, PreKeyWhisperMessage, encode_whisper, decode_whisper, encode_pre_key_whisper,
  decode_pre_key_whisper,
}
use libsignal_node.Wire.Whisper.RoundTrip.{
  decode_whisper-encode_whisper, decode_pre_key_whisper-encode_pre_key_whisper,
}
use libsignal_node.Wire.Group.{SenderKeyMessageProto, SenderKeyDistributionMessageProto}
use libsignal_node.Session.Entry.{SessionEntry}
use libsignal_node.Session.Record.{
  SessionRecord, remove_old_sessions, remove_stale_sessions, is_closed,
}
use libsignal_node.Session.Record.Limits.{
  open_sessions, UniqueKeys, Cleaned, remove_old_sessions_lem,
}
use libsignal_node.Session.Record.Stale.{Remains, remove_stale_sessions-Remains}
use libsignal_node.Session.Serial.{serialize_entry, deserialize_entry}
use libsignal_node.Session.Serial.RoundTrip.{deserialize_entry-serialize_entry}
use libsignal_node.Tests.Fixtures.{sender, receiver}

abbrev whisper : WhisperMessage
whisper = record {
  ephemeral_key = some (5 ∷ replicate 32 3);
  counter = some 12;
  previous_counter = none;
  ciphertext = some (1 ∷ 2 ∷ []);
}

decode_whisper-encode_whisper_example :
    decode_whisper sample (encode_whisper sample whisper) ≡ ok whisper
decode_whisper-encode_whisper_example =
    decode_whisper-encode_whisper sample sample_laws whisper (omega arith) tt

abbrev pre_key_whisper : PreKeyWhisperMessage
pre_key_whisper = record {
  registration_id = some 77;
  pre_key_id = none;
  signed_pre_key_id = some 4;
  base_key = some (5 ∷ replicate 32 3);
  identity_key = some (5 ∷ replicate 32 1);
  message = some (51 ∷ 9 ∷ []);
}

decode_pre_key_whisper-encode_pre_key_whisper_example :
    decode_pre_key_whisper sample (encode_pre_key_whisper sample pre_key_whisper)
    ≡ ok pre_key_whisper
decode_pre_key_whisper-encode_pre_key_whisper_example =
    decode_pre_key_whisper-encode_pre_key_whisper sample sample_laws pre_key_whisper (omega arith)
      tt (omega arith)

abbrev group_message : SenderKeyMessageProto
group_message = record { id = 9; iteration = 3; ciphertext = 8 ∷ 7 ∷ [] }

abbrev distribution : SenderKeyDistributionMessageProto
distribution = record { id = 9; iteration = 0; chain_key = replicate 32 6; signing_key = [] }

has_text : sample.to_base64 (replicate 32 7) ≢ ""
has_text h = cc

deserialize_entry-serialize_entry_example :
    deserialize_entry sample (serialize_entry sample receiver) ≡ ok receiver
deserialize_entry-serialize_entry_example =
    deserialize_entry-serialize_entry sample sample_laws receiver (has_text, tt)

-- `n` closed sessions, the last one closed first.
abbrev closed_sessions : ℕ → Dict String SessionEntry
closed_sessions zero = []
closed_sessions (suc n) =
    (
      sample.to_base64 (n ∷ []),
      record sender { index_info = record sender.index_info { closed = pos n; used = n } },
    )
    ∷ closed_sessions n

abbrev crowded : SessionRecord
crowded = record { sessions = ("b", receiver) ∷ closed_sessions 42 }

abbrev test_unique : Dict String SessionEntry → Bool
test_unique [] = true
test_unique ((k, s) ∷ d) = elim (lookup k d) [ none ↦ test_unique d | some _ ↦ false ]

test_unique-UniqueKeys : (d : Dict String SessionEntry) → test_unique d ≡ true → UniqueKeys d
test_unique-UniqueKeys [] h = tt
test_unique-UniqueKeys ((k, s) ∷ d) h = elim (Option-cases (lookup k d)) [
  | inl fresh ↦ (fresh, test_unique-UniqueKeys d (rw (fresh, test_unique) at h))
  | inr (t, e) ↦ cc (rw (e, test_unique) at h)
]

crowded-UniqueKeys : UniqueKeys crowded.sessions
unfolding lookup
crowded-UniqueKeys = test_unique-UniqueKeys crowded.sessions refl

remove_old_sessions_lem_example :
    (r' : SessionRecord) × (remove_old_sessions crowded ≡ ok r')
    × Cleaned crowded.sessions r'.sessions
unfolding is_closed lookup
remove_old_sessions_lem_example =
    remove_old_sessions_lem crowded crowded-UniqueKeys (omega arith) refl

remove_stale_sessions-Remains_example :
    Remains 60 25
      (lookup (sample.to_base64 (20 ∷ [])) crowded.sessions)
      (lookup (sample.to_base64 (20 ∷ [])) (remove_stale_sessions 60 25 crowded).sessions)
    × (open_sessions (remove_stale_sessions 60 25 crowded).sessions
        ≡ open_sessions crowded.sessions)
remove_stale_sessions-Remains_example =
    remove_stale_sessions-Remains 60 25 crowded (sample.to_base64 (20 ∷ [])) crowded-UniqueKeys
