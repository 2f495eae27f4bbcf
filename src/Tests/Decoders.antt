-- ===== src/Tests/Decoders.antt =====
-- The decoders on bytes that are no message, with the sample reader.
use libsignal_node.Common.{
  err, ◌≢◌, ℕ, ◌+◌, ◌≤◌, ◌<◌, ◌≡◌, arith, Bytes, [], ◌∷◌, length, drop, length-drop, ok,
}
use libsignal_node.Platform.Sample.{sample}
use libsignal_node.Wire.Reader.{read_fields, out_of_fuel}
use libsignal_node.Wire.Whisper.{
  whisper_field, decode_whisper, pre_key_whisper_field, decode_pre_key_whisper, empty_whisper,
  empty_pre_key_whisper,
}
use libsignal_node.Wire.Termination.{ReaderAdvances, decode-enough}

drop-le : (n : ℕ) (b : Bytes) → length (drop n b) ≤ length b
drop-le n b = omega (arith, length-drop n b)

number_lt : (b rest : Bytes) (n : ℕ) → sample.read_uint32 b ≡ ok (n, rest) → length rest < length b
number_lt [] rest n e = absurd cc
number_lt (x ∷ b) rest n e = let same : b ≡ rest = cc in rw (← same) (omega arith)

text_lt : (b rest c : Bytes) → sample.read_bytes b ≡ ok (c, rest) → length rest < length b
text_lt [] rest c e = absurd cc
text_lt (x ∷ b) rest c e =
    let same : drop x b ≡ rest = cc in rw (← same) (omega (arith, drop-le x b))

skipped_le : (t : ℕ) (b rest : Bytes) → sample.skip_type t b ≡ ok rest → length rest ≤ length b
skipped_le t b rest e = let same : drop 1 b ≡ rest = cc in rw (← same) (drop-le 1 b)

number_err : (b : Bytes) → sample.read_uint32 b ≢ err out_of_fuel
number_err [] e = cc
number_err (x ∷ b) e = cc

text_err : (b : Bytes) → sample.read_bytes b ≢ err out_of_fuel
text_err [] e = cc
text_err (x ∷ b) e = cc

skipped_err : (t : ℕ) (b : Bytes) → sample.skip_type t b ≢ err out_of_fuel
skipped_err t b e = cc

advances : ReaderAdvances sample
advances = record {
  uint32-lt = number_lt;
  bytes-lt = text_lt;
  uint32-err = number_err;
  bytes-err = text_err;
  skip-err = skipped_err;
  skip-le = skipped_le;
}

abbrev noise : Bytes
noise = 8 ∷ 3 ∷ 250 ∷ 1 ∷ 0 ∷ []

decode-enough_example :
    (decode_whisper sample noise ≢ err out_of_fuel)
    × (decode_pre_key_whisper sample noise ≢ err out_of_fuel)
    × (read_fields sample (whisper_field sample) (length noise + 3) empty_whisper noise
        ≡ decode_whisper sample noise)
    × (read_fields sample
          (pre_key_whisper_field sample)
          (length noise + 3)
          empty_pre_key_whisper
          noise
        ≡ decode_pre_key_whisper sample noise)
decode-enough_example = decode-enough sample advances noise 3
