-- ===== src/Fingerprint/Symmetric.antt =====
-- Both sides of a conversation compute one fingerprint.
use libsignal_node.Common.{
  ℕ, ◌≡◌, refl, sym, ◌∙◌, arith, Bytes, [], ◌∷◌, ◌++◌, true, false, Bool-cases, inl, inr, String,
}
use libsignal_node.Platform.{Platform}
use libsignal_node.Fingerprint.{text_lt, sort_join, create_for, get_display_string_for}

text_lt-asymmetric : (a b : Bytes) → text_lt a b ≡ true → text_lt b a ≡ false
unfolding text_lt
text_lt-asymmetric a [] h = absurd (ground arith)
text_lt-asymmetric [] (y ∷ b) h = refl
text_lt-asymmetric (x ∷ a) (y ∷ b) h = ground (arith, text_lt-asymmetric a b)

text_lt-total : (a b : Bytes) → text_lt a b ≡ false → text_lt b a ≡ false → a ≡ b
unfolding text_lt
text_lt-total [] [] h k = refl
text_lt-total [] (y ∷ b) h k = absurd (ground arith)
text_lt-total (x ∷ a) [] h k = absurd (ground arith)
text_lt-total (x ∷ a) (y ∷ b) h k = grind (arith, text_lt-total a b)

sort_join_lt : (a b : Bytes) → text_lt b a ≡ true → sort_join a b ≡ b ++ a
unfolding sort_join
sort_join_lt a b h = rw h refl

sort_join_ge : (a b : Bytes) → text_lt b a ≡ false → sort_join a b ≡ a ++ b
unfolding sort_join
sort_join_ge a b h = rw h refl

sort_join-symmetric : (a b : Bytes) → sort_join a b ≡ sort_join b a
sort_join-symmetric a b = elim (Bool-cases (text_lt a b)) [
  | inl less ↦ sort_join_ge a b (text_lt-asymmetric a b less) ∙ sym (sort_join_lt b a less)
  | inr more ↦ elim (Bool-cases (text_lt b a)) [
    | inl less ↦ sort_join_lt a b less ∙ sym (sort_join_ge b a more)
    | inr equal ↦ let same = text_lt-total a b more equal in rw same refl
  ]
]

-- The fingerprint that one side computes of itself and its peer is the one that the peer computes: exchanging
-- the two identifiers with their keys changes nothing, whatever they are.
pub create_for-symmetric :
    (p : Platform) (utf8 : String → Bytes) (iterations : ℕ) (alice bob : String)
    (alice_key bob_key : Bytes)
    → create_for p utf8 iterations alice alice_key bob bob_key
      ≡ create_for p utf8 iterations bob bob_key alice alice_key
unfolding create_for
create_for-symmetric p utf8 iterations alice bob alice_key bob_key =
    sort_join-symmetric (get_display_string_for p utf8 alice alice_key iterations)
      (get_display_string_for p utf8 bob bob_key iterations)
