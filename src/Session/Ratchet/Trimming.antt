-- ===== src/Session/Ratchet/Trimming.antt =====
-- `removeOldReceiverChains` keeps the chains that a ratchet step has just added.
use libsignal_node.Common.{
  ℕ, zero, suc, ◌-◌, ◌≤◌, ◌≡◌, refl, ap, ◌∙◌, arith, List, [], ◌∷◌, ◌++◌, none, some, true, false,
  String, Dict, lookup, delete, lookup-delete, lookup-append_last, ==-lookup, length, take,
  length-append, ◌==◌, string_eq,
}
use mathlib.Core.List.{append-nil}
use libsignal_node.Session.Entry.{Chain, is_receiving, receiving_ids, delete_all}

abbrev NotIn : String → List String → Type 0
NotIn k [] = Unit {0}
NotIn k (i ∷ ids) = ((i == k) ≡ false) × NotIn k ids

receiving_ids-append :
    (d d' : Dict String Chain) → receiving_ids (d ++ d') ≡ receiving_ids d ++ receiving_ids d'
unfolding receiving_ids
receiving_ids-append [] d' = refl
receiving_ids-append ((i, c) ∷ d) d' = ground (arith, receiving_ids-append d d')

receiving_ids-absent :
    (k : String) (d : Dict String Chain) → lookup k d ≡ none → NotIn k (receiving_ids d)
unfolding receiving_ids lookup
receiving_ids-absent k [] h = tt
receiving_ids-absent k ((i, c) ∷ d) h = ground (arith, receiving_ids-absent k d)

NotIn-take : (k : String) (n : ℕ) (ids : List String) → NotIn k ids → NotIn k (take n ids)
NotIn-take k zero ids h = tt
NotIn-take k (suc n) [] h = tt
NotIn-take k (suc n) (i ∷ ids) h = (h.0, NotIn-take k n ids h.1)

NotIn-take_append :
    (k : String) (n : ℕ) (xs ys : List String)
    → NotIn k xs
    → n ≤ length xs
    → NotIn k (take n (xs ++ ys))
NotIn-take_append k zero xs ys h le = tt
NotIn-take_append k (suc n) [] ys h le = absurd (omega arith)
NotIn-take_append k (suc n) (i ∷ xs) ys h le = (h.0, NotIn-take_append k n xs ys h.1 (omega arith))

lookup-delete_all :
    (k : String) (ids : List String) (d : Dict String Chain)
    → NotIn k ids
    → lookup k (delete_all ids d) ≡ lookup k d
unfolding delete_all
lookup-delete_all k [] d h = refl
lookup-delete_all k (i ∷ ids) d h =
    rw (lookup-delete_all k ids (delete i d) h.1) (ground (arith, lookup-delete i k d))

delete_all-absent :
    (k : String) (ids : List String) (d : Dict String Chain)
    → lookup k d ≡ none
    → lookup k (delete_all ids d) ≡ none
unfolding delete_all
delete_all-absent k [] d h = h
delete_all-absent k (i ∷ ids) d h =
    delete_all-absent k ids (delete i d) (ground (arith, lookup-delete i k d))

-- The chains of a session once the old receiving ones are gone, as `remove_old_receiver_chains` has them.
abbrev pub trimmed : ℕ → Dict String Chain → Dict String Chain
trimmed max d = delete_all (take (length (receiving_ids d) - max) (receiving_ids d)) d

module _ (max : ℕ) (k j : String) (c c' : Chain) (d : Dict String Chain) (some_left : 1 ≤ max)
    (receives : is_receiving c ≡ true) (sends : is_receiving c' ≡ false) (new : lookup k d ≡ none)
    (newer : lookup j (d ++ (k, c) ∷ []) ≡ none) where
  abbrev stepped : Dict String Chain
  stepped = (d ++ (k, c) ∷ []) ++ (j, c') ∷ []

  ids_sending : receiving_ids stepped ≡ receiving_ids (d ++ (k, c) ∷ [])
  ids_sending =
      let gone : receiving_ids ((j, c') ∷ []) ≡ [] = unfold receiving_ids in rw sends in
      receiving_ids-append (d ++ (k, c) ∷ []) ((j, c') ∷ [])
      ∙ ap (λ x. receiving_ids (d ++ (k, c) ∷ []) ++ x) gone
      ∙ append-nil _

  ids_stepped : receiving_ids stepped ≡ receiving_ids d ++ k ∷ []
  ids_stepped =
      ids_sending
      ∙ receiving_ids-append d ((k, c) ∷ [])
      ∙ ap (λ x. receiving_ids d ++ x) (unfold receiving_ids in rw receives)

  pub lookup-trimmed_sending : lookup j (trimmed max stepped) ≡ some c'
  lookup-trimmed_sending =
      let absent : NotIn j (receiving_ids stepped) =
        rw (ids_sending) (receiving_ids-absent j (d ++ (k, c) ∷ []) newer) in
      lookup-delete_all j (take (length (receiving_ids stepped) - max) (receiving_ids stepped))
        stepped (NotIn-take j (length (receiving_ids stepped) - max) (receiving_ids stepped) absent)
      ∙ ground (arith, lookup-append_last j j c' (d ++ (k, c) ∷ []), string_eq.same_iff j j)

  pub lookup-trimmed_receiving : lookup k (trimmed max stepped) ≡ some c
  lookup-trimmed_receiving =
      let few : length (receiving_ids stepped) - max ≤ length (receiving_ids d) =
        omega (arith, ap length ids_stepped, length-append (receiving_ids d) (k ∷ [])) in
      let kept : NotIn k (take (length (receiving_ids stepped) - max) (receiving_ids stepped)) =
        rw ids_stepped (
          NotIn-take_append k _ (receiving_ids d) (k ∷ []) (receiving_ids-absent k d new)
            (rw (← ids_stepped) few)) in
      lookup-delete_all k (take (length (receiving_ids stepped) - max) (receiving_ids stepped))
        stepped kept
      ∙ ground (
        arith,
        lookup-append_last j k c' (d ++ (k, c) ∷ []),
        lookup-append_last k k c d,
        ==-lookup j k c (d ++ (k, c) ∷ []),
        string_eq.same_iff k k,
      )

  -- A key that is none of the two and had no chain has none afterwards.
  pub lookup-trimmed_absent :
      (i : String)
      → (k == i) ≡ false
      → (j == i) ≡ false
      → lookup i d ≡ none
      → lookup i (trimmed max stepped) ≡ none
  lookup-trimmed_absent i apart apart' absent =
      delete_all-absent i (take (length (receiving_ids stepped) - max) (receiving_ids stepped))
        stepped
        (lookup-append_last j i c' (d ++ (k, c) ∷ []) newer
          ∙ rw apart' (lookup-append_last k i c d new ∙ rw apart absent))
