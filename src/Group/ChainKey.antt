-- ===== src/Group/ChainKey.antt =====
-- src/sender-chain-key.ts and src/sender-message-key.ts.
use libsignal_node.Common.{ℕ, ◌+◌, Bytes, [], ◌∷◌, ◌++◌, none, take, drop, Result, ok, ◌>>=◌}
use libsignal_node.Platform.{Platform}
use libsignal_node.Crypto.{ascii, alloc, nth, calculate_mac, derive_secrets}

pub record SenderMessageKey : Type 0 where
  pub iteration : ℕ
  pub iv : Bytes
  pub cipher_key : Bytes
  pub seed : Bytes

pub record SenderChainKey : Type 0 where
  pub iteration : ℕ
  pub chain_key : Bytes

module _ (p : Platform) where
  -- The constructor of `SenderMessageKey`.
  unfoldable pub new_message_key : ℕ → Bytes → Result SenderMessageKey
  new_message_key iteration seed = do
    derivative ← derive_secrets p seed (alloc 32) (ascii "WhisperGroup") none
    part0 ← nth derivative 0
    part1 ← nth derivative 1
    ok (record {
      iteration = iteration;
      iv = take 16 part0;
      cipher_key = drop 16 part0 ++ take 16 part1;
      seed = seed;
    })

  unfoldable pub message_key_seed : Bytes → Bytes
  message_key_seed chain_key = calculate_mac p chain_key (1 ∷ [])

  unfoldable pub next_chain_key : Bytes → Bytes
  next_chain_key chain_key = calculate_mac p chain_key (2 ∷ [])

  -- `getSenderMessageKey`
  unfoldable pub get_sender_message_key : SenderChainKey → Result SenderMessageKey
  get_sender_message_key c = new_message_key c.iteration (message_key_seed c.chain_key)

  -- `getNext`
  unfoldable pub get_next : SenderChainKey → SenderChainKey
  get_next c = record { iteration = c.iteration + 1; chain_key = next_chain_key c.chain_key }
