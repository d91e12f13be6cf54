-- ===== src/Examples/Exchange.antt =====
-- The theorems about the key exchange at concrete inputs.
use oo.Prelude.{◌%◌, ◌^◌, [], ◌∷◌, ◌≡◌, Bytes}
use oo.Outcome.{ok}
use oo.Crypto.KeyExchange.{dh_prime, bytes_to_number, Hkdf, generate_public_key, generate_aes_key}
use oo.Crypto.KeyExchange.Agreement.{generate_aes_key-agree}

-- A key that is its material.
instance abbrev pub toy_hkdf : Hkdf
toy_hkdf = record { derive = λ ikm. ikm }

generate_aes_key-agree_example :
    ((key : Bytes) × (generate_aes_key (1 ∷ 2 ∷ []) (generate_public_key (3 ∷ 4 ∷ [])) ≡ ok key)
      × (generate_aes_key (3 ∷ 4 ∷ []) (generate_public_key (1 ∷ 2 ∷ [])) ≡ ok key))
    × (bytes_to_number 0 (generate_public_key (1 ∷ 2 ∷ []))
        ≡ 2 ^ bytes_to_number 0 (1 ∷ 2 ∷ []) % dh_prime)
generate_aes_key-agree_example = generate_aes_key-agree (1 ∷ 2 ∷ []) (3 ∷ 4 ∷ [])
