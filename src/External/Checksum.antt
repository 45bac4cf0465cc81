-- ===== src/External/Checksum.antt =====
-- xxHash: the one-shot `XXH32`, and its streaming form, both with seed 0.
use mmkvc.Prelude.{ℕ, ◌^◌, ◌<◌, ◌≡◌, List, foldl, flatten}

pub record Checksum : Type 1 where
  pub State : Type 0
  pub xxh32 : List ℕ → ℕ
  -- `XXH32_reset` of a created state, `XXH32_update`, `XXH32_digest`
  pub reset : State
  pub update : State → List ℕ → State
  pub digest : State → ℕ
  pub xxh32_bound : (bytes : List ℕ) → xxh32 bytes < 2 ^ 32
  -- Feeding the chunks one after the other gives the hash of the whole.
  pub digest-update :
      (chunks : List (List ℕ)) → digest (foldl update reset chunks) ≡ xxh32 (flatten chunks)
