-- ===== src/Base/Results.antt =====
-- Exceptions as values: what the code throws, and the monad of the calls that may throw.

-- The exceptions of stream.h and msg.h, and a SalticidaeError by the name of its code.
pub data Exception : Type 0 where
  insufficient_buffer invalid_argument payload_unavailable : Exception
  accept_failed listen_failed connect_failed : Exception
  peer_already_exists peer_not_exist peer_not_ready peer_not_match : Exception
  client_not_exist oversized_msg conn_not_ready rand_source not_avail : Exception

pub data Result {ℓ} (A : Type ℓ) : Type ℓ where
  ok : A → Result A
  err : Exception → Result A

infixl 5 ◌>>=◌
abbrev pub ◌>>=◌ {ℓ κ} : {A : Type ℓ} {B : Type κ} → Result A → (A → Result B) → Result B
ok a >>= f = f a
err e >>= f = err e
