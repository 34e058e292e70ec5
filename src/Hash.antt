-- ===== src/Hash.antt =====
-- calc_hash and calc_hmac of module/dysk_utils.c, over the hash functions of the kernel. `T` is the state
-- of a transform, a crypto_shash.
use dysk.Base.{Bytes, eq_ℤ, if◌then◌else◌, pos, replicate, ℕ, ℤ}

-- crypto_shash_setkey and crypto_shash_digest: their errno, and the transform or the digest. `desc_size`
-- is `sizeof(struct shash_desc) + crypto_shash_descsize(tfm)`; the digest call leaves `desc` as it likes.
pub record Shash (T : Type 0) : Type 0 where
  pub desc_size : T → ℕ
  pub crypto_shash_setkey : T → Bytes → ℤ × T
  pub crypto_shash_digest : T → Bytes → (ℤ × Bytes) × Bytes

-- What calc_hash leaves in the caller's buffer and on its own stack.
pub record Hashed : Type 0 where
  pub err : ℤ
  pub digest : Bytes
  pub desc : Bytes

module _ {T : Type 0} (shash : Shash T) where
  open shash use {desc_size, crypto_shash_setkey, crypto_shash_digest}

  unfoldable pub calc_hash : T → Bytes → Hashed
  calc_hash tfm buf =
      let ((err, digest), _) = crypto_shash_digest tfm buf in
      record { err = err; digest = digest; desc = replicate (desc_size tfm) 0 }

  -- The digest that was in the buffer stays when the key is refused.
  unfoldable pub calc_hmac : T → Bytes → Bytes → Bytes → (ℤ × Bytes) × T
  calc_hmac tfm old key buf =
      let (err, keyed) = crypto_shash_setkey tfm key in
      let hashed = calc_hash keyed buf in
      if eq_ℤ err (pos 0) then ((hashed.err, hashed.digest), keyed) else ((err, old), keyed)
