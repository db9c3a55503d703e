-- ===== src/Cryptor.antt =====
-- Namespaces `cryptor` and `crypto`: lib/cryptor.cpp and lib/crypto/openssl_crypto.cpp.
pub mod Openssl
pub mod Initialising
pub mod Setup
pub mod Streams
pub mod Receiving
pub mod RoundTrip
pub mod Defects
pub mod Duplex
pub mod Keeping
pub mod Sessions
pub mod Release
mod Tests
use shadowc.Base.{
  ℕ, ◌-◌, Bool, true, false, Option, none, some, List, [], ◌∷◌, ◌++◌, Bytes, length, drop, ◌==◌,
}
use shadowc.Base.Text.{codes}
use shadowc.Memory.{
  Outcome, ok, fault, null_dereference, out_of_bounds_read, invalid_free, ◌>>=◌, load_n,
}
use Openssl.{Evp, OpensslCrypto, get_cipher_by_name}

abbrev pub cipher_enc_encryption : ℕ
cipher_enc_encryption = 1

abbrev pub cipher_enc_decryption : ℕ
cipher_enc_decryption = 0

-- A member that holds a pointer to bytes; `wild` before anything is assigned to it, if what the
-- memory holds is not zero.
pub data Pointer : Type 0 where
  null wild : Pointer
  owned : Bytes → Pointer

pub record Cryptor (Ctx : Type 0) : Type 0 where
  pub cipher : Option (OpensslCrypto Ctx)
  pub decipher : Option (OpensslCrypto Ctx)
  pub cipher_iv : Pointer
  pub decipher_iv : Pointer
  pub cipher_iv_len : ℕ
  pub iv_sent : Bool
  pub method : Bytes
  pub password : Bytes

-- `set_cipher_iv`, which frees the old bytes.
pub set_cipher_iv {ℓ} : {A : Type ℓ} → Pointer → A → Outcome A
set_cipher_iv null a = ok a
set_cipher_iv wild a = fault invalid_free
set_cipher_iv (owned _) a = ok a

-- `memcpy` from a pointer.
pub load_pointer : ℕ → Pointer → Outcome Bytes
load_pointer n null = fault null_dereference
load_pointer n wild = fault out_of_bounds_read
load_pointer n (owned bytes) = load_n n bytes

module _ (evp : Evp) where
  open evp use {Cipher, Digest, Ctx, iv_len, digest_by_name, bytes_to_key}

  -- The part of `get_cipher` behind the key.
  pub make_cipher :
      Cryptor Ctx
      → Cipher
      → Bytes
      → Bytes
      → ℕ
      → Bytes
      → Outcome (Cryptor Ctx × Option (OpensslCrypto Ctx))
  unfolding set_cipher_iv
  make_cipher c cipher key method op iv = do
    crypto ← Openssl.create evp method key iv op
    let sized : Cryptor Ctx = record c { cipher_iv_len = iv_len cipher }
    elim (op == cipher_enc_encryption) [
      | false ↦ ok (sized, some crypto)
      | true ↦ do
        buf ← load_n (iv_len cipher) iv
        c' ← set_cipher_iv c.cipher_iv (record sized { cipher_iv = owned buf })
        ok (c', some crypto)
    ]

  -- With the results of the look-ups; `EVP_BytesToKey` reads the cipher.
  pub derive_cipher :
      Cryptor Ctx
      → Option Digest
      → Option Cipher
      → Bytes
      → Bytes
      → ℕ
      → Bytes
      → Outcome (Cryptor Ctx × Option (OpensslCrypto Ctx))
  unfolding make_cipher
  derive_cipher c none cipher password method op iv = ok (c, none)
  derive_cipher c (some dgst) none password method op iv = fault null_dereference
  derive_cipher c (some dgst) (some cipher) password method op iv =
      elim (bytes_to_key cipher dgst password) [
        | none ↦ ok (c, none)
        | some key ↦ make_cipher c cipher key method op iv
      ]

  -- `get_cipher`; `none` is NULL.
  unfoldable pub get_cipher :
      Cryptor Ctx → Bytes → Bytes → ℕ → Bytes → Outcome (Cryptor Ctx × Option (OpensslCrypto Ctx))
  unfolding derive_cipher
  get_cipher c password method op iv =
      derive_cipher c (digest_by_name (codes "md5")) (get_cipher_by_name evp method) password method
        op iv

  -- The constructor, with EVP_MAX_IV_LENGTH random bytes; `stale` is what the memory of the member
  -- `cipher_iv` held. The other members, which are assigned before they are read unless a look-up
  -- fails, start at NULL or 0.
  unfoldable pub create : Pointer → Bytes → Bytes → Bytes → Outcome (Cryptor Ctx)
  create stale random password method = do
    let raw : Cryptor Ctx = record {
      cipher = none;
      decipher = none;
      cipher_iv = stale;
      decipher_iv = null;
      cipher_iv_len = 0;
      iv_sent = false;
      method = method;
      password = password;
    }
    (c, cipher) ← get_cipher raw password method cipher_enc_encryption random
    ok (record c { cipher = cipher })

  -- A call of `update` through a pointer.
  pub update_at : Option (OpensslCrypto Ctx) → Bytes → Outcome (OpensslCrypto Ctx × Option Bytes)
  update_at none payload = fault null_dereference
  update_at (some crypto) payload = Openssl.update evp crypto payload

  abbrev pub or_nothing : Option Bytes → Bytes
  or_nothing none = []
  or_nothing (some bytes) = bytes

  -- The result is what `out` holds, as far as `*out_size` says; `none` if that is not assigned.
  unfoldable pub encrypt : Cryptor Ctx → Bytes → Outcome (Cryptor Ctx × Option Bytes)
  unfolding update_at load_pointer
  encrypt c buf = elim (length buf == 0) [
    | true ↦ ok (c, some [])
    | false ↦ elim c.iv_sent [
      | true ↦ do
        (cipher, out) ← update_at c.cipher buf
        ok (record c { cipher = some cipher }, out)
      | false ↦ do
        iv ← load_pointer c.cipher_iv_len c.cipher_iv
        (cipher, out) ← update_at c.cipher buf
        ok (record c { cipher = some cipher; iv_sent = true }, some (iv ++ or_nothing out))
    ]
  ]

  -- The end of `decrypt`, on the payload behind the initialisation vector.
  pub decrypt_payload : Cryptor Ctx → Bytes → Outcome (Cryptor Ctx × Option Bytes)
  unfolding update_at
  decrypt_payload c buf = elim (length buf == 0) [
    | true ↦ ok (c, some [])
    | false ↦ do
      (decipher, out) ← update_at c.decipher buf
      ok (record c { decipher = some decipher }, out)
  ]

  -- The first payload brings the initialisation vector.
  pub start_decipher : Cryptor Ctx → Bytes → Outcome (Cryptor Ctx)
  start_decipher c buf = do
    iv ← load_n c.cipher_iv_len buf
    (c', decipher) ←
        get_cipher (record c { decipher_iv = owned iv }) c.password c.method cipher_enc_decryption
          iv
    ok (record c' { decipher = decipher })

  unfoldable pub decrypt : Cryptor Ctx → Bytes → Outcome (Cryptor Ctx × Option Bytes)
  unfolding decrypt_payload start_decipher
  decrypt c buf = elim (length buf == 0) [
    | true ↦ ok (c, some [])
    | false ↦ elim c.decipher [
      | none ↦ do c' ← start_decipher c buf; decrypt_payload c' (drop c'.cipher_iv_len buf)
      | some _ ↦ decrypt_payload c buf
    ]
  ]
