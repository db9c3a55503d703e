-- ===== src/Cryptor/Openssl.antt =====
-- `OpenSSLCrypto` of lib/crypto/openssl_crypto.cpp, over an interface to the library's EVP calls.
use shadowc.Base.{ℕ, Option, none, some, List, [], ◌∷◌, Bytes}
use shadowc.Base.{◌≡◌}
use shadowc.Memory.{Outcome, ok, fault, null_dereference, ◌>>=◌, load_n}

-- What the program uses of OpenSSL, and `EVP_DecryptUpdate`, which it does not use. `none` stands
-- for NULL and for a result of 0. `refused_update` is what a call of `EVP_EncryptUpdate` with the
-- result 0 leaves: the context, and what the caller's `out` holds as far as `*out_size` says, or
-- `none` where `*out_size` is not assigned.
pub record Evp : Type 1 where
  pub Cipher : Type 0
  pub Digest : Type 0
  pub Ctx : Type 0
  pub cipher_by_name : Bytes → Option Cipher
  pub digest_by_name : Bytes → Option Digest
  pub iv_len : Cipher → ℕ
  pub bytes_to_key : Cipher → Digest → Bytes → Option Bytes
  pub ctx_new : Option Ctx
  pub cipher_init : Ctx → Cipher → Bytes → Bytes → ℕ → Option Ctx
  pub encrypt_update : Ctx → Bytes → Option (Ctx × Bytes)
  pub decrypt_update : Ctx → Bytes → Option (Ctx × Bytes)
  pub refused_update : Ctx → Bytes → Ctx × Option Bytes

pub record OpensslCrypto (Ctx : Type 0) : Type 0 where
  pub cipher_ctx : Option Ctx

-- The destructor: the contexts that are cleaned up and freed.
unfoldable pub destroy : {Ctx : Type 0} → OpensslCrypto Ctx → List Ctx
destroy crypto = elim crypto.cipher_ctx [ none ↦ [] | some ctx ↦ ctx ∷ [] ]

module _ (evp : Evp) where
  open evp use {
    Cipher, Ctx, cipher_by_name, iv_len, ctx_new, cipher_init, encrypt_update, refused_update,
  }

  -- `init_evp`, which every look-up calls first, only fills the library's tables.
  abbrev pub get_cipher_by_name : Bytes → Option Cipher
  get_cipher_by_name name = cipher_by_name name

  -- The context after `EVP_CipherInit_ex`, which is left as it was if that fails.
  pub init_ctx : Ctx → Cipher → Bytes → Bytes → ℕ → Outcome (OpensslCrypto Ctx)
  init_ctx ctx cipher key iv op = do
    iv' ← load_n (iv_len cipher) iv
    elim (cipher_init ctx cipher key iv' op) [
      | none ↦ ok (record { cipher_ctx = some ctx })
      | some ctx' ↦ ok (record { cipher_ctx = some ctx' })
    ]

  pub create_with : Option Cipher → Option Ctx → Bytes → Bytes → ℕ → Outcome (OpensslCrypto Ctx)
  unfolding init_ctx
  create_with none ctx key iv op = ok (record { cipher_ctx = ctx })
  create_with (some cipher) none key iv op = ok (record { cipher_ctx = none })
  create_with (some cipher) (some ctx) key iv op = init_ctx ctx cipher key iv op

  -- The constructor.
  unfoldable pub create : Bytes → Bytes → Bytes → ℕ → Outcome (OpensslCrypto Ctx)
  unfolding create_with
  create name key iv op = create_with (get_cipher_by_name name) ctx_new key iv op

  pub update_ctx : Ctx → Bytes → Outcome (OpensslCrypto Ctx × Option Bytes)
  update_ctx ctx payload = elim (encrypt_update ctx payload) [
    | none ↦
        let (ctx', out) = refused_update ctx payload in ok (record { cipher_ctx = some ctx' }, out)
    | some (ctx', out) ↦ ok (record { cipher_ctx = some ctx' }, some out)
  ]

  -- `update`, which is the same call for contexts that encrypt and contexts that decrypt.
  unfoldable pub update : OpensslCrypto Ctx → Bytes → Outcome (OpensslCrypto Ctx × Option Bytes)
  unfolding update_ctx
  update crypto payload = elim crypto.cipher_ctx [
    | none ↦ fault null_dereference
    | some ctx ↦ update_ctx ctx payload
  ]

  pub update-encrypt_update :
      (ctx : Ctx) (payload : Bytes) {ctx' : Ctx} {out : Bytes}
      → encrypt_update ctx payload ≡ some (ctx', out)
      → update (record { cipher_ctx = some ctx }) payload
        ≡ ok (record { cipher_ctx = some ctx' }, some out)
  unfolding update
  update-encrypt_update ctx payload h = rw (h, update_ctx)
