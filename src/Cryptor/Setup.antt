-- ===== src/Cryptor/Setup.antt =====
-- What the program needs of OpenSSL before the first byte, and a new `Cryptor`.
use shadowc.Base.{
  ℕ, ◌≤◌, ◌<◌, ◌≡◌, refl, sym, false, Option, none, some, [], ◌++◌, Bytes, length, take,
  length-take_of_le, append-nil, arith,
}
use shadowc.Base.Text.{codes}
use shadowc.Memory.{ok, ◌>>=◌, load_n}
use shadowc.Memory.Laws.{load_n-append, load_n-take}
use shadowc.Cryptor.{
  Cryptor, null, owned, create, start_decipher, get_cipher, derive_cipher, cipher_enc_encryption,
  cipher_enc_decryption,
}
use shadowc.Cryptor.Openssl.{Evp, OpensslCrypto}
use shadowc.Cryptor.Openssl

-- The library knows the method and the digest, the password has a key, the vector fits into the
-- random bytes, and contexts can be made for both directions.
pub record IsReady (evp : Evp) (password method : Bytes) : Type 0 where
  pub cipher : evp.Cipher
  pub md5 : evp.Digest
  pub key : Bytes
  pub ctx : evp.Ctx
  pub known_cipher : evp.cipher_by_name method ≡ some cipher
  pub known_digest : evp.digest_by_name (codes "md5") ≡ some md5
  pub has_key : evp.bytes_to_key cipher md5 password ≡ some key
  pub has_ctx : evp.ctx_new ≡ some ctx
  pub iv_pos : 0 < evp.iv_len cipher
  pub iv_fits : evp.iv_len cipher ≤ 16
  pub init_encryption :
      (iv : Bytes)
      → length iv ≡ evp.iv_len cipher
      → (e : evp.Ctx) × (evp.cipher_init ctx cipher key iv cipher_enc_encryption ≡ some e)
  pub init_decryption :
      (iv : Bytes)
      → length iv ≡ evp.iv_len cipher
      → (d : evp.Ctx) × (evp.cipher_init ctx cipher key iv cipher_enc_decryption ≡ some d)

module _ (evp : Evp) where
  abbrev pub over : evp.Ctx → Option (OpensslCrypto evp.Ctx)
  over ctx = some (record { cipher_ctx = some ctx })

  -- A receiver behind the initialisation vector.
  abbrev pub receiving : Cryptor evp.Ctx → evp.Ctx → Cryptor evp.Ctx
  receiving c d = record c { decipher = over d }

  -- A sender before its first output.
  pub record IsFresh (c : Cryptor evp.Ctx) (e : evp.Ctx) (iv : Bytes) : Type 0 where
    pub unsent : c.iv_sent ≡ false
    pub has_cipher : c.cipher ≡ over e
    pub has_iv : c.cipher_iv ≡ owned iv
    pub has_len : c.cipher_iv_len ≡ length iv

module _ {evp : Evp} {password method : Bytes} (law : IsReady evp password method) where
  -- A new `Cryptor`, as far as the round trip needs it.
  pub record IsNew (c : Cryptor evp.Ctx) (iv : Bytes) (e : evp.Ctx) : Type 0 where
    pub fresh : IsFresh evp c e iv
    pub undeciphered : c.decipher ≡ none
    pub unread : c.decipher_iv ≡ null
    pub iv_len_is : length iv ≡ evp.iv_len law.cipher
    pub method_is : c.method ≡ method
    pub password_is : c.password ≡ password

  pub openssl_create :
      (block iv : Bytes) (op : ℕ) {e : evp.Ctx}
      → load_n (evp.iv_len law.cipher) block ≡ ok iv
      → evp.cipher_init law.ctx law.cipher law.key iv op ≡ some e
      → Openssl.create evp method law.key block op ≡ ok (record { cipher_ctx = some e })
  unfolding Openssl.create
  openssl_create block iv op l i = rw (law.known_cipher, law.has_ctx, Openssl.init_ctx, l, i)

  pub create-IsNew :
      (random : Bytes)
      → length random ≡ 16
      → (e : evp.Ctx) × (c : Cryptor evp.Ctx) × (create evp null random password method ≡ ok c)
        × IsNew c (take (evp.iv_len law.cipher) random) e
        × (evp.cipher_init law.ctx law.cipher law.key
              (take (evp.iv_len law.cipher) random)
              cipher_enc_encryption
            ≡ some e)
  unfolding create get_cipher
  create-IsNew random r =
      let n : ℕ = evp.iv_len law.cipher in
      let short = length-take_of_le n random (omega (arith, law.iv_fits)) in
      let (e, init_e) = law.init_encryption (take n random) short in
      let read = load_n-take n random (omega (arith, law.iv_fits)) in
      let crypto = openssl_create random (take n random) cipher_enc_encryption read init_e in
      (
        e,
        record {
          cipher = over evp e;
          decipher = none;
          cipher_iv = owned (take n random);
          decipher_iv = null;
          cipher_iv_len = n;
          iv_sent = false;
          method = method;
          password = password;
        },
        rw (law.known_digest, law.known_cipher, derive_cipher, law.has_key, crypto, ◌>>=◌, read),
        record {
          fresh = record { unsent = refl; has_cipher = refl; has_iv = refl; has_len = sym short };
          undeciphered = refl;
          unread = refl;
          iv_len_is = short;
          method_is = refl;
          password_is = refl;
        },
        init_e,
      )

  -- The first piece: the context is made from the initialisation vector at its front.
  pub start_decipher_lem :
      (c : Cryptor evp.Ctx) (own iv x : Bytes) {e d : evp.Ctx}
      → IsNew c own e
      → length iv ≡ evp.iv_len law.cipher
      → evp.cipher_init law.ctx law.cipher law.key iv cipher_enc_decryption ≡ some d
      → start_decipher evp c (iv ++ x)
        ≡ ok (
            receiving evp
              (record c { decipher_iv = owned iv; cipher_iv_len = evp.iv_len law.cipher })
              d)
  unfolding start_decipher get_cipher
  start_decipher_lem c own iv x {e} {d} new v i =
      let len : c.cipher_iv_len ≡ length iv = omega (arith, new.fresh.has_len, new.iv_len_is) in
      let read : load_n c.cipher_iv_len (iv ++ x) ≡ ok iv = rw (len) (load_n-append iv x) in
      let whole = load_n-append iv [] in
      let crypto : Openssl.create evp c.method law.key iv cipher_enc_decryption
          ≡ ok (record { cipher_ctx = some d }) =
        rw new.method_is
          (openssl_create iv iv cipher_enc_decryption (rw (← v) (rw append-nil at whole)) i) in
      let known : evp.cipher_by_name c.method ≡ some law.cipher =
        rw new.method_is law.known_cipher in
      let key : evp.bytes_to_key law.cipher law.md5 c.password ≡ some law.key =
        rw new.password_is law.has_key in
      rw (read, law.known_digest, known, derive_cipher, key, crypto)
