-- ===== src/Cryptor/RoundTrip.antt =====
-- What one `Cryptor` encrypts, the library decrypts with the vector in front of it.
use shadowc.Base.{◌≡◌, ◌≢◌, ◌∙◌, sym, ap, some, List, [], ◌++◌, Bytes, length, take}
use shadowc.Memory.{ok}
use shadowc.Memory.Laws.{ok-injective}
use shadowc.Cryptor.{Cryptor, null, create, cipher_enc_decryption}
use shadowc.Cryptor.Openssl.{Evp}
use shadowc.Cryptor.Streams.{IsStream, concat, encrypt_all, encrypt_all_fresh, sending}
use shadowc.Cryptor.Setup.{create-IsNew}

module _ (evp : Evp) {password method : Bytes} (law : IsStream evp password method) where
  -- Over a stream cipher, let a `Cryptor` be made with 16 random bytes, in memory with NULL in
  -- `cipher_iv`. It encrypts any chunks that are not all empty, and what it sends is the first of
  -- the random bytes, as many as the cipher's initialisation vector has, and then bytes that the
  -- library's `EVP_DecryptUpdate`, on a context made for decryption with that vector, the method
  -- and the password's key, turns into the chunks' bytes.
  pub decrypt_update-encrypt_all :
      (random : Bytes) (chunks : List Bytes) (sender : Cryptor evp.Ctx)
      → length random ≡ 16
      → create evp null random password method ≡ ok sender
      → concat chunks ≢ []
      → let iv = take (evp.iv_len law.cipher) random in
        (length iv ≡ evp.iv_len law.cipher)
        × ((sender' : Cryptor evp.Ctx) × (out : Bytes) × (d : evp.Ctx) × (d' : evp.Ctx)
            × (encrypt_all evp sender chunks ≡ ok (sender', iv ++ out))
            × (evp.cipher_init law.ctx law.cipher law.key iv cipher_enc_decryption ≡ some d)
            × (evp.decrypt_update d out ≡ some (d', concat chunks)))
  decrypt_update-encrypt_all random chunks sender r s ne =
      let iv : Bytes = take (evp.iv_len law.cipher) random in
      let (e, c, made, new, init) = create-IsNew law.ready random r in
      let is_sender : c ≡ sender = ok-injective c sender (sym made ∙ s) in
      let (d, init') = law.init_decryption iv new.iv_len_is in
      let synced = law.init_synced iv e d init init' in
      let (e', d', out, enc, dec, _) = law.update e d (concat chunks) synced in
      (
        new.iv_len_is,
        (
          sending evp c e',
          out,
          d,
          d',
          ap (λ (c : Cryptor evp.Ctx). encrypt_all evp c chunks) (sym is_sender)
              ∙ encrypt_all_fresh law c e d iv chunks synced new.fresh ne enc,
          init',
          dec,
        ),
      )
