-- ===== src/Cryptor/Sessions/Tests.antt =====
-- An end that sends and receives in turn, and starts to decrypt between two chunks.
use shadowc.Base.{◌≡◌, refl, some, List, [], ◌∷◌}
use shadowc.Memory.{ok, load_n}
use shadowc.Cryptor.{owned, create, encrypt, decrypt, get_cipher}
use shadowc.Cryptor.Openssl
use shadowc.Cryptor.Duplex.{with_receiver}
use shadowc.Cryptor.Streams.{encrypt_all}
use shadowc.Cryptor.Receiving.{decrypt_all}
use shadowc.Cryptor.Sessions.{Step, sends, receives, session, session-create}
use shadowc.Cryptor.Tests.{
  back, shifting, shifting-IsReady, sixteen, with_iv, sender_after, receiver_of,
}

abbrev caller : List Step
caller = sends (7 ∷ []) ∷ receives (0 ∷ 0 ∷ 11 ∷ []) ∷ sends (8 ∷ 9 ∷ []) ∷ receives (20 ∷ []) ∷ []

session-create_example :
    session shifting caller (with_iv (1 ∷ 2 ∷ []))
    ≡ ok (
      with_receiver shifting
          (some (record { cipher_ctx = some back }))
          (owned (0 ∷ 0 ∷ []))
          sender_after,
      1 ∷ 2 ∷ 8 ∷ 9 ∷ 10 ∷ [],
      10 ∷ 19 ∷ [],
    )
unfolding create get_cipher Openssl.create encrypt_all encrypt decrypt_all decrypt Openssl.update
    load_n
session-create_example =
    session-create shifting shifting-IsReady sixteen (1 ∷ 2 ∷ 8 ∷ 9 ∷ 10 ∷ []) (10 ∷ 19 ∷ []) caller
      (with_iv (1 ∷ 2 ∷ [])) sender_after (receiver_of (0 ∷ 0 ∷ [])) refl refl refl refl
