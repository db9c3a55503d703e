-- ===== src/Cryptor/Initialising.antt =====
-- When the program fills OpenSSL's tables: `init_evp` of lib/crypto/openssl_crypto.cpp, with its
-- static flag as state, and the calls that the library gets, in order.
use shadowc.Base.{
  Bool, true, false, List, [], ◌∷◌, ◌++◌, ◌≡◌, ◌≢◌, refl, ap, Bytes, assign, bytes_key,
}
use shadowc.Base.Text.{codes}

pub data LibraryCall : Type 0 where
  add_all_algorithms cipher_ctx_new : LibraryCall
  get_cipherbyname : Bytes → LibraryCall

-- `F` is the type of functions that make a cipher.
abbrev pub create_name_cipher_map {ℓ} : {F : Type ℓ} → F → List (Bytes × F)
create_name_cipher_map evp_aes_256_cfb = assign (codes "aes-256-cfb") evp_aes_256_cfb []

-- The flag that is left, and what the library is called with.
pub init_evp : Bool → Bool × List LibraryCall
init_evp true = (true, [])
init_evp false = (true, add_all_algorithms ∷ [])

pub get_cipher_by_name : Bool → Bytes → Bool × List LibraryCall
unfolding init_evp
get_cipher_by_name initialized cipher_name =
    let (initialized', calls) = init_evp initialized in
    (initialized', calls ++ get_cipherbyname cipher_name ∷ [])

-- The constructor of `OpenSSLCrypto`, up to its look-up.
pub create : Bool → Bytes → Bool × List LibraryCall
unfolding init_evp get_cipher_by_name
create initialized cipher_name =
    let (initialized', calls) = init_evp initialized in
    let (initialized'', more) = get_cipher_by_name initialized' cipher_name in
    (initialized'', calls ++ (cipher_ctx_new ∷ more))

-- What the program does with ciphers.
pub data Demand : Type 0 where
  looks_up constructs : Bytes → Demand

unfoldable pub run : List Demand → Bool → Bool × List LibraryCall
unfolding get_cipher_by_name create
run [] initialized = (initialized, [])
run (looks_up name ∷ demands) initialized =
    let (initialized', calls) = get_cipher_by_name initialized name in
    let (initialized'', more) = run demands initialized' in (initialized'', calls ++ more)
run (constructs name ∷ demands) initialized =
    let (initialized', calls) = create initialized name in
    let (initialized'', more) = run demands initialized' in (initialized'', calls ++ more)

-- What the library is asked for, its tables being full.
abbrev pub asked : List Demand → List LibraryCall
asked [] = []
asked (looks_up name ∷ demands) = get_cipherbyname name ∷ asked demands
asked (constructs name ∷ demands) = cipher_ctx_new ∷ get_cipherbyname name ∷ asked demands

run_initialized : (demands : List Demand) → run demands true ≡ (true, asked demands)
unfolding run init_evp
run_initialized [] = refl
run_initialized (looks_up name ∷ demands) =
    ap (λ p. (p.0, get_cipherbyname name ∷ p.1)) (run_initialized demands)
run_initialized (constructs name ∷ demands) =
    ap (λ p. (p.0, cipher_ctx_new ∷ get_cipherbyname name ∷ p.1)) (run_initialized demands)

-- Over any look-ups of ciphers and constructions of `OpenSSLCrypto`, if there are any, the tables
-- of OpenSSL are filled exactly once, before all else that the library is called for, and that is
-- what the look-ups and constructions ask, in order.
pub run-add_all_algorithms :
    (demands : List Demand)
    → demands ≢ []
    → run demands false ≡ (true, add_all_algorithms ∷ asked demands)
unfolding run init_evp
run-add_all_algorithms [] h = absurd (h refl)
run-add_all_algorithms (looks_up name ∷ demands) h =
    ap (λ p. (p.0, add_all_algorithms ∷ get_cipherbyname name ∷ p.1)) (run_initialized demands)
run-add_all_algorithms (constructs name ∷ demands) h =
    ap (λ p. (p.0, add_all_algorithms ∷ cipher_ctx_new ∷ get_cipherbyname name ∷ p.1))
      (run_initialized demands)
