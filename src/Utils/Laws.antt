-- ===== src/Utils/Laws.antt =====
-- What the helpers of lib/utils.cpp do on every answer of the system.
use shadowc.Base.{◌≤◌, ◌≡◌, refl, sym, some, [], ◌++◌, Bytes, take, length, length-take_of_le}
use shadowc.Memory.{ok}
use shadowc.Memory.Laws.{store_all-append}
use shadowc.Utils.{random_string}

-- If there are enough random bytes, the first `length` bytes of the buffer are replaced by them,
-- and no other.
pub random_string-fills :
    (urandom old rest : Bytes)
    → length old ≤ length urandom
    → random_string (some urandom) (length old) (old ++ rest)
      ≡ ok (take (length old) urandom ++ rest)
unfolding random_string
random_string-fills urandom old rest h =
    store_all-append (take (length old) urandom) [] old rest
      (sym (length-take_of_le (length old) urandom h)) refl refl
