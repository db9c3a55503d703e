-- ===== src/Utils.antt =====
-- Namespace `utils`: lib/utils.cpp. What the system answers is an argument.
pub mod Laws
mod Tests
use Prim.Native.Nat.{bit_or}
use shadowc.Base.{ℕ, Option, none, some, Bytes, take}
use shadowc.Base.Int.{ℤ, pos, failed}
use shadowc.Memory.{Outcome, fault, null_dereference, store_all}

abbrev pub o_nonblock : ℕ
o_nonblock = 2048

-- The result, and the flags that are set, if that comes to pass. `flags` is the answer to F_GETFL
-- and `set` the answer to F_SETFL, `none` for -1.
unfoldable pub make_socket_non_blocking : Option ℕ → Option ℕ → ℤ × Option ℕ
make_socket_non_blocking none set = (failed, none)
make_socket_non_blocking (some flags) none = (failed, some (bit_or flags o_nonblock))
make_socket_non_blocking (some flags) (some s) = (pos 0, some (bit_or flags o_nonblock))

-- `urandom` is what /dev/urandom gives, `none` if it cannot be opened; `fread` takes `length`
-- bytes of it at most.
unfoldable pub random_string : Option Bytes → ℕ → Bytes → Outcome Bytes
random_string none length buf = fault null_dereference
random_string (some urandom) length buf = store_all buf 0 (take length urandom)
