-- ===== src/Utils/Tests.antt =====
-- The helpers of lib/utils.cpp on small buffers.
use shadowc.Base.{◌≡◌, refl, some, none}
use shadowc.Base.Int.{failed}
use shadowc.Utils.{make_socket_non_blocking}

test_flags_refused : make_socket_non_blocking (some 2) none ≡ (failed, some 2050)
unfolding make_socket_non_blocking
test_flags_refused = refl
