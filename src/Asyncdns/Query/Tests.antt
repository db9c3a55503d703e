-- ===== src/Asyncdns/Query/Tests.antt =====
-- Queries for a short name, on a clean and on a stale stack, and for a name that is too long.
use shadowc.Base.{◌≡◌, refl, [], ◌∷◌, ◌++◌, Bytes, replicate, arith}
use shadowc.Base.Text.{codes}
use shadowc.Memory.{ok, fault, out_of_bounds_write}
use shadowc.Memory.Laws.{IsText}
use shadowc.Asyncdns.Header.{encode}
use shadowc.Asyncdns.Names.Labels.{wire, split, split_from}
use shadowc.Asyncdns.Query.{query_header, question, build_query}
use shadowc.Asyncdns.Query.Packet.{build_query_clean, build_query_stale}
use shadowc.Asyncdns.Query.Oversize.{build_query_oversize}

abbrev host : Bytes
host = codes "ab.c"

host-IsText : IsText (wire (split host))
unfolding wire split_from
host-IsText = omega arith

build_query_clean_example :
    build_query 77
      (replicate 12 9 ++ (replicate 5 9 ++ 0 ∷ 9 ∷ (replicate 3 9 ++ replicate 106 9)))
      host
      1
    ≡ ok (encode (query_header 77) ++ (wire (split host) ++ 0 ∷ question 1))
build_query_clean_example =
    build_query_clean 77 1 host (replicate 12 9) (replicate 5 9) (replicate 3 9) (replicate 106 9)
      host-IsText refl refl refl 9

build_query_stale_example :
    build_query 77
      (replicate 12 9 ++ (replicate 5 9 ++ 5 ∷ 9 ∷ (replicate 4 9 ++ replicate 105 9)))
      host
      1
    ≡ ok (encode (query_header 77) ++ ((wire (split host) ++ 5 ∷ []) ++ 0 ∷ question 1))
build_query_stale_example =
    build_query_stale 77 1 5 host (replicate 12 9) (replicate 5 9) (replicate 4 9) (replicate 105 9)
      host-IsText (λ e. cc) refl refl refl 9

build_query_oversize_example :
    build_query 77 (replicate 128 9) (replicate 120 b'a') 1 ≡ fault out_of_bounds_write
build_query_oversize_example =
    build_query_oversize 77 1 (replicate 128 9) (replicate 120 b'a') refl (omega arith)
