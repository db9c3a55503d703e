-- ===== src/Asyncdns/Response/Reply.antt =====
-- The replies of a DNS server, as RFC 1035 encodes them.
pub mod Parsed
use shadowc.Base.{
  Option, none, some, ℕ, zero, suc, ◌+◌, ◌*◌, ◌-◌, ◌≤◌, ◌<◌, ◌≡◌, ◌≢◌, refl, ◌∙◌, sym, ap, List, [],
  ◌∷◌, ◌++◌, map, Bytes, length, length-append, append_assoc, append-nil, drop, All, arith,
}
use shadowc.Memory.{ok, load, strlen}
use shadowc.Memory.Laws.{load_at, strlen_text}
use shadowc.Asyncdns.Header.{DnsHeader, encode, decode, htons, ntohs_at, header_len}
use shadowc.Asyncdns.Header.Laws.{IsHeader, decode-encode, ntohs_at-htons}
use shadowc.Asyncdns.Names.Labels.{wire, split, IsLabel, wire-IsText, length-wire-split}
use shadowc.Asyncdns.Names.Reading.{Encodes, pointer}
use shadowc.Asyncdns.Names.RoundTrip.{plain-Encodes, wire-plain, split_from-ne-nil}
use shadowc.Asyncdns.Query.{question}
use shadowc.Asyncdns.Response.{qtype_a, question_len, r_data_len, data_len_at}
use shadowc.Asyncdns.Response.Parsing.{
  NameAt, Answer, address, alias, AnswersAt, done, address_at, alias_at, IsResponse,
}

-- A name in a reply: that of the question, through a pointer to it, or one that is written out.
pub data Name : Type 0 where
  asked : Name
  spelled : Bytes → Name

-- A record with its owner and the bytes of its time to live: an address, or a canonical name.
pub data Record : Type 0 where
  a_record : Name → Bytes → Bytes → Record
  cname_record : Name → Bytes → Name → Record

abbrev pub cname : ℕ
cname = 5

abbrev pub encode_name : Name → Bytes
encode_name asked = 192 ∷ header_len ∷ []
encode_name (spelled host) = wire (split host) ++ 0 ∷ []

abbrev pub encode_record : Record → Bytes
encode_record (a_record owner ttl ip) =
    encode_name owner ++ (htons qtype_a ++ (htons 1 ++ (ttl ++ (htons 4 ++ ip))))
encode_record (cname_record owner ttl target) =
    encode_name owner
    ++ (htons cname
        ++ (htons 1 ++ (ttl ++ (htons (length (encode_name target)) ++ encode_name target))))

abbrev pub encode_records : List Record → Bytes
encode_records [] = []
encode_records (r ∷ records) = encode_record r ++ encode_records records

-- The reply to a question for the addresses of `host`.
abbrev pub reply : DnsHeader → Bytes → List Record → Bytes
reply dns host records =
    encode dns ++ (wire (split host) ++ 0 ∷ (question qtype_a ++ encode_records records))

-- A host name of proper labels, with at most 255 bytes on the wire.
pub record IsName (host : Bytes) : Type 0 where
  pub labels : All IsLabel (split host)
  pub fits : length host + 1 < 256

abbrev pub NameIsName : Name → Type 0
NameIsName asked = Unit
NameIsName (spelled host) = IsName host

abbrev pub IsRecord : Record → Type 0
IsRecord (a_record owner ttl ip) = NameIsName owner × (length ttl ≡ 4) × (length ip ≡ 4)
IsRecord (cname_record owner ttl target) = NameIsName owner × (length ttl ≡ 4) × NameIsName target

-- The host name that a name stands for.
abbrev pub host_of : Bytes → Name → Bytes
host_of host asked = host
host_of host (spelled other) = other

-- What a record says.
abbrev pub answer_of : Bytes → Record → Answer
answer_of host (a_record owner ttl ip) = address (split (host_of host owner)) ip
answer_of host (cname_record owner ttl target) =
    alias (split (host_of host owner)) (split (host_of host target))

abbrev pub answers_of : Bytes → List Record → List Answer
answers_of host [] = []
answers_of host (r ∷ records) = answer_of host r ∷ answers_of host records

-- The first address among the records, with its owner.
abbrev pub first_a : List Record → Option (Name × Bytes)
first_a [] = none
first_a (a_record owner ttl ip ∷ records) = some (owner, ip)
first_a (cname_record owner ttl target ∷ records) = first_a records
