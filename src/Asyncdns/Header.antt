-- ===== src/Asyncdns/Header.antt =====
-- `DNS_HEADER` of include/asyncdns.hpp as it lies in memory: 12 bytes, the first of several bit
-- fields in the low bits of its byte, and numbers in network order.
pub mod Laws
use shadowc.Base.{ℕ, ◌+◌, ◌*◌, ◌/◌, ◌%◌, ◌^◌, ◌<◌, [], ◌∷◌, ◌++◌, Bytes}
use shadowc.Memory.{Outcome, ok, ◌>>=◌, load}

pub record DnsHeader : Type 0 where
  pub id : ℕ
  pub rd : ℕ
  pub tc : ℕ
  pub aa : ℕ
  pub opcode : ℕ
  pub qr : ℕ
  pub rcode : ℕ
  pub cd : ℕ
  pub ad : ℕ
  pub z : ℕ
  pub ra : ℕ
  pub q_count : ℕ
  pub ans_count : ℕ
  pub auth_count : ℕ
  pub add_count : ℕ

-- `ntohs` of the `unsigned short` at index `i`.
unfoldable pub ntohs_at : Bytes → ℕ → Outcome ℕ
ntohs_at block i = do high ← load block i; low ← load block (i + 1); ok (high * 256 + low)

-- The two bytes of `htons(x)` in memory.
abbrev pub htons : ℕ → Bytes
htons x = (x / 256 % 256) ∷ (x % 256) ∷ []

-- `sizeof(DNS_HEADER)`
abbrev pub header_len : ℕ
header_len = 12

-- The bytes of a header in memory.
unfoldable pub encode : DnsHeader → Bytes
encode h =
    htons h.id
    ++ ((h.rd + 2 * h.tc + 4 * h.aa + 8 * h.opcode + 128 * h.qr)
        ∷ (h.rcode + 16 * h.cd + 32 * h.ad + 64 * h.z + 128 * h.ra)
        ∷ (htons h.q_count ++ (htons h.ans_count ++ (htons h.auth_count ++ htons h.add_count))))

-- The header at the start of a block, through a `DNS_HEADER*`.
unfoldable pub decode : Bytes → Outcome DnsHeader
unfolding ntohs_at
decode block = do
  id ← ntohs_at block 0
  flags ← load block 2
  codes ← load block 3
  q_count ← ntohs_at block 4
  ans_count ← ntohs_at block 6
  auth_count ← ntohs_at block 8
  add_count ← ntohs_at block 10
  ok (record {
    id = id;
    rd = flags % 2;
    tc = flags / 2 % 2;
    aa = flags / 4 % 2;
    opcode = flags / 8 % 16;
    qr = flags / 128 % 2;
    rcode = codes % 16;
    cd = codes / 16 % 2;
    ad = codes / 32 % 2;
    z = codes / 64 % 2;
    ra = codes / 128 % 2;
    q_count = q_count;
    ans_count = ans_count;
    auth_count = auth_count;
    add_count = add_count;
  })
