-- ===== src/Dns/Report.antt =====
-- What dns.c prints of a response, `ngethostbyname` as a whole, and the program around it.
pub mod Answers
pub mod Agreement
pub mod Hostname
pub mod Session
mod Tests
use shadowc.Base.{
  ℕ, Option, none, some, List, [], ◌∷◌, ◌++◌, Bytes, true, false, set, replicate, ◌==◌,
}
use shadowc.Base.Text.{codes}
use shadowc.Memory.{
  Outcome, ok, fault, null_dereference, out_of_bounds_read, ◌>>=◌, c_string, store_all,
}
use shadowc.Asyncdns.Header.{ntohs_at}
use shadowc.Asyncdns.Response.{ResRecord, Malloc, qtype_a, load_address}
use shadowc.Dns.{Records, read_response, query_packet}

-- `T_NS`, and the type of an alias
abbrev pub t_ns : ℕ
t_ns = 2

abbrev pub t_cname : ℕ
t_cname = 5

-- What a line says behind a record's name.
pub data Saying : Type 0 where
  has_ipv4_address has_alias_name has_nameserver : Bytes → Saying

pub record Line : Type 0 where
  pub name : Bytes
  pub sayings : List Saying

module _ (inet_ntoa : Bytes → Bytes) (message : Bytes) where
  say_address : ResRecord → ℕ → Outcome (List Saying)
  say_address r type = elim (type == qtype_a) [
    | true ↦ do address ← load_address r.rdata; ok (has_ipv4_address (inet_ntoa address) ∷ [])
    | false ↦ ok []
  ]

  say_text : (Bytes → Saying) → ℕ → ResRecord → ℕ → Outcome (List Saying)
  say_text saying wanted r type = elim (type == wanted) [
    | true ↦ do text ← c_string r.rdata; ok (saying text ∷ [])
    | false ↦ ok []
  ]

  -- The bodies of the three loops.
  pub print_answer : ResRecord → Outcome Line
  unfolding say_address say_text
  print_answer r = do
    name ← c_string r.name
    type ← ntohs_at message r.resource
    address ← say_address r type
    alias ← say_text has_alias_name t_cname r type
    ok (record { name = name; sayings = address ++ alias })

  pub print_authority : ResRecord → Outcome Line
  unfolding say_text
  print_authority r = do
    name ← c_string r.name
    type ← ntohs_at message r.resource
    nameserver ← say_text has_nameserver t_ns r type
    ok (record { name = name; sayings = nameserver })

  pub print_additional : ResRecord → Outcome Line
  unfolding say_address
  print_additional r = do
    name ← c_string r.name
    type ← ntohs_at message r.resource
    address ← say_address r type
    ok (record { name = name; sayings = address })

  pub print_all : (ResRecord → Outcome Line) → List ResRecord → Outcome (List Line)
  print_all print [] = ok []
  print_all print (r ∷ records) = do
    line ← print r
    lines ← print_all print records
    ok (line ∷ lines)

  -- The three loops, over what was read.
  unfoldable pub print_response : Records → Outcome (List Line × List Line × List Line)
  unfolding print_all print_answer print_authority print_additional
  print_response records = do
    answers ← print_all print_answer records.answers
    auth ← print_all print_authority records.auth
    addit ← print_all print_additional records.addit
    ok (answers, auth, addit)

-- The datagram sent, where to, and the lines of the three sections.
pub record Lookup : Type 0 where
  pub server : Bytes
  pub packet : Bytes
  pub answers : List Line
  pub auth : List Line
  pub addit : List Line

-- `dns_servers[0]`
first_row : List Bytes → Outcome Bytes
first_row [] = fault out_of_bounds_read
first_row (server ∷ _) = ok server

-- `dns_servers`, ten rows of which two are filled. Without the file the loop reads through NULL;
-- with it the loop only assigns to its own variables.
unfoldable pub get_dns_servers : Option (List Bytes) → Outcome (List Bytes)
get_dns_servers none = fault null_dereference
get_dns_servers (some lines) =
    ok (set (set (replicate 10 []) 0 (codes "208.67.222.222")) 1 (codes "208.67.220.220"))

-- `scanf("%s", hostname)`. `word` is what that takes of the input: what is typed, up to the first
-- white space.
unfoldable pub read_hostname : Bytes → Bytes → Outcome Bytes
read_hostname hostname word = store_all hostname 0 (word ++ 0 ∷ [])

module _ (fuel pid : ℕ) (malloc : Malloc) (inet_ntoa : Bytes → Bytes) where
  -- `buf` is the stack array, `message` the same array after `recvfrom`. That `sendto` or
  -- `recvfrom` fails is only printed.
  unfoldable pub ngethostbyname : List Bytes → Bytes → Bytes → Bytes → ℕ → Outcome Lookup
  unfolding first_row
  ngethostbyname dns_servers buf message host query_type = do
    server ← first_row dns_servers
    packet ← query_packet fuel pid buf host query_type
    records ← read_response fuel malloc message
    (answers, auth, addit) ← print_response inet_ntoa message records
    ok (record { server = server; packet = packet; answers = answers; auth = auth; addit = addit })

  -- `hostname` is the stack array of 100 bytes, and `word` what `scanf` takes.
  unfoldable pub main : Option (List Bytes) → Bytes → Bytes → Bytes → Bytes → Outcome Lookup
  main resolv_conf hostname word buf message = do
    dns_servers ← get_dns_servers resolv_conf
    host ← read_hostname hostname word
    ngethostbyname dns_servers buf message host qtype_a
