-- ===== src/Asyncdns/Header/Laws.antt =====
-- The bit fields and counts of a header survive the way through memory.
use shadowc.Base.{
  ℕ, ◌+◌, ◌*◌, ◌/◌, ◌%◌, ◌<◌, ◌≡◌, ◌∙◌, ap, [], ◌∷◌, ◌++◌, Bytes, length, length-append,
  append_assoc, arith,
}
use shadowc.Memory.{ok, ◌>>=◌, load}
use shadowc.Memory.Laws.{load_at}
use shadowc.Asyncdns.Header.{DnsHeader, encode, decode, htons, ntohs_at}

-- Each field holds what its bits can hold.
pub record IsHeader (h : DnsHeader) : Type 0 where
  pub id_fits : h.id < 65536
  pub rd_fits : h.rd < 2
  pub tc_fits : h.tc < 2
  pub aa_fits : h.aa < 2
  pub opcode_fits : h.opcode < 16
  pub qr_fits : h.qr < 2
  pub rcode_fits : h.rcode < 16
  pub cd_fits : h.cd < 2
  pub ad_fits : h.ad < 2
  pub z_fits : h.z < 2
  pub ra_fits : h.ra < 2
  pub q_count_fits : h.q_count < 65536
  pub ans_count_fits : h.ans_count < 65536
  pub auth_count_fits : h.auth_count < 65536
  pub add_count_fits : h.add_count < 65536

short : (x : ℕ) → x < 65536 → (x / 256 % 256) * 256 + x % 256 ≡ x
short x h = omega arith

-- A number in network order is read back where it stands.
pub ntohs_at-htons :
    (x : ℕ) (pre post : Bytes) {block : Bytes} {i : ℕ}
    → block ≡ pre ++ (htons x ++ post)
    → i ≡ length pre
    → x < 65536
    → ntohs_at block i ≡ ok x
unfolding ntohs_at
ntohs_at-htons x pre post {block} {i} e h v =
    let high : ℕ = x / 256 % 256 in
    let low : ℕ = x % 256 in
    let one : load block i ≡ ok high = load_at pre high (low ∷ post) e h in
    let two : load block (i + 1) ≡ ok low =
      load_at (pre ++ high ∷ []) low post (e ∙ simp append_assoc)
        (omega (arith, length-append pre (high ∷ []))) in
    rw (one, ◌>>=◌, two) (ap ok (short x v))

-- A header whose fields are within their widths is read back from its bytes, whatever follows them.
pub decode-encode : (h : DnsHeader) (rest : Bytes) → IsHeader h → decode (encode h ++ rest) ≡ ok h
unfolding decode encode load
decode-encode h rest v = ap ok (λ i. record {
  id = short h.id v.id_fits i;
  rd = fits_rd i;
  tc = fits_tc i;
  aa = fits_aa i;
  opcode = fits_opcode i;
  qr = fits_qr i;
  rcode = fits_rcode i;
  cd = fits_cd i;
  ad = fits_ad i;
  z = fits_z i;
  ra = fits_ra i;
  q_count = short h.q_count v.q_count_fits i;
  ans_count = short h.ans_count v.ans_count_fits i;
  auth_count = short h.auth_count v.auth_count_fits i;
  add_count = short h.add_count v.add_count_fits i;
})
  where
    fits_rd : (h.rd + 2 * h.tc + 4 * h.aa + 8 * h.opcode + 128 * h.qr) % 2 ≡ h.rd
    fits_rd = omega arith

    fits_tc : (h.rd + 2 * h.tc + 4 * h.aa + 8 * h.opcode + 128 * h.qr) / 2 % 2 ≡ h.tc
    fits_tc = omega arith

    fits_aa : (h.rd + 2 * h.tc + 4 * h.aa + 8 * h.opcode + 128 * h.qr) / 4 % 2 ≡ h.aa
    fits_aa = omega arith

    fits_opcode : (h.rd + 2 * h.tc + 4 * h.aa + 8 * h.opcode + 128 * h.qr) / 8 % 16 ≡ h.opcode
    fits_opcode = omega arith

    fits_qr : (h.rd + 2 * h.tc + 4 * h.aa + 8 * h.opcode + 128 * h.qr) / 128 % 2 ≡ h.qr
    fits_qr = omega arith

    fits_rcode : (h.rcode + 16 * h.cd + 32 * h.ad + 64 * h.z + 128 * h.ra) % 16 ≡ h.rcode
    fits_rcode = omega arith

    fits_cd : (h.rcode + 16 * h.cd + 32 * h.ad + 64 * h.z + 128 * h.ra) / 16 % 2 ≡ h.cd
    fits_cd = omega arith

    fits_ad : (h.rcode + 16 * h.cd + 32 * h.ad + 64 * h.z + 128 * h.ra) / 32 % 2 ≡ h.ad
    fits_ad = omega arith

    fits_z : (h.rcode + 16 * h.cd + 32 * h.ad + 64 * h.z + 128 * h.ra) / 64 % 2 ≡ h.z
    fits_z = omega arith

    fits_ra : (h.rcode + 16 * h.cd + 32 * h.ad + 64 * h.z + 128 * h.ra) / 128 % 2 ≡ h.ra
    fits_ra = omega arith
