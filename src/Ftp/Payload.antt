-- ===== src/Ftp/Payload.antt =====
-- A reply read back as a request.
use pq_key_establishment_mav.Base.{
  ◌^◌, ◌<◌, ◌≡◌, ◌==◌, Bool, true, false, not, if◌then◌else◌, length, arith,
}
use pq_key_establishment_mav.Base.Bytes.{le_bytes}
use pq_key_establishment_mav.Base.Bytes.Laws.{le_value-le_bytes}
use pq_key_establishment_mav.KeyFile.Header.{take_whole}
use pq_key_establishment_mav.Ftp.{Transaction, decode_request, encode_reply}

flag_read : (b : Bool) → not ((if b then 1 else 0) == 0) ≡ b
flag_read true = ground arith
flag_read false = ground arith

-- Whatever a reply carries, of a sequence number of 16 bits, an offset of 32 and 239 bytes, the other
-- side reads from its payload as it was sent.
pub decode_request-encode_reply :
    (t : Transaction)
    → t.seq_number < 2 ^ 16
    → t.offset < 2 ^ 32
    → length t.bytes ≡ 239
    → decode_request t.chan t.sysid t.compid (encode_reply t) ≡ t
unfolding decode_request encode_reply le_bytes
decode_request-encode_reply t h k l = λ i. record {
  offset = le_value-le_bytes 4 t.offset k i;
  chan = t.chan;
  seq_number = le_value-le_bytes 2 t.seq_number h i;
  opcode = t.opcode;
  req_opcode = t.req_opcode;
  burst_complete = flag_read t.burst_complete i;
  size = t.size;
  session = t.session;
  sysid = t.sysid;
  compid = t.compid;
  bytes = take_whole 239 t.bytes l i;
}
