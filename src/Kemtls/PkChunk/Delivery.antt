-- ===== src/Kemtls/PkChunk/Delivery.antt =====
-- `handle_hqc_pk_chunk` on the fragments of one key.
use pq_key_establishment_mav.Base.{
  ℕ, ◌/◌, ◌<◌, ◌≡◌, refl, ◌∙◌, List, arith, length, get_or, set, take, Option, some, Bool, true,
  false, Bool-cases, inl, inr, length-set,
}
use pq_key_establishment_mav.Base.Bytes.{write_at}
use pq_key_establishment_mav.Kemtls.Types.{HqcRxBuf, PkChunk, pk_chunks}
use pq_key_establishment_mav.Kemtls.Stream.Chunks.{div-lt-chunks_of}
use pq_key_establishment_mav.Kemtls.PkChunk.{store_fragment, acked_or_fresh}
use pq_key_establishment_mav.Kemtls.PkChunk.Store.{
  get_or-set, get_or-acked_or_fresh, length-acked_or_fresh,
}
use pq_key_establishment_mav.Kemtls.PkChunk.Assembly.{
  Holds, Receives, IsFragment, write_fragment, Holds-write,
}

-- What storing a fragment of the key gives.
pub record Stored (key : List ℕ) (rx : HqcRxBuf) (m : PkChunk) (r : Option HqcRxBuf) : Type 0 where
  pub rx' : HqcRxBuf
  pub buf' : List ℕ
  pub returns : r ≡ some rx'
  pub receives : Receives key buf' rx'
  pub arrived : get_or rx'.pke_acked (m.offset / rx.mtu) false ≡ true
  pub earlier : (i : ℕ) → get_or rx.pke_acked i false ≡ true → get_or rx'.pke_acked i false ≡ true
  pub same_session : rx'.session_id ≡ rx.session_id
  pub same_mtu : rx'.mtu ≡ rx.mtu
  pub same_len : rx'.pk_len ≡ rx.pk_len

module _ {key buf : List ℕ} {rx : HqcRxBuf} (v : Receives key buf rx) (m : PkChunk)
    (frag : IsFragment key rx.mtu m) where
  abbrev total : ℕ
  total = pk_chunks rx

  abbrev flags' : List Bool
  flags' = acked_or_fresh rx.pke_acked total

  abbrev at : ℕ
  at = m.offset / rx.mtu

  at-lt-total : at < total
  unfolding pk_chunks
  at-lt-total =
      div-lt-chunks_of m.offset rx.pk_len rx.mtu v.mtu_pos (omega (arith, v.small, v.mtu_small))
        (omega (arith, v.whole, frag.inside))

  room : at < length flags'
  room = rw (length-acked_or_fresh rx.pke_acked total v.flags) at-lt-total

  held : Holds key buf rx.mtu flags'
  held = record {
    same_size = v.holds.same_size;
    bytes = λ i j g. v.holds.bytes i j (rw (get_or-acked_or_fresh rx.pke_acked total i) at g);
  }

  store_seen : get_or flags' at false ≡ true → Stored key rx m (store_fragment rx buf m)
  unfolding pk_chunks
  store_seen seen = record {
    rx' = record rx { pke_acked = flags' };
    buf' = buf;
    returns = unfold store_fragment in rw seen;
    receives = record {
      whole = v.whole;
      pos_len = v.pos_len;
      small = v.small;
      mtu_pos = v.mtu_pos;
      mtu_small = v.mtu_small;
      rcvd_le = v.rcvd_le;
      buffer = v.buffer;
      flags = inr (length-acked_or_fresh rx.pke_acked total v.flags);
      holds = held;
      base = λ i p. get_or-acked_or_fresh rx.pke_acked total i ∙ v.base i p;
    };
    arrived = seen;
    earlier = λ i g. get_or-acked_or_fresh rx.pke_acked total i ∙ g;
    same_session = refl;
    same_mtu = refl;
    same_len = refl;
  }

  store_new : get_or flags' at false ≡ false → Stored key rx m (store_fragment rx buf m)
  unfolding pk_chunks
  store_new missing = record {
    rx' = record rx { pke = some out; pke_acked = set flags' at true };
    buf' = out;
    returns = unfold store_fragment in rw (missing, wrote);
    receives = record {
      whole = v.whole;
      pos_len = v.pos_len;
      small = v.small;
      mtu_pos = v.mtu_pos;
      mtu_small = v.mtu_small;
      rcvd_le = v.rcvd_le;
      buffer = refl;
      flags = inr (length-set flags' at true ∙ length-acked_or_fresh rx.pke_acked total v.flags);
      holds = Holds-write held m frag out wrote room;
      base = λ i p. later i (v.base i p);
    };
    arrived = ground (arith, get_or-set flags' at at true room);
    earlier = later;
    same_session = refl;
    same_mtu = refl;
    same_len = refl;
  }
    where
      out : List ℕ
      out = (write_fragment held m frag).0

      wrote : write_at buf m.offset (take m.count m.payload) ≡ some out
      wrote = (write_fragment held m frag).1

      later :
          (i : ℕ) → get_or rx.pke_acked i false ≡ true → get_or (set flags' at true) i false ≡ true
      later i g =
          ground
            (arith, get_or-set flags' at i true room, get_or-acked_or_fresh rx.pke_acked total i)

  -- A fragment of the key is always stored or already there, and the reception goes on.
  pub store_fragment-Stored : Stored key rx m (store_fragment rx buf m)
  store_fragment-Stored = elim (Bool-cases (get_or flags' at false)) [
    | inl seen ↦ store_seen seen
    | inr missing ↦ store_new missing
  ]
