-- ===== src/Kemtls/PkChunk/Base.antt =====
-- The base of the received key: every fragment below it is there, and it reaches the end exactly
-- when all of them are.
use native.Mathlib.Nat.{lt-div-mul-add, div-mul-le_self}
use pq_key_establishment_mav.Base.{
  ℕ, ◌+◌, ◌-◌, ◌*◌, ◌/◌, ◌≤◌, ◌<◌, ◌≡◌, sym, ◌∙◌, List, arith, get_or, Bool, true, false, ltb,
  Bool-cases, inl, inr, ltb→lt,
}
use pq_key_establishment_mav.Base.Bytes.Laws.{get_elem?_ext, get_elem?_beyond}
use pq_key_establishment_mav.Kemtls.Types.{HqcRxBuf, pk_chunks, chunks_of}
use pq_key_establishment_mav.Kemtls.Stream.Chunks.{chunks_of_iff}
use pq_key_establishment_mav.Kemtls.PkChunk.{next_base, base_bytes, advance}
use pq_key_establishment_mav.Kemtls.PkChunk.Store.{advance_passed, advance_bounds, advance_stops}
use pq_key_establishment_mav.Kemtls.PkChunk.Assembly.{Receives}

-- The receive buffer after the base has moved on.
abbrev pub moved : HqcRxBuf → HqcRxBuf
moved rx = record rx { pke_rcvd = base_bytes rx (next_base rx) }

mul_below : (i k m : ℕ) → i < k → i * m + m ≤ k * m
mul_below i k m h = grind arith

below_of_mul : (i k m : ℕ) → i * m < k * m → i < k
below_of_mul i k m h = grind arith

clash : {b : Bool} → b ≡ true → b ≡ false → ⊥
clash p q = cc

module _ {key buf : List ℕ} {rx : HqcRxBuf} (v : Receives key buf rx) where
  below_base : (i : ℕ) → i < next_base rx → get_or rx.pke_acked i false ≡ true
  unfolding next_base
  below_base i h = elim (Bool-cases (ltb i (rx.pke_rcvd / rx.mtu))) [
    | inl e ↦ v.base i (
        ground (
          arith,
          v.mtu_pos,
          mul_below i (rx.pke_rcvd / rx.mtu) rx.mtu,
          div-mul-le_self rx.pke_rcvd rx.mtu,
        ))
    | inr n ↦
        advance_passed rx.pke_acked (pk_chunks rx - rx.pke_rcvd / rx.mtu) (rx.pke_rcvd / rx.mtu) i
          (ground arith) h
  ]

  pub Receives-moved : Receives key buf (moved rx)
  unfolding base_bytes pk_chunks
  Receives-moved = record {
    whole = v.whole;
    pos_len = v.pos_len;
    small = v.small;
    mtu_pos = v.mtu_pos;
    mtu_small = v.mtu_small;
    rcvd_le = ground arith;
    buffer = v.buffer;
    flags = v.flags;
    holds = v.holds;
    base = λ i p. below_base i (ground (arith, below_of_mul i (next_base rx) rx.mtu));
  }

  -- A base at the end of the key means that the buffer is the key.
  pub received_whole : rx.pk_len ≤ rx.pke_rcvd → buf ≡ key
  received_whole h = get_elem?_ext buf key λ j. elim (Bool-cases (ltb j rx.pk_len)) [
    | inl e ↦
        let near : (j / rx.mtu * rx.mtu ≤ j) × (j < j / rx.mtu * rx.mtu + rx.mtu) =
          (div-mul-le_self j rx.mtu, lt-div-mul-add v.mtu_pos) in
        v.holds.bytes (j / rx.mtu) j (v.base (j / rx.mtu) (ground (arith, near))) near.0 near.1
    | inr n ↦
        get_elem?_beyond buf j (ground (arith, v.whole, v.holds.same_size))
        ∙ sym (get_elem?_beyond key j (ground (arith, v.whole)))
  ]

  -- When no fragment is missing the base is at the end.
  pub moved_complete :
      ((i : ℕ) → i < pk_chunks rx → get_or rx.pke_acked i false ≡ true)
      → base_bytes rx (next_base rx) ≡ rx.pk_len
  unfolding next_base base_bytes pk_chunks
  moved_complete all = elim (Bool-cases (ltb base total)) [
    | inl e ↦ absurd (clash (all base (ltb→lt base total e)) (stops (ltb→lt base total e)))
    | inr n ↦ ground (
      arith,
      (chunks_of_iff rx.pk_len rx.mtu base v.mtu_pos (omega (arith, v.small, v.mtu_small))).1,
    )
  ]
    where
      total : ℕ
      total = chunks_of rx.pk_len rx.mtu

      start : ℕ
      start = rx.pke_rcvd / rx.mtu

      base : ℕ
      base = advance rx.pke_acked (total - start) start

      stops : base < total → get_or rx.pke_acked base false ≡ false
      stops h =
          advance_stops rx.pke_acked (total - start) start
            (omega (arith, advance_bounds rx.pke_acked (total - start) start))
