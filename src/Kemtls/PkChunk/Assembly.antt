-- ===== src/Kemtls/PkChunk/Assembly.antt =====
-- The fragments of a public key, in any order and as often as they come, put the key together.
use pq_key_establishment_mav.Base.{
  ℕ, ◌+◌, ◌-◌, ◌*◌, ◌/◌, ◌≤◌, ◌<◌, ◌≡◌, ◌∙◌, List, [], arith, length, get_elem?, get_or, set, take,
  drop, some, Bool, true, false, ltb, min, length-take, length-drop, Bool-cases, ◌⊎◌, inl, inr,
}
use pq_key_establishment_mav.Base.Bytes.{write_at}
use pq_key_establishment_mav.Base.Bytes.Laws.{
  write_at_fits, length-write_at, get_elem?-write_at, get_elem?-take, get_elem?-drop,
  get_elem?_beyond,
}
use pq_key_establishment_mav.Kemtls.Types.{HqcRxBuf, PkChunk, pk_chunks}
use pq_key_establishment_mav.Kemtls.PkChunk.Store.{get_or-set}

-- The fragments that have come hold the bytes of `key`; `buf` is the buffer.
pub record Holds (key buf : List ℕ) (mtu : ℕ) (acked : List Bool) : Type 0 where
  pub same_size : length buf ≡ length key
  pub bytes :
      (i j : ℕ)
      → get_or acked i false ≡ true
      → i * mtu ≤ j
      → j < i * mtu + mtu
      → get_elem? buf j ≡ get_elem? key j

-- The reception of `key`: the buffer, the flags, and a base below which every fragment is there.
pub record Receives (key buf : List ℕ) (rx : HqcRxBuf) : Type 0 where
  pub whole : length key ≡ rx.pk_len
  pub pos_len : 0 < rx.pk_len
  pub small : rx.pk_len ≤ 65536
  pub mtu_pos : 0 < rx.mtu
  pub mtu_small : rx.mtu ≤ 220
  pub rcvd_le : rx.pke_rcvd ≤ rx.pk_len
  pub buffer : rx.pke ≡ some buf
  pub flags : (rx.pke_acked ≡ []) ⊎ (length rx.pke_acked ≡ pk_chunks rx)
  pub holds : Holds key buf rx.mtu rx.pke_acked
  pub base : (i : ℕ) → i * rx.mtu < rx.pke_rcvd → get_or rx.pke_acked i false ≡ true

-- A fragment as the sender cuts it from `key`: aligned, full except at the end, its bytes those
-- of the key.
pub record IsFragment (key : List ℕ) (mtu : ℕ) (m : PkChunk) : Type 0 where
  pub aligned : m.offset ≡ m.offset / mtu * mtu
  pub inside : m.offset < length key
  pub full : m.count ≡ min mtu (length key - m.offset)
  pub content : take m.count m.payload ≡ take m.count (drop m.offset key)

ranges_apart : (i k mtu : ℕ) → i < k → i * mtu + mtu ≤ k * mtu
ranges_apart i k mtu h = grind arith

module _ {key buf : List ℕ} {mtu : ℕ} {acked : List Bool} (h : Holds key buf mtu acked)
    (m : PkChunk) (frag : IsFragment key mtu m) where
  fragment_size : length (take m.count m.payload) ≡ m.count
  fragment_size = rw frag.content (
      omega (
        arith,
        length-take m.count (drop m.offset key),
        length-drop m.offset key,
        frag.full,
        frag.inside,
      ))

  pub write_fragment : (out : List ℕ) × (write_at buf m.offset (take m.count m.payload) ≡ some out)
  write_fragment =
      write_at_fits buf m.offset (take m.count m.payload)
        (omega (arith, fragment_size, h.same_size, frag.full, frag.inside))

  module _ (out : List ℕ) (wrote : write_at buf m.offset (take m.count m.payload) ≡ some out) where
    -- Inside the fragment's range the key's bytes stand; outside nothing has changed.
    written : (j : ℕ) → m.offset ≤ j → j < m.offset + mtu → get_elem? out j ≡ get_elem? key j
    written j p q = elim (Bool-cases (ltb j (m.offset + m.count))) [
      | inl e ↦ ground (
        arith,
        get_elem?-write_at buf m.offset (take m.count m.payload) out j wrote,
        fragment_size,
        frag.content,
        get_elem?-take m.count (drop m.offset key) (j - m.offset),
        get_elem?-drop m.offset key (j - m.offset),
      )
      | inr n ↦ ground (
        arith,
        get_elem?-write_at buf m.offset (take m.count m.payload) out j wrote,
        fragment_size,
        frag.full,
        frag.inside,
        h.same_size,
        get_elem?_beyond buf j,
        get_elem?_beyond key j,
      )
    ]

    kept : (j : ℕ) → (j < m.offset) ⊎ (m.offset + mtu ≤ j) → get_elem? out j ≡ get_elem? buf j
    kept j p = ground (
      arith,
      get_elem?-write_at buf m.offset (take m.count m.payload) out j wrote,
      fragment_size,
      frag.full,
    )

    pub Holds-write :
        m.offset / mtu < length acked → Holds key out mtu (set acked (m.offset / mtu) true)
    Holds-write room = record {
      same_size = length-write_at buf m.offset (take m.count m.payload) out wrote ∙ h.same_size;
      bytes = λ i j g p q. ground (
        arith,
        get_or-set acked (m.offset / mtu) i true room,
        frag.aligned,
        written j,
        kept j,
        h.bytes i j,
        ranges_apart i (m.offset / mtu) mtu,
        ranges_apart (m.offset / mtu) i mtu,
      );
    }
