-- ===== src/Utp/Header/RoundTrip.antt =====
-- What `marshal` writes in plain terms, and that `unmarshal` reads it back.
use discv5_streams.Prelude.{
  ℕ, zero, suc, ◌+◌, ◌*◌, ◌/◌, ◌%◌, ◌≤◌, ◌<◌, ◌≡◌, ◌≢◌, refl, ap, ◌∙◌, List, [], ◌∷◌, ◌++◌, ==_refl,
  le→leb, length, length-append, take-append, drop-append, set-append, append_assoc, append-nil, u8,
  put16, put32, get16-put16, get32-put32, IsU16, IsU32, All, arith,
}
use discv5_streams.Utp.Header.{
  ExtensionField, Header, ok, unmarshal_extensions, unmarshal, extensions_size, marshal_extensions,
  marshal, st_max,
}

pub record IsField (e : ExtensionField) : Type 0 where
  pub typed : e.type ≢ 0
  pub short : length e.bytes < 256

-- The fields are in the ranges of their Go types.
pub record IsHeader (h : Header) : Type 0 where
  pub type_le : h.type ≤ st_max
  pub version_one : h.version ≡ 1
  pub conn_id_range : IsU16 h.conn_id
  pub timestamp_range : IsU32 h.timestamp
  pub timestamp_diff_range : IsU32 h.timestamp_diff
  pub wnd_size_range : IsU32 h.wnd_size
  pub seq_nr_range : IsU16 h.seq_nr
  pub ack_nr_range : IsU16 h.ack_nr
  pub fields : All IsField h.extensions

-- The type byte that announces the next extension.
abbrev pub first_type : List ExtensionField → ℕ
first_type [] = 0
first_type (e ∷ es) = e.type

abbrev pub layout : List ExtensionField → List ℕ
layout [] = []
layout (e ∷ es) = first_type es ∷ length e.bytes ∷ (e.bytes ++ layout es)

length-pivot {ℓ} :
    {A : Type ℓ} (pre post : List A) (x y : A)
    → length (pre ++ (x ∷ post)) ≡ length (pre ++ (y ∷ post))
length-pivot [] post x y = refl
length-pivot (z ∷ pre) post x y = ap suc (length-pivot pre post x y)

u8_of_byte : (n : ℕ) → n < 256 → u8 n ≡ n
u8_of_byte n h = omega arith

marshal_extensions-layout :
    (es : List ExtensionField) (pre post : List ℕ)
    → All IsField es
    → marshal_extensions es (pre ++ (0 ∷ post)) (length pre)
      ≡ ok (pre ++ (first_type es ∷ (post ++ layout es)))
unfolding marshal_extensions
marshal_extensions-layout [] pre post h = rw (set-append pre post 0 0, append-nil)
marshal_extensions-layout (e ∷ es) pre post h =
    let pre' : List ℕ = pre ++ (e.type ∷ post) in
    let post' : List ℕ = length e.bytes ∷ e.bytes in
    rw
      (
        u8_of_byte (length e.bytes) h.0.short,
        ==_refl (length e.bytes),
        set-append pre post 0 e.type,
        length-pivot pre post 0 e.type,
      )
      (marshal_extensions-layout es pre' post' h.1
        ∙ ap ok (append_assoc pre (e.type ∷ post) (first_type es ∷ (post' ++ layout es))))

length-layout : (es : List ExtensionField) → length (layout es) ≡ extensions_size es
unfolding extensions_size
length-layout [] = refl
length-layout (e ∷ es) = omega (arith, length-append e.bytes (layout es), length-layout es)

unmarshal_extensions-layout :
    (es : List ExtensionField) (rest : List ℕ) (fuel : ℕ) (t : ℕ)
    → All IsField es
    → first_type es ≡ t
    → extensions_size es ≤ fuel
    → unmarshal_extensions fuel t (layout es ++ rest) ≡ ok (extensions_size es, es)
unfolding unmarshal_extensions extensions_size
unmarshal_extensions-layout [] rest fuel t h e f = rw (← e)
unmarshal_extensions-layout (e ∷ es) rest fuel zero h p f = absurd (h.0.typed p)
unmarshal_extensions-layout (e ∷ es) rest zero (suc t) h p f = absurd (omega arith)
unmarshal_extensions-layout (e ∷ es) rest (suc fuel) (suc t) h p f =
    let ih = unmarshal_extensions-layout es rest fuel (first_type es) h.1 refl (omega arith) in
    rw
      (
        append_assoc e.bytes (layout es) rest,
        take-append e.bytes (layout es ++ rest),
        drop-append e.bytes (layout es ++ rest),
        ih,
      )
      (ground (arith, length-append e.bytes (layout es ++ rest)))

-- The bytes of a whole header.
abbrev pub encoding : Header → List ℕ
encoding h =
    (h.type * 16 + 1)
    ∷ first_type h.extensions
    ∷ (put16 h.conn_id
        ++ (put32 h.timestamp
            ++ (put32 h.timestamp_diff
                ++ (put32 h.wnd_size
                    ++ (put16 h.seq_nr ++ (put16 h.ack_nr ++ layout h.extensions))))))

pub length-encoding : (h : Header) → length (encoding h) ≡ 20 + extensions_size h.extensions
length-encoding h = omega (arith, length-layout h.extensions)

pub marshal-encoding :
    (cap : ℕ) (h : Header)
    → IsHeader h
    → 20 + extensions_size h.extensions ≤ cap
    → marshal cap h ≡ ok (encoding h)
unfolding marshal
marshal-encoding cap h v f = rw (
  le→leb _ _ f,
  marshal_extensions-layout h.extensions (u8 (h.type * 16 + 1) ∷ []) _ v.fields,
  u8_of_byte (h.type * 16 + 1) (omega arith),
)

first_byte_type : (t : ℕ) → (t * 16 + 1) / 16 ≡ t
first_byte_type t = omega arith

first_byte_version : (t : ℕ) → (t * 16 + 1) % 16 ≡ 1
first_byte_version t = omega arith

extensions_behind :
    (h : Header) (rest : List ℕ)
    → IsHeader h
    → unmarshal_extensions
        (length (layout h.extensions ++ rest))
        (first_type h.extensions)
        (layout h.extensions ++ rest)
      ≡ ok (extensions_size h.extensions, h.extensions)
extensions_behind h rest v =
    unmarshal_extensions-layout h.extensions rest _ _ v.fields refl
      (omega (arith, length-append (layout h.extensions) rest, length-layout h.extensions))

pub unmarshal-encoding :
    (h : Header) (rest : List ℕ)
    → IsHeader h
    → unmarshal (encoding h ++ rest) ≡ ok (length (encoding h), h)
unfolding unmarshal
unmarshal-encoding h rest v = ground (
  arith,
  first_byte_type h.type,
  first_byte_version h.type,
  extensions_behind h rest v,
  get16-put16 h.conn_id v.conn_id_range,
  get32-put32 h.timestamp v.timestamp_range,
  get32-put32 h.timestamp_diff v.timestamp_diff_range,
  get32-put32 h.wnd_size v.wnd_size_range,
  get16-put16 h.seq_nr v.seq_nr_range,
  get16-put16 h.ack_nr v.ack_nr_range,
  length-layout h.extensions,
)

-- A header whose fields are in the ranges of their types is written into a buffer that has room
-- for it, and reading it back, with any payload behind it, gives the header and its size.
pub unmarshal-marshal :
    (cap : ℕ) (h : Header) (rest : List ℕ)
    → IsHeader h
    → 20 + extensions_size h.extensions ≤ cap
    → (bytes : List ℕ) × (marshal cap h ≡ ok bytes)
      × (length bytes ≡ 20 + extensions_size h.extensions)
      × (unmarshal (bytes ++ rest) ≡ ok (length bytes, h))
unmarshal-marshal cap h rest v f =
    (encoding h, marshal-encoding cap h v f, length-encoding h, unmarshal-encoding h rest v)
