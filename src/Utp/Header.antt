-- ===== src/Utp/Header.antt =====
-- utpconn/header.go: packet headers. `Marshal` fills a buffer in place through a pointer to the
-- last type byte; here the buffer is the list of the bytes written so far and the pointer an index.
pub mod RoundTrip
pub mod Bounds
use discv5_streams.Prelude.{
  ℕ, ◌+◌, ◌*◌, ◌/◌, ◌%◌, zero, suc, ◌||◌, List, [], ◌∷◌, ◌++◌, ltb, leb, ◌==◌, not, if◌then◌else◌,
  length, set, take, drop, u8, put16, put32, get16, get32,
}

abbrev pub st_data : ℕ
st_data = 0

abbrev pub st_fin : ℕ
st_fin = 1

abbrev pub st_state : ℕ
st_state = 2

abbrev pub st_reset : ℕ
st_reset = 3

abbrev pub st_syn : ℕ
st_syn = 4

abbrev pub st_max : ℕ
st_max = st_syn

abbrev pub extension_type_selective_ack : ℕ
extension_type_selective_ack = 1

pub record ExtensionField : Type 0 where
  pub type : ℕ
  pub bytes : List ℕ

pub record Header : Type 0 where
  pub type : ℕ
  pub version : ℕ
  pub conn_id : ℕ
  pub timestamp : ℕ
  pub timestamp_diff : ℕ
  pub wnd_size : ℕ
  pub seq_nr : ℕ
  pub ack_nr : ℕ
  pub extensions : List ExtensionField

pub data HeaderError : Type 0 where
  invalid_header ends_prematurely : HeaderError

-- A value, an `error`, or a panic (an index out of range, or one the code raises itself).
pub data Result (A : Type 0) : Type 0 where
  ok : A → Result A
  err : HeaderError → Result A
  panic : Result A

infixl 5 ◌>>=◌
abbrev pub ◌>>=◌ : {A B : Type 0} → Result A → (A → Result B) → Result B
ok a >>= f = f a
err e >>= f = err e
panic >>= f = panic

-- The pair is the number of bytes taken and the fields. A round takes two bytes at least, so the
-- length of the buffer is fuel enough; `panic` stands for fuel that has run out.
unfoldable pub unmarshal_extensions : ℕ → ℕ → List ℕ → Result (ℕ × List ExtensionField)
unmarshal_extensions fuel zero b = ok (0, [])
unmarshal_extensions fuel (suc t) [] = err ends_prematurely
unmarshal_extensions fuel (suc t) (next ∷ []) = err ends_prematurely
unmarshal_extensions zero (suc t) (next ∷ len ∷ b) = panic
unmarshal_extensions (suc fuel) (suc t) (next ∷ len ∷ b) =
    let rest = unmarshal_extensions fuel next (drop len b) in
    if ltb (length b + 2) (len + 2)
    then err ends_prematurely
    else do (n, ef) ← rest; ok (2 + len + n, record { type = suc t; bytes = take len b } ∷ ef)

-- The part of `Unmarshal` behind the check of the first byte. `b[20:]` panics on a short buffer.
unfoldable pub unmarshal_fields : ℕ → List ℕ → Result (ℕ × Header)
unmarshal_fields b0
      (b1 ∷ c0 ∷ c1 ∷ t0 ∷ t1 ∷ t2 ∷ t3 ∷ d0 ∷ d1 ∷ d2 ∷ d3 ∷ w0 ∷ w1 ∷ w2 ∷ w3 ∷ s0 ∷ s1 ∷ a0 ∷ a1
        ∷ rest) =
    do
      (n, ef) ← unmarshal_extensions (length rest) b1 rest
      ok (
        n + 20,
        record {
          type = b0 / 16;
          version = b0 % 16;
          conn_id = get16 c0 c1;
          timestamp = get32 t0 t1 t2 t3;
          timestamp_diff = get32 d0 d1 d2 d3;
          wnd_size = get32 w0 w1 w2 w3;
          seq_nr = get16 s0 s1;
          ack_nr = get16 a0 a1;
          extensions = ef;
        },
      )
unmarshal_fields b0 _ = panic

unfoldable pub unmarshal : List ℕ → Result (ℕ × Header)
unfolding unmarshal_fields
unmarshal [] = panic
unmarshal (b0 ∷ rest) =
    if ltb st_max (b0 / 16) || not (b0 % 16 == 1)
    then err invalid_header
    else unmarshal_fields b0 rest

unfoldable pub extensions_size : List ExtensionField → ℕ
extensions_size [] = 0
extensions_size (ext ∷ exts) = 2 + length ext.bytes + extensions_size exts

-- `out` is what is written, `type_at` the place of the last type byte.
pub marshal_extensions : List ExtensionField → List ℕ → ℕ → Result (List ℕ)
marshal_extensions [] out type_at = ok (set out type_at 0)
marshal_extensions (ext ∷ exts) out type_at =
    if u8 (length ext.bytes) == length ext.bytes
    then marshal_extensions exts
        (set out type_at ext.type ++ (0 ∷ u8 (length ext.bytes) ∷ ext.bytes)) (length out)
    else panic

pub marshal_basic : Header → List ℕ
marshal_basic h =
    u8 (h.type * 16 + 1)
    ∷ 0
    ∷ (put16 h.conn_id
        ++ (put32 h.timestamp
            ++ (put32 h.timestamp_diff
                ++ (put32 h.wnd_size ++ (put16 h.seq_nr ++ put16 h.ack_nr)))))

-- `p[:n]` panics beyond the capacity of the buffer, which is `cap`. The bytes are what it holds
-- in the end; the number that the code returns is their length.
unfoldable pub marshal : ℕ → Header → Result (List ℕ)
unfolding extensions_size marshal_basic marshal_extensions
marshal cap h =
    if leb (20 + extensions_size h.extensions) cap
    then marshal_extensions h.extensions (marshal_basic h) 1
    else panic
