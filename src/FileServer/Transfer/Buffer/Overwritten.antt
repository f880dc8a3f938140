-- ===== src/FileServer/Transfer/Buffer/Overwritten.antt =====
-- fileserver/utpsession.go: a payload that came early is overwritten by the next packet.
use discv5_streams.Prelude.{
  ℕ, zero, suc, ◌+◌, ◌-◌, ◌≤◌, ◌<◌, ◌≡◌, refl, ap, ◌∙◌, true, false, List, [], ◌∷◌, ◌++◌, ltb, ◌==◌,
  le→leb, lt→ltb, take_all, length, length-append, length-drop, take, drop, u16, sub16, IsU16,
  arith,
}
use discv5_streams.Utp.Seq.{seq_less, read_buffer_len}
use discv5_streams.Utp.Header.{st_fin}
use discv5_streams.FileServer.Transfer.Buffer.{
  Slice, in_buffer, SliceRx, slice_bytes, slice_length, decode_into, payload_slice, empty_slice,
  take_slice, consume_slices, keep_slice, deliver_slice,
}

drop_front : (n : ℕ) (xs ys : List ℕ) → n ≤ length xs → drop n (xs ++ ys) ≡ drop n xs ++ ys
drop_front zero xs ys h = refl
drop_front (suc n) [] ys h = absurd (omega arith)
drop_front (suc n) (x ∷ xs) ys h = drop_front n xs ys (omega arith)

take_front : (n : ℕ) (xs ys : List ℕ) → n ≤ length xs → take n (xs ++ ys) ≡ take n xs
take_front zero xs ys h = refl
take_front (suc n) [] ys h = absurd (omega arith)
take_front (suc n) (x ∷ xs) ys h = ap (λ l. x ∷ l) (take_front n xs ys (omega arith))

decode_into-fits :
    (text buffer : List ℕ)
    → length text ≤ length buffer
    → decode_into text buffer ≡ text ++ drop (length text) buffer
unfolding decode_into
decode_into-fits text buffer h = rw (le→leb (length text) (length buffer) h) refl

length-decode_into :
    (text buffer : List ℕ)
    → length text ≤ length buffer
    → length (decode_into text buffer) ≡ length buffer
length-decode_into text buffer h =
    ap length (decode_into-fits text buffer h)
    ∙ omega
        (arith, length-append text (drop (length text) buffer), length-drop (length text) buffer)

payload_slice-fits :
    (n : ℕ) (text buffer : List ℕ)
    → length text ≤ length buffer
    → payload_slice n text buffer ≡ in_buffer n (length text - n)
unfolding payload_slice
payload_slice-fits n text buffer h = rw (le→leb (length text) (length buffer) h) refl

-- A slice into the text that was decoded last.
slice_front :
    (n k : ℕ) (text buffer : List ℕ)
    → length text ≤ length buffer
    → n + k ≤ length text
    → take k (drop n (decode_into text buffer)) ≡ take k (drop n text)
slice_front n k text buffer fits h =
    ap (λ l. take k (drop n l)) (decode_into-fits text buffer fits)
    ∙ ap (λ l. take k l) (drop_front n text (drop (length text) buffer) (omega arith))
    ∙ take_front k (drop n text) (drop (length text) buffer) (omega (arith, length-drop n text))

-- The numbers of the next packet, and of the one behind it.
first_ahead : (a : ℕ) → IsU16 a → seq_less a (u16 (a + 1)) ≡ true
unfolding seq_less
first_ahead a h = ground arith

second_ahead : (a : ℕ) → IsU16 a → seq_less a (u16 (a + 2)) ≡ true
unfolding seq_less
second_ahead a h = ground arith

first_index : (a : ℕ) → IsU16 a → sub16 (sub16 (u16 (a + 1)) a) 1 ≡ 0
first_index a h = omega arith

second_index : (a : ℕ) → IsU16 a → sub16 (sub16 (u16 (a + 2)) a) 1 ≡ 1
second_index a h = omega arith

-- The slots after the early packet.
abbrev early_kept : Slice → ℕ → SliceRx → SliceRx
early_kept payload type r = record r {
  inbound = empty_slice ∷ record { seen = true; payload = payload; type = type } ∷ [];
  inbound_wnd = r.inbound_wnd + slice_length payload;
}

keeps_early :
    (type : ℕ) (payload : Slice) (r : SliceRx)
    → IsU16 r.ack_nr
    → r.inbound ≡ []
    → r.got_fin ≡ false
    → keep_slice (u16 (r.ack_nr + 2)) type payload r ≡ early_kept payload type r
unfolding keep_slice consume_slices
keeps_early type payload r h e f = rw (second_index r.ack_nr h, second_ahead r.ack_nr h, e, f) refl

-- Both payloads are taken in when the packet before them comes.
takes_both :
    (type type' : ℕ) (payload early : Slice) (r : SliceRx)
    → IsU16 r.ack_nr
    → r.got_fin ≡ false
    → (type == st_fin) ≡ false
    → ltb (length r.read_buf) read_buffer_len ≡ true
    → ltb (length (r.read_buf ++ slice_bytes r.buffer payload)) read_buffer_len ≡ true
    → (keep_slice (u16 (r.ack_nr + 1)) type payload (record r {
      inbound = empty_slice ∷ record { seen = true; payload = early; type = type' } ∷ [];
    })).read_buf
      ≡ (r.read_buf ++ slice_bytes r.buffer payload) ++ slice_bytes r.buffer early
unfolding keep_slice consume_slices take_slice
takes_both type type' payload early r h f t room more =
    rw (first_index r.ack_nr h, first_ahead r.ack_nr h, f, t, room, more) refl

deliver_slice-fits :
    (n seq_nr type : ℕ) (text : List ℕ) (r : SliceRx)
    → length text ≤ length r.buffer
    → deliver_slice n seq_nr type text r
      ≡ keep_slice seq_nr type
          (in_buffer n (length text - n))
          (record r { buffer = decode_into text r.buffer })
unfolding deliver_slice
deliver_slice-fits n seq_nr type text r h =
    ap (λ s. keep_slice seq_nr type s (record r { buffer = decode_into text r.buffer }))
      (payload_slice-fits n text r.buffer h)

-- The payload behind a header, as long as its text is the last one.
whole_payload :
    (m : ℕ) (text buffer : List ℕ)
    → length text ≤ length buffer
    → m ≤ length text
    → take (length text - m) (drop m (decode_into text buffer)) ≡ drop m text
whole_payload m text buffer fits h =
    slice_front m (length text - m) text buffer fits (omega arith)
    ∙ take_all (length text - m) (drop m text) (omega (arith, length-drop m text))

-- A connection has taken in all packets up to `ack_nr`, has room in its read buffer, and holds no packets.
-- The packet with the second next number comes early, and then the next one, which is at least as
-- long, fits the buffer of the session, and is not the last. Then what the user reads behind the
-- payload of the next packet is not the payload of the early one, but bytes of the next packet
-- that stand in its place.
pub deliver_slice-overwritten :
    (n m type type' : ℕ) (early next : List ℕ) (r : SliceRx)
    → IsU16 r.ack_nr
    → r.inbound ≡ []
    → r.got_fin ≡ false
    → (type' == st_fin) ≡ false
    → n ≤ length early
    → m ≤ length next
    → length early ≤ length next
    → length next ≤ length r.buffer
    → length r.read_buf + (length next - m) < read_buffer_len
    → (deliver_slice m
        (u16 (r.ack_nr + 1))
        type'
        next
        (deliver_slice n (u16 (r.ack_nr + 2)) type early r)).read_buf
      ≡ (r.read_buf ++ drop m next) ++ take (length early - n) (drop n next)
deliver_slice-overwritten n m type type' early next r h e f t hn hm longer fits room =
    let b = decode_into early r.buffer in
    let r1 : SliceRx = record r { buffer = b } in
    let kept = early_kept (in_buffer n (length early - n)) type r1 in
    let size = length-decode_into early r.buffer (omega arith) in
    let fits_b : length next ≤ length b = omega (arith, size) in
    let b2 = decode_into next b in
    let payload = whole_payload m next b fits_b hm in
    let old = slice_front n (length early - n) next b fits_b (omega arith) in
    let space : ltb (length r.read_buf) read_buffer_len ≡ true = lt→ltb _ _ (omega arith) in
    let more : ltb (length (r.read_buf ++ take (length next - m) (drop m b2))) read_buffer_len
        ≡ true =
      lt→ltb _ _
        (rw payload (omega (arith, length-append r.read_buf (drop m next), length-drop m next))) in
    ap (λ x. (deliver_slice m (u16 (r.ack_nr + 1)) type' next x).read_buf)
      (deliver_slice-fits n (u16 (r.ack_nr + 2)) type early r (omega arith)
        ∙ keeps_early type (in_buffer n (length early - n)) r1 h e f)
    ∙ ap (λ x. x.read_buf) (deliver_slice-fits m (u16 (r.ack_nr + 1)) type' next kept fits_b)
    ∙ takes_both type' type (in_buffer m (length next - m)) (in_buffer n (length early - n))
        (record kept { buffer = b2 }) h f t space more
    ∙ ap (λ x. (r.read_buf ++ x) ++ take (length early - n) (drop n b2)) payload
    ∙ ap (λ x. (r.read_buf ++ drop m next) ++ x) old
