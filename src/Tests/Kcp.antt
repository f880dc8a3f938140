-- ===== src/Tests/Kcp.antt =====
-- A KCP transfer at concrete inputs.
use discv5_streams.Prelude.{
  ℕ, ◌≡◌, refl, inl, Bool, true, false, Option, none, some, List, [], ◌∷◌, if◌then◌else◌, replicate,
  arith,
}
use discv5_streams.KcpXfer.{
  Server, on_start, accepts, rejects, times_out, calls, new_request, answer, waits, lookup_xfer,
}
use discv5_streams.KcpXfer.Answers.{Decided, calls-Decided, calls-waits}
use discv5_streams.KcpXfer.Packets.{conn_at, IsKeyed, on_packets}
use discv5_streams.KcpXfer.Packets.Stream.{written, read_all}
use discv5_streams.KcpXfer.Handshake.{StartRequest, StartResponse, Codec}
use discv5_streams.KcpXfer.Handshake.Linked.{IsCodec, talked, opened, transfer-reads}

abbrev server : Server
server = record { conns = []; xfers = []; has_handler = true }

abbrev deaf_server : Server
deaf_server = record { conns = []; xfers = []; has_handler = false }

-- A hash that says nothing.
abbrev zeros : List ℕ → List ℕ
zeros m = replicate 32 0

abbrev node : List ℕ
node = 1 ∷ 2 ∷ []

calls-Decided_example : Decided true 0 (
    calls
      (accepts ∷ times_out ∷ rejects ∷ [])
      (on_start zeros true (new_request node 9 [] 5) server).0)
calls-Decided_example =
    calls-Decided zeros node 9 [] 5 server accepts (times_out ∷ rejects ∷ []) refl

calls-waits_example :
    answer (calls (rejects ∷ []) (on_start zeros true (new_request node 9 [] 5) deaf_server).0)
    ≡ waits
calls-waits_example = calls-waits zeros node 9 [] 5 deaf_server true (rejects ∷ []) (inl refl)

-- A coding by the size, the hash and a flag.
decode_pair : List ℕ → Option StartRequest
decode_pair [] = none
decode_pair (n ∷ h) = some (record { size = n; hash = h })

decode_flag : List ℕ → Option StartResponse
decode_flag [] = some (record { accept = false })
decode_flag (b ∷ r) = some (record { accept = true })

abbrev flat : Codec
unfolding decode_pair decode_flag
flat = record {
  encode_request = λ r. r.size ∷ r.hash;
  decode_request = decode_pair;
  encode_response = λ r. if r.accept then 1 ∷ [] else [];
  decode_response = decode_flag;
}

flag_back : (b : Bool) → decode_flag (if b then 1 ∷ [] else []) ≡ some (record { accept = b })
unfolding decode_flag
flag_back true = refl
flag_back false = refl

flat-IsCodec : IsCodec flat
unfolding flat decode_pair
flat-IsCodec = record { requests = λ r. refl; responses = λ r. flag_back r.accept }

server-IsKeyed : (h : Bool) → IsKeyed (record { conns = []; xfers = []; has_handler = h })
unfolding lookup_xfer
server-IsKeyed h id x e = absurd (cc)

transfer-reads_example :
    read_all 2 1200 (
      conn_at 0 (
        on_packets
          (written
            (conn_at 0 (opened flat flat-IsCodec zeros node [] 4 9 (6 ∷ []) 5 deaf_server server).1)
            ((7 ∷ 8 ∷ []) ∷ (9 ∷ []) ∷ []))
          (talked flat flat-IsCodec zeros node [] 4 9 (6 ∷ []) 5 deaf_server server).1))
    ≡ (7 ∷ 8 ∷ []) ∷ (9 ∷ []) ∷ []
transfer-reads_example =
    transfer-reads flat flat-IsCodec zeros node [] 4 9 (6 ∷ []) 5 deaf_server server
      ((7 ∷ 8 ∷ []) ∷ (9 ∷ []) ∷ []) 1200 (server-IsKeyed false) (server-IsKeyed true) refl
      (λ m. refl) (omega arith, (omega arith, tt))
