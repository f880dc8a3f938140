-- ===== src/FileShare/Download.antt =====
-- cmd/file-share/transfers.go: `download` and the progress reader. The copy and the reporting loop run
-- side by side, so what happens to them is a list of steps in any order.
pub mod Reports
pub mod Completes
use discv5_streams.Prelude.{
  ℕ, ◌+◌, ◌-◌, ◌*◌, ◌/◌, ◌^◌, ◌≡◌, u64, min, Bool, true, false, not, ◌&&◌, Option, none, some, List,
  [], ◌∷◌, ◌++◌, ltb, ◌==◌, if◌then◌else◌,
}
use discv5_streams.FileShare.Average.{Floats, Sma, new_sma, sample, value}
use discv5_streams.FileShare.Transfers.{
  Transfer, TransferStatus, status_done, status_error, status_downloading,
}

-- The reporting loop's variables, with the count of the reader.
pub record Progress (F : Type 0) : Type 0 where
  pub bytes : ℕ
  pub last_read : ℕ
  pub last_bytes : ℕ
  pub sma : Sma F

-- `download` is refused, is copying, has copied and not yet closed its reader, or has returned.
pub data Stage : Type 0 where
  copying copied returned : Stage

-- `sent` has the reports that went to the main loop.
pub record Download (F : Type 0) : Type 0 where
  pub tx : Transfer
  pub left : ℕ
  pub written : ℕ
  pub stage : Stage
  pub progress : Progress F
  pub sent : List Transfer

-- A size is an int64, here as its 64 bits.
abbrev pub is_negative : ℕ → Bool
is_negative size = ltb 0x7fff_ffff_ffff_ffff size

abbrev pub eof_text : List ℕ
eof_text = b'E' ∷ b'O' ∷ b'F' ∷ []

-- What `client.Request` returns: an error, or a stream with the size that the server announced.
pub data Requested : Type 0 where
  refused : List ℕ → Requested
  streams : ℕ → Requested

pub data Happening : Type 0 where
  -- a read of the copy finds bytes at the source, its end, or an error
  reads : ℕ → Happening
  ends : Happening
  fails : List ℕ → Happening
  -- the ticker of the reporting loop
  ticks : ℕ → Happening
  -- `pr.close()` and what comes after it
  closes : Happening

module _ {F : Type 0} (f : Floats F) where
  abbrev pub update_transfer : Transfer → Download F → Download F
  update_transfer tx d = record d { tx = tx; sent = d.sent ++ (tx ∷ []) }

  abbrev pub first_progress : ℕ → Progress F
  first_progress now = record { bytes = 0; last_read = now; last_bytes = 0; sma = new_sma 10 }

  -- `download` up to the copy.
  unfoldable pub begin : ℕ → Requested → Transfer → Download F
  begin now (refused e) tx =
      let tx' = record tx { status = status_error; error = e } in
      record {
        tx = tx';
        left = 0;
        written = 0;
        stage = returned;
        progress = first_progress now;
        sent = tx' ∷ [];
      }
  begin now (streams size) tx =
      let tx' = record tx { status = status_downloading; size = size } in
      record {
        tx = tx';
        left = if is_negative size then 0 else size;
        written = 0;
        stage = copying;
        progress = first_progress now;
        sent = tx' ∷ [];
      }

  -- The error of `io.CopyN` after `written` bytes, when the copy ended with this one. An end that comes
  -- early is an error, and no count is below a negative size.
  unfoldable pub copy_error : ℕ → ℕ → Option (List ℕ) → Option (List ℕ)
  copy_error size written e =
      if written == size
      then none
      else if ltb written size && not (is_negative size)
      then elim e [ none ↦ some eof_text | some t ↦ some t ]
      else e

  unfoldable pub after_copy : Option (List ℕ) → Transfer → Transfer
  after_copy none tx = record tx { status = status_done }
  after_copy (some e) tx = record tx { status = status_error; error = e }

  unfoldable pub finish : Option (List ℕ) → Download F → Download F
  unfolding copy_error after_copy
  finish e d = record d { tx = after_copy (copy_error d.tx.size d.written e) d.tx; stage = copied }

  -- A read of the limited reader: at the limit it is at its end, and else it gets no more than the
  -- limit. `progressReader.Read` counts.
  unfoldable pub read_some : ℕ → Download F → Download F
  unfolding finish
  read_some n d = if d.left == 0 then finish none d else record d {
    left = d.left - min n d.left;
    written = d.written + min n d.left;
    progress = record (d.progress) { bytes = d.progress.bytes + min n d.left };
  }

  unfoldable pub read_end : Option (List ℕ) → Download F → Download F
  unfolding finish
  read_end e d = if d.left == 0 then finish none d else finish e d

  -- One round of `reportLoop`.
  unfoldable pub report : ℕ → Download F → Download F
  unfolding sample value
  report now d =
      let p = d.progress in
      let sma' = sample (f.ratio (p.bytes - p.last_bytes) (now - p.last_read)) p.sma in
      update_transfer (record (d.tx) { read_bytes = p.bytes; read_speed = f.round (value f sma') })
        (record d {
          progress = record { bytes = p.bytes; last_read = now; last_bytes = p.bytes; sma = sma' };
        })

  unfoldable pub close_reader : Download F → Download F
  close_reader d =
      update_transfer (record (d.tx) { read_bytes = d.written }) (record d { stage = returned })

  unfoldable pub happen : Happening → Stage → Download F → Download F
  unfolding read_some read_end report close_reader
  happen (reads n) copying d = read_some n d
  happen ends copying d = read_end none d
  happen (fails e) copying d = read_end (some e) d
  happen (ticks now) copying d = report now d
  happen (ticks now) copied d = report now d
  happen closes copied d = close_reader d
  happen h s d = d

  unfoldable pub happen_all : List Happening → Download F → Download F
  unfolding happen
  happen_all [] d = d
  happen_all (h ∷ hs) d = happen_all hs (happen h d.stage d)
