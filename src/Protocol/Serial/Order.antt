-- ===== src/Protocol/Serial/Order.antt =====
-- The order of the bytes through the queue of `SerialTransport`, whatever the thread and the caller
-- do in between.
use stiebel_eltron_heatpump.Prelude.{
  ℕ, ◌≡◌, refl, sym, ap, ◌∙◌, [], ◌∷◌, ◌++◌, append_assoc, append-nil, Option, none, some, Bool,
  true, false, inl, inr, Bool-cases,
}
use stiebel_eltron_heatpump.Errors.{Result, ok, err}
use stiebel_eltron_heatpump.Protocol.Frame.{Bytes}
use stiebel_eltron_heatpump.Protocol.Serial.{
  step_in, read_in, opened, SerialPort, SerialTransport, Reader, absent, checking, reading, holding,
  Both, open_serial, stop_reader, close_serial, write_serial, get_serial, reader_step,
}

abbrev pub held : Reader → Bytes
held absent = []
held checking = []
held reading = []
held (holding b) = b ∷ []

-- The bytes that were read and that no `get` has returned.
abbrev pub undelivered : SerialTransport → Bytes
undelivered s = s.queue ++ held s.reader

abbrev pub one_byte {ℓ} : {P : Type ℓ} → Option ℕ × P → Bytes
one_byte (none, _) = []
one_byte (some b, _) = b ∷ []

module _ (port : SerialPort) where
  abbrev read_at : Reader → Bool → port.State → Bytes
  read_at reading true p = one_byte (port.read_port p)
  read_at reading false p = []
  read_at absent _ p = []
  read_at checking _ p = []
  read_at (holding b) _ p = []

  -- What the next step of the thread takes from the port.
  abbrev pub taken : Both port → Bytes
  taken (s, p) = read_at s.reader s.is_open p

  -- One call of a method other than `get`, as far as it changes the state. A port is opened where no
  -- thread runs, as at first and after a `close`, which waits for the thread.
  pub data Calls (x y : Both port) : Type 0 where
    opens : x.0.reader ≡ absent → y ≡ (open_serial port x).1 → Calls x y
    stops : y ≡ (stop_reader port x).1 → Calls x y
    closes : x.0.reader ≡ absent → y ≡ (close_serial port x).1 → Calls x y
    writes : (bytes : Bytes) → y ≡ (write_serial port bytes x).1 → Calls x y

  -- From one state to the other, by steps of the thread and calls in any order, the first bytes are
  -- read from the port and the others are returned by `get`.
  pub data Runs (last : Both port) : Bytes → Bytes → Both port → Type 0 where
    finished : {x : Both port} → x ≡ last → Runs last [] [] x
    thread :
        {read got more : Bytes} {x : Both port}
        → Runs last more got (reader_step port x)
        → read ≡ taken x ++ more
        → Runs last read got x
    calls :
        {read got : Bytes} {x y : Both port}
        → Calls x y
        → Runs last read got y
        → Runs last read got x
    gets :
        {read got : Bytes} {b : ℕ} {x y : Both port}
        → get_serial port x ≡ (some b, y)
        → Runs last read got y
        → Runs last read (b ∷ got) x
    waits :
        {read got : Bytes} {x y : Both port}
        → get_serial port x ≡ (none, y)
        → Runs last read got y
        → Runs last read got x

  undelivered-read_in :
      (s : SerialTransport) (o : Option ℕ × port.State)
      → s.queue ++ one_byte o ≡ undelivered (read_in port o s).0
  undelivered-read_in s (none, p) = refl
  undelivered-read_in s (some b, p) = refl

  undelivered-step_in :
      (queue : Bytes) (reader : Reader) (is_open running : Bool) (p : port.State)
      → (queue ++ held reader) ++ read_at reader is_open p
        ≡ undelivered
            (step_in port reader (
              record { queue = queue; reader = reader; is_open = is_open; running = running },
              p,
            )).0
  undelivered-step_in queue absent is_open running p = append-nil (queue ++ [])
  undelivered-step_in queue checking is_open true p = append-nil (queue ++ [])
  undelivered-step_in queue checking is_open false p = append-nil (queue ++ [])
  undelivered-step_in queue reading true running p =
      ap (λ (x : Bytes). x ++ one_byte (port.read_port p)) (append-nil queue)
      ∙ undelivered-read_in
          (record { queue = queue; reader = reading; is_open = true; running = running })
          (port.read_port p)
  undelivered-step_in queue reading false running p = append-nil (queue ++ [])
  undelivered-step_in queue (holding b) is_open running p =
      append-nil (queue ++ b ∷ []) ∙ sym (append-nil (queue ++ b ∷ []))

  undelivered-reader_step :
      (x : Both port) → undelivered x.0 ++ taken x ≡ undelivered (reader_step port x).0
  unfolding reader_step
  undelivered-reader_step (s, p) = undelivered-step_in s.queue s.reader s.is_open s.running p

  undelivered-opened :
      (r : Result (Unit {0}) × port.State) (s : SerialTransport)
      → s.reader ≡ absent
      → undelivered (opened port r s).1.0 ≡ undelivered s
  undelivered-opened (ok u, p') s e = sym (ap (λ (r : Reader). s.queue ++ held r) e)
  undelivered-opened (err x, p') s e = refl

  undelivered-Calls : (x y : Both port) → Calls x y → undelivered y.0 ≡ undelivered x.0
  unfolding open_serial stop_reader close_serial write_serial
  undelivered-Calls (s, p) y (opens a e) =
      ap (λ (z : Both port). undelivered z.0) e ∙ undelivered-opened (port.open_port p) s a
  undelivered-Calls (s, p) y (stops e) = ap (λ (z : Both port). undelivered z.0) e
  undelivered-Calls (s, p) y (closes a e) =
      ap (λ (z : Both port). undelivered z.0) e
      ∙ elim (Bool-cases s.is_open) [ inl is ↦ rw is | inr closed ↦ rw closed ]
  undelivered-Calls (s, p) y (writes bytes e) =
      ap (λ (z : Both port). undelivered z.0) e
      ∙ elim (Bool-cases s.is_open) [ inl is ↦ rw is | inr closed ↦ rw closed ]

  undelivered-get :
      (queue : Bytes) (reader : Reader) (is_open running : Bool) (p : port.State) (o : Option ℕ)
      (y : Both port)
      → get_serial port
          (record { queue = queue; reader = reader; is_open = is_open; running = running }, p)
        ≡ (o, y)
      → queue ++ held reader ≡ one_byte (o, p) ++ undelivered y.0
  unfolding get_serial
  undelivered-get [] reader is_open running p o y h =
      ap (λ (z : Option ℕ × Both port). one_byte (z.0, p) ++ undelivered z.1.0) h
  undelivered-get (b ∷ queue) reader is_open running p o y h =
      ap (λ (z : Option ℕ × Both port). one_byte (z.0, p) ++ undelivered z.1.0) h

  -- Every byte that the thread reads is returned by `get` once and in the order of the port, or is
  -- still on its way: whatever steps the thread and the caller take, if the port is opened and closed
  -- only where no thread runs, what was on its way at first followed by what is read is what `get`
  -- returns followed by what is on its way in the end. Closing and opening drop nothing.
  pub Runs-undelivered :
      (last x : Both port) (read got : Bytes)
      → Runs last read got x
      → undelivered x.0 ++ read ≡ got ++ undelivered last.0
  Runs-undelivered last x read got (finished e) =
      append-nil (undelivered x.0) ∙ ap (λ (y : Both port). undelivered y.0) e
  Runs-undelivered last x read got (thread {more = more} r e) =
      ap (λ (y : Bytes). undelivered x.0 ++ y) e
      ∙ sym (append_assoc (undelivered x.0) (taken x) more)
      ∙ ap (λ (y : Bytes). y ++ more) (undelivered-reader_step x)
      ∙ Runs-undelivered last (reader_step port x) more got r
  Runs-undelivered last x read got (calls {y = y} c r) =
      ap (λ (z : Bytes). z ++ read) (sym (undelivered-Calls x y c))
      ∙ Runs-undelivered last y read got r
  Runs-undelivered last x read (b ∷ got) (gets {y = y} h r) =
      ap (λ (z : Bytes). z ++ read)
        (undelivered-get x.0.queue x.0.reader x.0.is_open x.0.running x.1 (some b) y h)
      ∙ ap (λ (z : Bytes). b ∷ z) (Runs-undelivered last y read got r)
  Runs-undelivered last x read got (waits {y = y} h r) =
      ap (λ (z : Bytes). z ++ read)
        (undelivered-get x.0.queue x.0.reader x.0.is_open x.0.running x.1 none y h)
      ∙ Runs-undelivered last y read got r
