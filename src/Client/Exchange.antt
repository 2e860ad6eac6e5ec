-- ===== src/Client/Exchange.antt =====
-- What a connection of ida_plugin/protocol_client.py sends and delivers.
use dynvar_sync.Base.{
  ℕ, zero, suc, ◌≤◌, Bool, true, false, List, [], ◌∷◌, ◌++◌, length, map, Option, none, some, All,
  append_assoc, append-nil, Option-cases, ◌≡◌, ◌≢◌, inl, inr, refl, sym, ap, ◌∙◌, arith,
}
use dynvar_sync.Value.{Value, Fields}
use dynvar_sync.Broker.Protocol.{Bytes, Runtime}
use dynvar_sync.Broker.Reader.{split_line}
use dynvar_sync.Broker.Reader.Framing.{
  split, split-nil, split_line-none, split_line-some, split-append, split-rest,
}
use dynvar_sync.Client.{
  Client, drain_send_queue, messages_of, drain_receive_buffer, Received, timed_out, failed, chunk,
  Round, arrive, take_in, run_rounds, run, finish, new_client,
}

-- The messages of complete lines.
pub messages : Runtime → List Bytes → List Fields
messages r [] = []
messages r (line ∷ lines) = messages_of r line ++ messages r lines

messages-append :
    (r : Runtime) (ls ms : List Bytes) → messages r (ls ++ ms) ≡ messages r ls ++ messages r ms
unfolding messages
messages-append r [] ms = refl
messages-append r (line ∷ ls) ms =
    ap (λ x. messages_of r line ++ x) (messages-append r ls ms)
    ∙ sym (append_assoc (messages_of r line) (messages r ls) (messages r ms))

drain-split :
    (r : Runtime) (fuel : ℕ) (b : Bytes)
    → length b ≤ fuel
    → drain_receive_buffer r fuel b ≡ ((split b).1, messages r (split b).0)
unfolding drain_receive_buffer messages
drain-split r zero [] h = rw split-nil refl
drain-split r zero (c ∷ cs) h = absurd (omega arith)
drain-split r (suc fuel) b h = elim (Option-cases (split_line b)) [
  | inl e ↦ ground (arith, split_line-none b)
  | inr ((line, rest), e) ↦ ground (arith, split_line-some b line rest, drain-split r fuel rest)
]

sends_all :
    (ms : List Value) (accepts : ℕ) (c : Client)
    → length ms ≤ accepts
    → drain_send_queue accepts (map some ms) c ≡ record c { queue = []; written = c.written ++ ms }
unfolding drain_send_queue
sends_all [] accepts c h = rw (append-nil c.written) refl
sends_all (m ∷ ms) zero c h = absurd (omega arith)
sends_all (m ∷ ms) (suc accepts) c h =
    sends_all ms accepts (record c { written = c.written ++ m ∷ [] }) (omega arith)
    ∙ rw (append_assoc c.written (m ∷ []) ms) refl

-- The messages of a queue.
abbrev pub asked : List (Option Value) → List Value
asked [] = []
asked (none ∷ queue) = asked queue
asked (some message ∷ queue) = message ∷ asked queue

-- No chunk is empty, and no call of the socket fails.
abbrev pub Goes : Received → Type 0
Goes timed_out = Unit
Goes failed = ⊥
Goes (chunk bytes) = bytes ≢ []

-- Nobody stops the client in the round, and the socket takes what was queued.
pub record IsOpen (round : Round) : Type 0 where
  pub goes : Goes round.received
  pub running : round.stopped ≡ false
  pub whole : map some (asked round.queued) ≡ round.queued
  pub room : length (asked round.queued) ≤ round.accepts

pub queued_in : List Round → List Value
queued_in [] = []
queued_in (round ∷ rounds) = asked round.queued ++ queued_in rounds

pub bytes_of : Received → Bytes
bytes_of timed_out = []
bytes_of failed = []
bytes_of (chunk bytes) = bytes

pub bytes_in : List Round → Bytes
bytes_in [] = []
bytes_in (round ∷ rounds) = bytes_of round.received ++ bytes_in rounds

-- A client that waits in its loop.
Idle : Client → Type 0
Idle c = (c.queue ≡ []) × (c.stop_event ≡ false)

module _ (r : Runtime) where
  after_sending : Round → Client → Client
  after_sending round c = record c {
    queue = [];
    stop_event = false;
    written = c.written ++ asked round.queued;
  }

  sent-after :
      (round : Round) (c : Client)
      → IsOpen round
      → Idle c
      → drain_send_queue round.accepts (arrive round c).queue (arrive round c)
        ≡ after_sending round c
  unfolding arrive after_sending Idle
  sent-after round c goes (empty, running) =
      ap (λ q. drain_send_queue round.accepts q (arrive round c)) (rw empty (sym goes.whole))
      ∙ sends_all (asked round.queued) round.accepts (arrive round c) goes.room
      ∙ rw (running, goes.running) refl

  -- The round after the queue was sent.
  branch : Round → List Round → Bytes → Client → Bool → Client → Client
  branch round rounds buffer c stop sent = elim stop [
    | true ↦ arrive round c
    | false ↦ elim (take_in r round.received buffer sent).0 [
      | none ↦ (take_in r round.received buffer sent).1
      | some rest ↦ run_rounds r rounds rest (take_in r round.received buffer sent).1
    ]
  ]

  branch_on :
      (round : Round) (rounds : List Round) (buffer : Bytes) (c sent : Client) (rest : Bytes)
      (d : Client)
      → take_in r round.received buffer sent ≡ (some rest, d)
      → branch round rounds buffer c false sent ≡ run_rounds r rounds rest d
  unfolding branch
  branch_on round rounds buffer c sent rest d took =
      ap
        (λ (x : Option Bytes × Client). elim x.0 [
          | none ↦ x.1
          | some left ↦ run_rounds r rounds left x.1
        ])
        took

  step :
      (round : Round) (rounds : List Round) (buffer : Bytes) (c : Client)
      → IsOpen round
      → Idle c
      → run_rounds r (round ∷ rounds) buffer c
        ≡ branch round rounds buffer c false (after_sending round c)
  unfolding run_rounds branch arrive Idle
  step round rounds buffer c goes idle =
      let stop : (arrive round c).stop_event ≡ false = rw (idle.1, goes.running) refl in
      ap
        (λ b.
          branch round rounds buffer c b
            (drain_send_queue round.accepts (arrive round c).queue (arrive round c)))
        stop
      ∙ ap (branch round rounds buffer c false) (sent-after round c goes idle)

  Exchanged : List Round → Bytes → Client → Client → Type 0
  Exchanged rounds buffer c d =
      (d.written ≡ c.written ++ queued_in rounds)
      × (d.delivered ≡ c.delivered ++ messages r (split (buffer ++ bytes_in rounds)).0)
      × (d.queue ≡ [])

  -- What the buffer and the new bytes give is what the whole gives.
  joined :
      (buffer new later : Bytes)
      → messages r (split (buffer ++ new)).0
          ++ messages r (split ((split (buffer ++ new)).1 ++ later)).0
        ≡ messages r (split (buffer ++ (new ++ later))).0
  joined buffer new later =
      sym
        (messages-append r (split (buffer ++ new)).0 (split ((split (buffer ++ new)).1 ++ later)).0)
      ∙ ap (λ (x : List Bytes × Bytes). messages r x.0) (sym (split-append (buffer ++ new) later))
      ∙ ap (λ x. messages r (split x).0) (append_assoc buffer new later)

  -- The loop goes on after the bytes have come, with what is left of the last line.
  Taken : Received → Bytes → Client → Type 0
  Taken got buffer sent =
      (rest : Bytes) × (c : Client) × (take_in r got buffer sent ≡ (some rest, c))
      × (split rest ≡ ([], rest))
      × Idle c
      × (c.written ≡ sent.written)
      × ((later : Bytes)
          → sent.delivered ++ messages r (split (buffer ++ (bytes_of got ++ later))).0
            ≡ c.delivered ++ messages r (split (rest ++ later)).0)

  taken :
      (got : Received) (buffer : Bytes) (sent : Client)
      → Goes got
      → Idle sent
      → split buffer ≡ ([], buffer)
      → Taken got buffer sent
  unfolding Taken Idle take_in bytes_of
  taken timed_out buffer sent goes idle clean =
      (buffer, sent, refl, clean, idle, refl, λ later. refl)
  taken failed buffer sent goes idle clean = absurd goes
  taken (chunk []) buffer sent goes idle clean = absurd (goes refl)
  taken (chunk (b ∷ bs)) buffer sent goes idle clean =
      let whole = buffer ++ b ∷ bs in
      let drained = drain-split r (length whole) whole (omega arith) in
      (
        (split whole).1,
        record sent { delivered = sent.delivered ++ messages r (split whole).0 },
        rw drained refl,
        split-rest whole,
        idle,
        refl,
        λ later. sym (
            append_assoc sent.delivered (messages r (split whole).0)
              (messages r (split ((split whole).1 ++ later)).0)
            ∙ ap (λ x. sent.delivered ++ x) (joined buffer (b ∷ bs) later)),
      )

  exchange_from :
      (rounds : List Round) (buffer : Bytes) (c : Client)
      → All IsOpen rounds
      → Idle c
      → split buffer ≡ ([], buffer)
      → Exchanged rounds buffer c (run_rounds r rounds buffer c)
  unfolding Exchanged Idle Taken queued_in bytes_in messages run_rounds after_sending branch
  exchange_from [] buffer c goes idle clean = (
    sym (append-nil c.written),
    rw (append-nil buffer) (rw clean (sym (append-nil c.delivered))),
    idle.0,
  )
  exchange_from (round ∷ rounds) buffer c goes idle clean =
      let sent = after_sending round c in
      let (rest, d, took, clean', idle', same, gives) =
        taken round.received buffer sent goes.0.goes (refl, refl) clean in
      let (written, delivered, empty) = exchange_from rounds rest d goes.1 idle' clean' in
      let goes_on : run_rounds r (round ∷ rounds) buffer c ≡ run_rounds r rounds rest d =
        step round rounds buffer c goes.0 idle ∙ branch_on round rounds buffer c sent rest d took in
      (
        ap (λ (x : Client). x.written) goes_on
            ∙ written
            ∙ ap (λ x. x ++ queued_in rounds) same
            ∙ append_assoc c.written (asked round.queued) (queued_in rounds),
        ap (λ (x : Client). x.delivered) goes_on ∙ delivered ∙ sym (gives (bytes_in rounds)),
        ap (λ (x : Client). x.queue) goes_on ∙ empty,
      )

-- As long as nobody stops the client, no call of the socket fails and the broker does not end the
-- connection, a new client writes the hello and then every message that was queued, in order, and
-- keeps none back; and it delivers the messages of the complete lines of the bytes that came, in
-- order, however the socket cuts them into chunks.
pub exchange_complete :
    (r : Runtime) (hello : Value) (rounds : List Round)
    → All IsOpen rounds
    → ((run r true hello rounds new_client).written ≡ hello ∷ queued_in rounds)
      × ((run r true hello rounds new_client).delivered ≡ messages r (split (bytes_in rounds)).0)
      × ((run r true hello rounds new_client).queue ≡ [])
unfolding run finish new_client Exchanged Idle
exchange_complete r hello rounds goes =
    exchange_from r rounds [] (record new_client { written = hello ∷ []; connected = true }) goes
      (refl, refl) split-nil
