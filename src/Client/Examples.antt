-- ===== src/Client/Examples.antt =====
-- A connection of the client on a small input.
use dynvar_sync.Base.{
  ℕ, ◌==◌, pos, true, false, List, [], ◌∷◌, some, if◌then◌else◌, ◌≡◌, refl, arith,
}
use dynvar_sync.Value.{num, str, obj, field, end}
use dynvar_sync.Broker.Protocol.{Runtime, Loaded, parsed, decode_error}
use dynvar_sync.Broker.Reader.Framing.{split}
use dynvar_sync.Client.{Round, timed_out, chunk, new_client, run}
use dynvar_sync.Client.Exchange.{messages, queued_in, bytes_in, exchange_complete}

-- A line that starts with an `m` is a message.
abbrev loads_letter : List ℕ → Loaded
loads_letter [] = decode_error "empty"
loads_letter (c ∷ cs) =
    if c == b'm' then parsed (obj (field "type" (str "pc_update") end)) else decode_error "unknown"

abbrev letters : Runtime
letters = record {
  decode_utf8 = λ bytes. some bytes;
  loads = loads_letter;
  dumps = λ v. [];
  repr = λ v. "";
  str_of = λ v. "";
}

-- Two messages are queued while half a line comes, and then the other half and a bad line.
abbrev rounds : List Round
rounds =
    (record {
      queued = some (num (pos 1)) ∷ some (num (pos 2)) ∷ [];
      stopped = false;
      accepts = 2;
      received = chunk (b'm' ∷ []);
    })
    ∷ (record { queued = []; stopped = false; accepts = 0; received = timed_out })
    ∷ (record {
      queued = some (num (pos 3)) ∷ [];
      stopped = false;
      accepts = 1;
      received = chunk (10 ∷ b'x' ∷ 10 ∷ []);
    })
    ∷ []

one_delivered :
    (run letters true (str "hello") rounds new_client).delivered
    ≡ field "type" (str "pc_update") end ∷ []
unfolding run new_client
one_delivered = refl

exchange_complete_example :
    ((run letters true (str "hello") rounds new_client).written ≡ str "hello" ∷ queued_in rounds)
    × ((run letters true (str "hello") rounds new_client).delivered
        ≡ messages letters (split (bytes_in rounds)).0)
    × ((run letters true (str "hello") rounds new_client).queue ≡ [])
exchange_complete_example = exchange_complete letters (str "hello") rounds (
  record { goes = λ e. cc; running = refl; whole = refl; room = omega arith },
  (
    record { goes = tt; running = refl; whole = refl; room = omega arith },
    (record { goes = λ e. cc; running = refl; whole = refl; room = omega arith }, tt),
  ),
)
