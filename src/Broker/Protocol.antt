-- ===== src/Broker/Protocol.antt =====
-- broker/protocol.py: the envelope of a message, its validation, and the broker's own replies.
-- What the interpreter gives (UTF-8, `json`, `repr` and `str` of a value) is the record `Runtime`.
use dynvar_sync.Base.{
  ℕ, ◌==◌, ◌||◌, ◌&&◌, leb, ℤ, pos, String, Bool, true, false, List, [], ◌∷◌, Option, none, some,
  if◌then◌else◌,
}
use dynvar_sync.Broker.Role
use dynvar_sync.Broker.Kind
use dynvar_sync.Value.{
  Value, bool, num, str, obj, Fields, end, field, get_field, as_int, equals_int, as_dict, hashable,
  in_texts,
}

abbrev pub Bytes : Type 0
Bytes = List ℕ

-- What `json.loads` does with a text.
pub data Loaded : Type 0 where
  parsed : Value → Loaded
  decode_error : String → Loaded

-- `decode_utf8` gives code points; `loads` and `dumps` are the `json` functions; `encode_utf8` is
-- the encoding of a dumped text.
pub record Runtime : Type 0 where
  pub decode_utf8 : Bytes → Option (List ℕ)
  pub loads : List ℕ → Loaded
  pub dumps : Value → Bytes
  pub repr : Value → String
  pub str_of : Value → String

abbrev protocol_version : ℤ
protocol_version = pos 1

abbrev supported_roles : List String
supported_roles = Role.ida ∷ Role.windbg ∷ Role.broker ∷ []

abbrev supported_message_types : List String
supported_message_types =
    Kind.hello ∷ Kind.hello_ack ∷ Kind.pc_update ∷ Kind.ida_pc_mapped ∷ Kind.reg_request
    ∷ Kind.reg_response ∷ Kind.mem_request ∷ Kind.mem_response ∷ Kind.error ∷ []

pub data ProtocolError : Type 0 where
  empty_line not_an_object bad_id bad_payload : ProtocolError
  invalid_json : String → ProtocolError
  bad_version bad_type bad_role : Value → ProtocolError

-- What a decoded or validated message may raise. Only `ProtocolError` is caught by the reader.
pub data Raised : Type 0 where
  protocol_error : ProtocolError → Raised
  unicode_error type_error value_error : Raised

pub data Result {ℓ} (A : Type ℓ) : Type ℓ where
  raises : Raised → Result A
  ok : A → Result A

infixl 5 ◌>>=◌ ◌>>◌
abbrev pub ◌>>=◌ {ℓ κ} : {A : Type ℓ} {B : Type κ} → Result A → (A → Result B) → Result B
raises e >>= f = raises e
ok a >>= f = f a

-- What is left of a check that passes is the rest of the code.
abbrev pub ◌>>◌ {ℓ} : {B : Type ℓ} → Result (Unit {0}) → Result B → Result B
check >> rest = check >>= (λ passed. rest)

-- The white space that `str.strip` removes, and that of `bytes.strip`.
unfoldable pub is_space : ℕ → Bool
is_space c =
    (leb 9 c && leb c 13)
    || (leb 28 c && leb c 32)
    || c == 133
    || c == 160
    || c == 0x1680
    || (leb 0x2000 c && leb c 0x200a)
    || c == 0x2028
    || c == 0x2029
    || c == 0x202f
    || c == 0x205f
    || c == 0x3000

unfoldable pub is_byte_space : ℕ → Bool
is_byte_space c = (leb 9 c && leb c 13) || c == 32

unfoldable lstrip : (ℕ → Bool) → List ℕ → List ℕ
lstrip space [] = []
lstrip space (c ∷ cs) = let rest = lstrip space cs in if space c then rest else c ∷ cs

-- One step of `rstrip`, over what is left of the rest.
unfoldable rstrip_cons : (ℕ → Bool) → ℕ → List ℕ → List ℕ
rstrip_cons space c [] = if space c then [] else c ∷ []
rstrip_cons space c (d ∷ ds) = c ∷ d ∷ ds

unfoldable rstrip : (ℕ → Bool) → List ℕ → List ℕ
unfolding rstrip_cons
rstrip space [] = []
rstrip space (c ∷ cs) = rstrip_cons space c (rstrip space cs)

unfoldable pub strip : (ℕ → Bool) → List ℕ → List ℕ
unfolding lstrip rstrip
strip space cs = rstrip space (lstrip space cs)

-- What `json.loads` returned, as a message.
abbrev message_of : Loaded → Result Fields
message_of (decode_error msg) = raises (protocol_error (invalid_json msg))
message_of (parsed (obj d)) = ok d
message_of (parsed _) = raises (protocol_error not_an_object)

abbrev decode_text : Runtime → List ℕ → Result Fields
decode_text r [] = raises (protocol_error empty_line)
decode_text r (c ∷ cs) = message_of (r.loads (c ∷ cs))

-- A line of bytes. UnicodeDecodeError is not a ProtocolError.
unfoldable pub decode_jsonl_line : Runtime → Bytes → Result Fields
unfolding strip is_space
decode_jsonl_line r line = elim (r.decode_utf8 line) [
  | none ↦ raises unicode_error
  | some text ↦ decode_text r (strip is_space text)
]

unfoldable check_protocol_version : Fields → Bool
unfolding equals_int get_field
check_protocol_version message = equals_int (get_field "protocol" message) protocol_version

-- A validated message, with the parts that the checks have read.
pub record Message : Type 0 where
  pub kind : String
  pub id : Value
  pub role : String
  pub payload : Fields
  pub body : Fields

unfoldable check_version : Fields → Result (Unit {0})
unfolding check_protocol_version
check_version message =
    if check_protocol_version message
    then ok tt
    else raises (protocol_error (bad_version (get_field "protocol" message)))

unfoldable check_id : Value → Result Value
unfolding as_int
check_id v = elim (as_int v) [ none ↦ raises (protocol_error bad_id) | some z ↦ ok v ]

-- `v in SET`, with the error that the code raises when it is not.
unfoldable check_member : List String → ProtocolError → Value → Result String
unfolding hashable
check_member set e (str s) = if in_texts (str s) set then ok s else raises (protocol_error e)
check_member set e v = if hashable v then raises (protocol_error e) else raises type_error

unfoldable check_payload : Value → Result Fields
unfolding as_dict
check_payload v = elim (as_dict v) [ none ↦ raises (protocol_error bad_payload) | some d ↦ ok d ]

unfoldable pub validate_message_shape : Fields → Result Message
unfolding check_version check_id check_member check_payload get_field
validate_message_shape message = do
  check_version message
  id ← check_id (get_field "id" message)
  kind ←
      check_member supported_message_types (bad_type (get_field "type" message))
        (get_field "type" message)
  role ←
      check_member supported_roles (bad_role (get_field "role" message)) (get_field "role" message)
  payload ← check_payload (get_field "payload" message)
  ok (record { kind = kind; id = id; role = role; payload = payload; body = message })

-- `payload or {}` is the payload itself, an empty one included.
unfoldable pub make_envelope : String → String → Fields → Value → Value
make_envelope kind role payload id = obj (
    field "protocol" (num protocol_version) (
      field "id" id
        (field "type" (str kind) (field "role" (str role) (field "payload" (obj payload) end)))))

unfoldable pub create_hello_ack : Value → Value
unfolding make_envelope
create_hello_ack id =
    make_envelope Kind.hello_ack Role.broker
      (field "ok" (bool true) (field "broker_version" (str "0.1") end)) id

abbrev optional {ℓ} : {A : Type ℓ} → String → (A → Value) → Option A → Fields → Fields
optional key value none d = d
optional key value (some a) d = field key (value a) d

-- The broker's calls leave the three options out.
unfoldable pub create_error :
    String → String → Value → Option ℤ → Option String → Option Fields → Value
unfolding make_envelope
create_error code message id pc_seq request_id details =
    make_envelope Kind.error Role.broker
      (field "ok" (bool false) (
        field "code" (str code) (
          field "message" (str message) (
            optional "pc_seq" num pc_seq
              (optional "request_id" str request_id (optional "details" obj details end))))))
      id
