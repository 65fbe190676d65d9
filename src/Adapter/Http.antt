-- ===== src/Adapter/Http.antt =====
-- internal/adapter/httpclient.go: one HTTP request of an adapter, and what counts as an answer.
-- The client of net/http, the encoding of bodies and the parsing of URLs are not in the repository:
-- `Net` answers each request as a function of those sent before it. A body is a list of bytes. The
-- log line of each request is left out.
pub mod Answered
use mathlib.Core.List.{reverse}
use gpu_bouncer.Base.{
  ℕ, zero, suc, String, ◌==◌, Bool, true, false, ◌&&◌, ◌||◌, not, Option, none, some, List, [], ◌∷◌,
  ◌++◌, ◌*◌, ltb, leb, eqb, length, if◌then◌else◌, Result, done, failed,
}

pub data Method : Type 0 where
  method_get method_post : Method

-- The bodies that the adapters send: an unload of a model with keep_alive 0, and `comfyUIFree`.
pub data Json : Type 0 where
  unload_request : (model : String) → Json
  free_request : (unload_models free_memory : Bool) → Json

abbrev pub Bytes : Type 0
Bytes = List ℕ

pub record Request : Type 0 where
  pub method : Method
  pub url : String
  pub body : Option Json
  pub headers : List (String × String)

-- A body's stream: its bytes, and the error after them if it does not end there.
pub record Stream : Type 0 where
  pub bytes : Bytes
  pub broken : Option String

pub record Response : Type 0 where
  pub status : ℕ
  pub location : String
  pub body : Stream

-- The error of `client.Do`: a `url.Error` or another.
pub data TransportError : Type 0 where
  url_error : (op url cause : String) → TransportError
  other_error : (cause : String) → TransportError

pub data Answer : Type 0 where
  answered : Response → Answer
  unanswered : TransportError → Answer

-- The requests sent so far, the last one first.
abbrev pub Sent : Type 0
Sent = List Request

-- `now` is the clock, and `cancelled` the error of a context that is done.
pub record Net : Type 0 where
  pub answer : Request → Sent → Answer
  pub encode : Json → Result String Bytes
  pub builds : Method → String → Option String
  pub redact_url : String → String
  pub now : Sent → ℕ
  pub cancelled : Sent → Option String

pub data BodyFault : Type 0 where
  body_too_large : BodyFault
  body_broken : (cause : String) → BodyFault

-- Why an exchange failed, one constructor for each error text.
pub data HttpFault : Type 0 where
  not_encoded : (url cause : String) → HttpFault
  not_built : (url cause : String) → HttpFault
  not_answered : (method : Method) (url : String) (cause : TransportError) → HttpFault
  redirected : (method : Method) (url : String) (status : ℕ) (location : String) → HttpFault
  not_read : (method : Method) (url : String) (cause : BodyFault) → HttpFault
  http_error : (method : Method) (url : String) (status : ℕ) (snippet : Bytes) → HttpFault
  not_json : (method : Method) (url cause : String) (snippet : Bytes) → HttpFault

-- `io.LimitReader`
unfoldable pub take : {A : Type 0} → ℕ → List A → List A
take zero xs = []
take (suc n) [] = []
take (suc n) (x ∷ xs) = x ∷ take n xs

-- `io.ReadAll` of a limited reader: at the limit the stream ends without its error.
abbrev pub read_limited : ℕ → Stream → Result String Bytes
read_limited limit s =
    if leb limit (length s.bytes)
    then done (take limit s.bytes)
    else elim s.broken [ none ↦ done s.bytes | some e ↦ failed e ]

abbrev pub max_body : ℕ
max_body = 4 * 1024 * 1024

abbrev pub within_limit : Result String Bytes → Result BodyFault Bytes
within_limit (failed e) = failed (body_broken e)
within_limit (done data_) =
    if ltb max_body (length data_) then failed body_too_large else done data_

unfoldable pub read_body : Stream → Result BodyFault Bytes
read_body s = within_limit (read_limited (suc max_body) s)

abbrev pub is_redirect : ℕ → Bool
is_redirect status = leb 300 status && leb status 399

abbrev pub is_success : ℕ → Bool
is_success status = leb 200 status && leb status 299

-- The white space of Unicode in UTF-8, of one byte, of two and of three.
abbrev space_1 : ℕ → Bool
space_1 a = (leb 9 a && leb a 13) || eqb a 32

abbrev space_2 : ℕ → ℕ → Bool
space_2 a b = eqb a 194 && (eqb b 133 || eqb b 160)

abbrev space_3 : ℕ → ℕ → ℕ → Bool
space_3 a b c =
    (eqb a 225 && eqb b 154 && eqb c 128)
    || (eqb a 226 && eqb b 128 && (leb 128 c && leb c 138 || eqb c 168 || eqb c 169 || eqb c 175))
    || (eqb a 226 && eqb b 129 && eqb c 159)
    || (eqb a 227 && eqb b 128 && eqb c 128)

unfoldable pub trim_front : (ℕ → Bool) → (ℕ → ℕ → Bool) → (ℕ → ℕ → ℕ → Bool) → Bytes → Bytes
trim_front p q r [] = []
trim_front p q r (a ∷ []) = if p a then [] else (a ∷ [])
trim_front p q r (a ∷ b ∷ []) = elim (p a) [
  | true ↦ trim_front p q r (b ∷ [])
  | false ↦ if q a b then [] else (a ∷ b ∷ [])
]
trim_front p q r (a ∷ b ∷ c ∷ xs) = elim (p a) [
  | true ↦ trim_front p q r (b ∷ c ∷ xs)
  | false ↦ elim (q a b) [
    | true ↦ trim_front p q r (c ∷ xs)
    | false ↦ elim (r a b c) [ true ↦ trim_front p q r xs | false ↦ a ∷ b ∷ c ∷ xs ]
  ]
]

-- `bytes.TrimSpace`
pub trim_space : Bytes → Bytes
trim_space xs = reverse (
    trim_front space_1 (λ b a. space_2 a b) (λ c b a. space_3 a b c)
      (reverse (trim_front space_1 space_2 space_3 xs)))

abbrev snippet_limit : ℕ
snippet_limit = 200

-- The bytes of "..." end a snippet that was cut.
abbrev cut_snippet : Bytes → Bytes
cut_snippet trimmed =
    if ltb snippet_limit (length trimmed)
    then take snippet_limit trimmed ++ b'.' ∷ b'.' ∷ b'.' ∷ []
    else trimmed

pub snippet : Bytes → Bytes
snippet data_ = cut_snippet (trim_space data_)

abbrev pub checked_body : Method → String → ℕ → Result BodyFault Bytes → Result HttpFault Bytes
checked_body method url status (failed e) = failed (not_read method url e)
checked_body method url status (done data_) =
    if not (is_success status)
    then failed (http_error method url status (snippet data_))
    else done data_

abbrev pub decoded :
    {A : Type 0}
    → (Bytes → Result String A)
    → Method
    → String
    → Result HttpFault Bytes
    → Result HttpFault A
decoded decode method url (failed e) = failed e
decoded decode method url (done data_) = elim (decode data_) [
  | failed e ↦ failed (not_json method url e (snippet data_))
  | done a ↦ done a
]

abbrev content_type : Option Json → List (String × String)
content_type none = []
content_type (some body) = ("Content-Type", "application/json") ∷ []

abbrev pub json_request : Method → String → Option Json → List (String × String) → Request
json_request method url body headers = record {
  method = method;
  url = url;
  body = body;
  headers = content_type body ++ ("Accept", "application/json") ∷ headers;
}

abbrev pub text_request : Method → String → Option Json → List (String × String) → Request
text_request method url body headers = record {
  method = method;
  url = url;
  body = body;
  headers = content_type body ++ headers;
}

module _ (net : Net) where
  abbrev pub redact_err : TransportError → TransportError
  redact_err (url_error op url cause) = url_error op (net.redact_url url) cause
  redact_err (other_error cause) = other_error cause

  abbrev named_location : String → String
  named_location location = if location == "" then "(no Location header)" else location

  -- The redirect is refused with the place it names.
  abbrev pub refuse_redirect : Method → String → Response → Option HttpFault
  refuse_redirect method url r =
      if not (is_redirect r.status)
      then none
      else some (redirected method url r.status (net.redact_url (named_location r.location)))

  -- From the answer to the bytes of a successful response.
  unfoldable pub receive : Method → String → Answer → Result HttpFault Bytes
  receive method url (unanswered e) = failed (not_answered method url (redact_err e))
  receive method url (answered r) = elim (refuse_redirect method url r) [
    | some e ↦ failed e
    | none ↦ checked_body method url r.status (read_body r.body)
  ]

  -- The request body is encoded, the request built and sent, and the answer judged.
  unfoldable pub encoded : Option Json → Result String (Option Bytes)
  encoded none = done none
  encoded (some body) = elim (net.encode body) [
    | done data_ ↦ done (some data_)
    | failed e ↦ failed e
  ]

  unfoldable pub send : Request → Sent → Result HttpFault Bytes × Sent
  send req sent = elim (encoded req.body) [
    | failed e ↦ (failed (not_encoded (net.redact_url req.url) e), sent)
    | done data_ ↦ elim (net.builds req.method req.url) [
      | some e ↦ (failed (not_built (net.redact_url req.url) e), sent)
      | none ↦ (receive req.method (net.redact_url req.url) (net.answer req sent), req ∷ sent)
    ]
  ]

  -- `doJSON`: `decode` is `json.Unmarshal` into the type asked for.
  unfoldable pub do_json :
      {A : Type 0} → (Bytes → Result String A) → Request → Sent → Result HttpFault A × Sent
  do_json decode req sent =
      let (reply, sent') = send req sent in
      (decoded decode req.method (net.redact_url req.url) reply, sent')

  -- `doText`
  unfoldable pub do_text : Request → Sent → Result HttpFault Bytes × Sent
  do_text req sent = elim (send req sent).0 [
    | failed e ↦ (failed e, (send req sent).1)
    | done data_ ↦ (done (trim_space data_), (send req sent).1)
  ]

-- A call whose answer is not decoded: `out` is nil.
abbrev pub discard : Bytes → Result {0, 0} String Unit
discard data_ = done tt
