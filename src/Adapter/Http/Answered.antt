-- ===== src/Adapter/Http/Answered.antt =====
-- internal/adapter/httpclient.go: what a successful exchange says of the service's answer.
use gpu_bouncer.Base.{
  ℕ, zero, suc, [], String, ◌≡◌, refl, ap, ◌∙◌, ◌≤◌, none, List, ◌∷◌, arith, inl, inr, length,
  Option-cases, Result, done, Result-cases,
}
use gpu_bouncer.Adapter.Http.{
  Bytes, Request, Response, Stream, Answer, answered, unanswered, Sent, Net, Method, max_body, take,
  read_body, receive, send, do_json, encoded, decoded,
}

-- The whole body came, and it fits.
abbrev pub IsWhole : Stream → Type 0
IsWhole s = (s.broken ≡ none) × (length s.bytes ≤ max_body)

-- The service answered the request with a 2xx status and a whole body.
abbrev pub IsAnswered : Net → Request → Sent → Response → Type 0
IsAnswered net req sent r =
    (net.answer req sent ≡ answered r) × ((200 ≤ r.status) × (r.status ≤ 299)) × IsWhole r.body

length-take : {A : Type 0} (n : ℕ) (xs : List A) → n ≤ length xs → length (take n xs) ≡ n
unfolding take
length-take zero xs h = refl
length-take (suc n) [] h = absurd (omega arith)
length-take (suc n) (x ∷ xs) h = omega (arith, length-take n xs (omega arith))

read_body-IsWhole :
    (s : Stream) (data_ : Bytes) → read_body s ≡ done data_ → IsWhole s × (s.bytes ≡ data_)
unfolding read_body
read_body-IsWhole s data_ e = ground (arith, length-take (suc max_body) s.bytes)

receive-IsAnswered :
    (net : Net) (m : Method) (url : String) (a : Answer) (data_ : Bytes)
    → receive net m url a ≡ done data_
    → (r : Response) × (a ≡ answered r)
      × ((200 ≤ r.status) × (r.status ≤ 299))
      × IsWhole r.body
      × (r.body.bytes ≡ data_)
unfolding receive
receive-IsAnswered net m url (unanswered f) data_ e = cc
receive-IsAnswered net m url (answered r) data_ e = elim (Result-cases (read_body r.body)) [
  | inr (f, q) ↦ ground (arith, q)
  | inl (b, q) ↦
      let whole = read_body-IsWhole r.body b q in
      (r, refl, ground (arith, q), whole.0, whole.1 ∙ ground (arith, q))
]

send-IsAnswered :
    (net : Net) (req : Request) (sent : Sent) (data_ : Bytes)
    → (send net req sent).0 ≡ done data_
    → (r : Response) × IsAnswered net req sent r
      × (r.body.bytes ≡ data_)
      × ((send net req sent).1 ≡ req ∷ sent)
unfolding send
send-IsAnswered net req sent data_ e = elim (Result-cases (encoded net req.body)) [
  | inr (f, q) ↦ cc (rw (q, send) at e)
  | inl (b, q) ↦ elim (Option-cases (net.builds req.method req.url)) [
    | inr (f, p) ↦ cc (rw (q, p, send) at e)
    | inl p ↦
        let (r, a, two_hundred, whole, b) =
          receive-IsAnswered net req.method (net.redact_url req.url) (net.answer req sent) data_
            (rw (q, p, send) at e) in
        (r, (a, two_hundred, whole), b, rw (q, p, send))
  ]
]

decoded-done :
    {A : Type 0} (decode : Bytes → Result String A) (m : Method) (url : String) (data_ : Bytes)
    (a : A)
    → decoded decode m url (done data_) ≡ done a
    → decode data_ ≡ done a
decoded-done decode m url data_ a e = elim (Result-cases (decode data_)) [
  | inr (f, q) ↦ cc (rw (q, decoded) at e)
  | inl (b, q) ↦ let same : b ≡ a = cc (rw (q, decoded) at e) in q ∙ ap done same
]

-- `doJSON` succeeds only on a whole answer of at most 4 MiB with a 2xx status, which it decodes as it
-- came: a transport error, a redirect, another status, a body that broke off or is too large, and a
-- body that is not the expected JSON all fail. It sends the request once.
pub do_json-IsAnswered :
    {A : Type 0} (net : Net) (decode : Bytes → Result String A) (req : Request) (sent : Sent)
    (a : A)
    → (do_json net decode req sent).0 ≡ done a
    → (r : Response) × IsAnswered net req sent r
      × (decode r.body.bytes ≡ done a)
      × ((do_json net decode req sent).1 ≡ req ∷ sent)
unfolding do_json
do_json-IsAnswered net decode req sent a e = elim (Result-cases (send net req sent).0) [
  | inr (f, q) ↦ cc (rw q at e)
  | inl (data_, q) ↦
      let (r, k, b, l) = send-IsAnswered net req sent data_ q in
      let decodes = decoded-done decode req.method (net.redact_url req.url) data_ a (rw q at e) in
      (r, k, rw b decodes, l)
]
