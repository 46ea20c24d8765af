-- ===== src/Http/Laws.antt =====
-- What the request function returns and rejects with.
use smart_parcel_locker.Prelude.{
  ◌∙◌, Text, ok, err, >>=-eq-ok, Failure, ◌≡◌, refl, ◌↔◌, ◌or◌, [], List, sym, arith,
}
use smart_parcel_locker.Http.{
  Json, RequestInput, WireRequest, Answer, response, rejected, query_parts, read_answer,
  wire_request, join, create_taro_request,
}
use smart_parcel_locker.Http.Wire.{Sent, wire_request-Sent, wire_request_of_Sent}
use smart_parcel_locker.Http.Refusal.{IsSuccess, Denies, read_answer-eq-err}

-- The platform answers with a 2xx status and this content.
abbrev pub Answers : Answer → Json → Type 0
Answers (response r) content = IsSuccess r.status_code × (r.content ≡ content)
Answers rejected content = ⊥

read_answer-eq-ok_iff :
    (a : Answer) (content : Json) → (read_answer a ≡ ok content) ↔ Answers a content
unfolding read_answer
read_answer-eq-ok_iff rejected content = ground arith
read_answer-eq-ok_iff (response r) content = ground arith

module _ (send : WireRequest → Answer) (base : Text) (input : RequestInput) where
  answer_of :
      (parts : List Text)
      → query_parts (input.query or []) ≡ ok parts
      → create_taro_request send base input
        ≡ read_answer (send (wire_request base input (join parts)))
  unfolding create_taro_request
  answer_of parts p = rw p refl

  Sent-of_ok :
      (content : Json)
      → create_taro_request send base input ≡ ok content
      → (wire : WireRequest) × Sent base input wire × Answers (send wire) content
  unfolding create_taro_request
  Sent-of_ok content h =
      let (parts, p, q) = >>=-eq-ok (query_parts (input.query or [])) _ h in
      (
        wire_request base input (join parts),
        wire_request-Sent base input parts p,
        (read_answer-eq-ok_iff _ content).0 q,
      )

  ok_of_Sent :
      (content : Json)
      → (wire : WireRequest) × Sent base input wire × Answers (send wire) content
      → create_taro_request send base input ≡ ok content
  ok_of_Sent content (wire, sent, answers) =
      let (parts, p, e) = wire_request_of_Sent base input wire sent in
      answer_of parts p ∙ (read_answer-eq-ok_iff _ content).1 (rw e at answers)

  -- A request gives a content exactly when its query can be encoded and the platform answers the
  -- request for it with a 2xx status and this content. Such a request has the address of the base
  -- without a slash at its end, the path, and behind `?` each entry of the query that has a value, as
  -- `key=value`, both encoded, with `&` in between; it has the method of the input, or GET, and the
  -- body and the header that go with it.
  pub create_taro_request-eq-ok_iff :
      (content : Json)
      → (create_taro_request send base input ≡ ok content)
        ↔ ((wire : WireRequest) × Sent base input wire × Answers (send wire) content)
  create_taro_request-eq-ok_iff content = (Sent-of_ok content, ok_of_Sent content)

  -- Where the platform is sent a request, what is thrown is an `AppError`. If the platform rejects,
  -- it is a network failure with its own message and no trace. Otherwise the status is not 2xx; the
  -- code is the one that the body names as its reason, or else as its code, or else that of the
  -- status (404: not found, 403: permission denied, any other: unknown); the message is that of the
  -- body, or a general one if it has none, and the trace is the id of the request if there is one.
  pub create_taro_request-eq-err :
      (wire : WireRequest) (f : Failure)
      → Sent base input wire
      → create_taro_request send base input ≡ err f
      → Denies (send wire) f
  create_taro_request-eq-err wire f sent h =
      let (parts, p, e) = wire_request_of_Sent base input wire sent in
      rw e (
        read_answer-eq-err (send (wire_request base input (join parts))) f
          (sym (answer_of parts p) ∙ h))
