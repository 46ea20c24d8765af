-- ===== src/Http/Refusal.antt =====
-- What a request is turned down with, described without the functions that read the answer.
use smart_parcel_locker.Prelude.{
  Option-cases, ◌∙◌, ◌or◌, ◌or_else◌, ◌||◌, sym, subst, ap, Bool-cases, ℕ, Text, text, text_eq,
  text_eq_iff, Option, none, some, [], ◌∷◌, err, Failure, app_error, AppError, AppErrorCode,
  network_failure, not_found, device_offline, permission_denied, unknown, ◌≡◌, ◌≢◌, refl, ◌⊎◌, inl,
  inr, arith, ◌≤◌, ◌<◌,
}
use smart_parcel_locker.Http.{
  leb, ltb, true, Json, object, string, Fields, end, field, Response, Answer, response, rejected,
  read_answer, read_error_body, get_field, as_string, known_error_code, bind_code, non_empty,
  fallback_code,
}

-- A field of this name holds this string; the first of two with the same name counts.
abbrev pub Holds : Text → Text → Fields → Type 0
Holds name t end = ⊥
Holds name t (field key value rest) =
    ((name ≡ key) × (value ≡ string t)) ⊎ ((name ≢ key) × Holds name t rest)

-- The string in a field of a body.
abbrev pub Says : Json → Text → Text → Type 0
Says (object body) name t = Holds name t body
Says _ name t = ⊥

-- The names of the codes in a body
abbrev pub code_name : AppErrorCode → Text
code_name network_failure = text "NETWORK_FAILURE"
code_name not_found = text "NOT_FOUND"
code_name device_offline = text "DEVICE_OFFLINE"
code_name permission_denied = text "PERMISSION_DENIED"
code_name unknown = text "UNKNOWN"

-- A body names a code: as its reason, or as its code where the reason is no string.
abbrev pub Names : Json → AppErrorCode → Type 0
Names body code =
    Says body (text "reason") (code_name code)
    ⊎ ((¬ ((t : Text) × Says body (text "reason") t)) × Says body (text "code") (code_name code))

-- The code that a status stands for where the body names none.
abbrev pub StandsFor : ℕ → AppErrorCode → Type 0
StandsFor status code =
    ((status ≡ 404) × (code ≡ not_found))
    ⊎ ((status ≡ 403) × (code ≡ permission_denied))
    ⊎ ((status ≢ 404) × (status ≢ 403) × (code ≡ unknown))

abbrev pub IsCode : Response → AppErrorCode → Type 0
IsCode r code =
    Names r.content code
    ⊎ ((¬ ((c : AppErrorCode) × Names r.content c)) × StandsFor r.status_code code)

abbrev pub IsMessage : Json → Text → Type 0
IsMessage body m =
    ((m ≢ []) × Says body (text "message") m)
    ⊎ ((¬ ((t : Text) × (t ≢ []) × Says body (text "message") t)) × (m ≡ text "请求失败"))

abbrev pub IsTrace : Option Text → Option Text → Type 0
IsTrace request_id trace =
    ((t : Text) × (t ≢ []) × (request_id ≡ some t) × (trace ≡ some t))
    ⊎ ((¬ ((t : Text) × (t ≢ []) × (request_id ≡ some t))) × (trace ≡ none))

abbrev pub IsSuccess : ℕ → Type 0
IsSuccess status = (200 ≤ status) × (status < 300)

-- The `AppError` of an answer that is turned down.
abbrev pub TurnedDown : Answer → AppError → Type 0
TurnedDown rejected e =
    (e.code ≡ network_failure) × (e.message ≡ text "网络连接失败") × (e.trace_id ≡ none)
TurnedDown (response r) e =
    (¬ IsSuccess r.status_code)
    × IsCode r e.code
    × IsMessage r.content e.message
    × IsTrace r.request_id e.trace_id

-- A failure that is the `AppError` of the answer.
abbrev pub Denies : Answer → Failure → Type 0
Denies a (app_error e) = TurnedDown a e
Denies a _ = ⊥

-- The string in a field, as the code reads it.
found : Json → Text → Option Text
found (object body) name = as_string (get_field name body)
found _ name = none

as_string_iff : (value : Json) (t : Text) → as_string (some value) ≡ some t → value ≡ string t
unfolding as_string
as_string_iff (string s) t h = let e : s ≡ t = cc (h) in ap string e
as_string_iff _ t h = cc (h)

Holds-of_found :
    (name t : Text) (body : Fields) → as_string (get_field name body) ≡ some t → Holds name t body
unfolding get_field as_string
Holds-of_found name t end h = cc (h)
Holds-of_found name t (field key value rest) h = elim (Bool-cases (text_eq name key)) [
  | inl same ↦ inl ((text_eq_iff name key).0 same, as_string_iff value t (rw same at h))
  | inr differs ↦
      inr (
        λ e. cc (differs, (text_eq_iff name key).1 e),
        Holds-of_found name t rest (rw differs at h),
      )
]

found_of_Holds :
    (name t : Text) (body : Fields) → Holds name t body → as_string (get_field name body) ≡ some t
unfolding get_field as_string
found_of_Holds name t end h = absurd h
found_of_Holds name t (field key value rest) (inl (p, q)) = rw ((text_eq_iff name key).1 p, q) refl
found_of_Holds name t (field key value rest) (inr (p, q)) = elim (Bool-cases (text_eq name key)) [
  | inl same ↦ absurd (p ((text_eq_iff name key).0 same))
  | inr differs ↦ rw differs (found_of_Holds name t rest q)
]

Says-of_found : (body : Json) (name t : Text) → found body name ≡ some t → Says body name t
unfolding found
Says-of_found (object body) name t h = Holds-of_found name t body h
Says-of_found _ name t h = cc (h)

found_of_Says : (body : Json) (name t : Text) → Says body name t → found body name ≡ some t
unfolding found
found_of_Says (object body) name t h = found_of_Holds name t body h
found_of_Says _ name t h = absurd h

silent : (body : Json) (name : Text) → found body name ≡ none → ¬ ((t : Text) × Says body name t)
silent body name h (t, s) = cc (h, found_of_Says body name t s)

-- The code and the message, from the fields.
code_found :
    (body : Json)
    → (read_error_body body).code
      ≡ bind_code (found body (text "reason") or_else found body (text "code"))
unfolding read_error_body found
code_found (object body) = refl
code_found _ = refl

message_found :
    (body : Json) → (read_error_body body).message ≡ non_empty (found body (text "message"))
unfolding read_error_body found
message_found (object body) = refl
message_found _ = refl

known_of_name : (c : AppErrorCode) → known_error_code (code_name c) ≡ some c
unfolding known_error_code text_eq text
known_of_name network_failure = refl
known_of_name not_found = refl
known_of_name device_offline = refl
known_of_name permission_denied = refl
known_of_name unknown = refl

named :
    (t : Text) (d c : AppErrorCode)
    → text_eq t (code_name d) ≡ true
    → some d ≡ some c
    → t ≡ code_name c
named t d c p h =
    let e : d ≡ c = cc (h) in (text_eq_iff t (code_name d)).0 p ∙ ap (λ x. code_name x) e

name_of_known : (t : Text) (c : AppErrorCode) → known_error_code t ≡ some c → t ≡ code_name c
unfolding known_error_code
name_of_known t c h = elim (Bool-cases (text_eq t (code_name network_failure))) [
  | inl p ↦ named t network_failure c p (rw p at h)
  | inr p ↦
      let h1 = rw p at h in
      elim (Bool-cases (text_eq t (code_name not_found))) [
        | inl q ↦ named t not_found c q (rw q at h1)
        | inr q ↦
            let h2 = rw q at h1 in
            elim (Bool-cases (text_eq t (code_name device_offline))) [
              | inl r ↦ named t device_offline c r (rw r at h2)
              | inr r ↦
                  let h3 = rw r at h2 in
                  elim (Bool-cases (text_eq t (code_name permission_denied))) [
                    | inl u ↦ named t permission_denied c u (rw u at h3)
                    | inr u ↦
                        let h4 = rw u at h3 in
                        elim (Bool-cases (text_eq t (code_name unknown))) [
                          | inl v ↦ named t unknown c v (rw v at h4)
                          | inr v ↦ cc (rw v at h4)
                        ]
                  ]
            ]
      ]
]

-- The text that the code is read from.
Source : Json → Text → Type 0
Source body t =
    Says body (text "reason") t
    ⊎ ((¬ ((u : Text) × Says body (text "reason") u)) × Says body (text "code") t)

first_sound :
    (body : Json) (a b : Option Text) (t : Text)
    → found body (text "reason") ≡ a
    → found body (text "code") ≡ b
    → (a or_else b) ≡ some t
    → Source body t
unfolding Source
first_sound body (some u) b t p q h = inl (Says-of_found body (text "reason") t (p ∙ h))
first_sound body none b t p q h =
    inr (silent body (text "reason") p, Says-of_found body (text "code") t (q ∙ h))

first_complete :
    (body : Json) (t : Text)
    → Source body t
    → (found body (text "reason") or_else found body (text "code")) ≡ some t
unfolding Source
first_complete body t (inl h) = rw (found_of_Says body (text "reason") t h) refl
first_complete body t (inr (none_there, h)) = elim (Option-cases (found body (text "reason"))) [
  | inl p ↦ rw p (found_of_Says body (text "code") t h)
  | inr (u, p) ↦ absurd (none_there (u, Says-of_found body (text "reason") u p))
]

Names-of_code :
    (body : Json) (c : AppErrorCode) → (read_error_body body).code ≡ some c → Names body c
unfolding Source
Names-of_code body c h =
    elim (Option-cases (found body (text "reason") or_else found body (text "code"))) [
      | inl p ↦ cc (rw p at (sym (code_found body) ∙ h))
      | inr (t, p) ↦
          let known : known_error_code t ≡ some c = rw p at (sym (code_found body) ∙ h) in
          subst (Source body) (name_of_known t c known) (first_sound body _ _ t refl refl p)
    ]

code_of_Names :
    (body : Json) (c : AppErrorCode) → Names body c → (read_error_body body).code ≡ some c
unfolding Source
code_of_Names body c h =
    code_found body ∙ ap (λ t. bind_code t) (first_complete body (code_name c) h) ∙ known_of_name c

fallback_code-StandsFor : (status : ℕ) → StandsFor status (fallback_code status)
unfolding fallback_code
fallback_code-StandsFor status = ground arith

IsCode-of_read :
    (r : Response) → IsCode r ((read_error_body r.content).code or fallback_code r.status_code)
IsCode-of_read r = elim (Option-cases (read_error_body r.content).code) [
  | inl p ↦
      rw p
        (inr (λ (c, h). cc (p, code_of_Names r.content c h), fallback_code-StandsFor r.status_code))
  | inr (c, p) ↦ rw p (inl (Names-of_code r.content c p))
]

Message : (body : Json) → IsMessage body ((read_error_body body).message or text "请求失败")
Message body = elim (Option-cases (found body (text "message"))) [
  | inl p ↦
      rw (message_found body, p)
        (inr (λ (t, _, says). silent body (text "message") p (t, says), refl))
  | inr ([], p) ↦
      rw (message_found body, p)
        (inr (
          λ (t, full, says).
              let e : t ≡ [] = cc (p, found_of_Says body (text "message") t says) in
              absurd (full e),
          refl,
        ))
  | inr (c ∷ t, p) ↦
      rw (message_found body, p) (inl (λ e. cc (e), Says-of_found body (text "message") (c ∷ t) p))
]

Trace : (request_id : Option Text) → IsTrace request_id (non_empty request_id)
Trace none = inr (λ (t, _, e). cc (e), refl)
Trace (some []) = inr (λ (t, p, e). absurd (p (cc (e))), refl)
Trace (some (c ∷ t)) = inl (c ∷ t, (λ e. cc (e)), refl, refl)

not-IsSuccess : (status : ℕ) → (ltb status 200 || leb 300 status) ≡ true → ¬ IsSuccess status
not-IsSuccess status h (low, high) = ground arith

pub read_answer-eq-err : (a : Answer) (f : Failure) → read_answer a ≡ err f → Denies a f
unfolding read_answer
read_answer-eq-err rejected (app_error e) h = ground arith
read_answer-eq-err rejected _ h = cc (h)
read_answer-eq-err (response r) f h =
    elim (Bool-cases (ltb r.status_code 200 || leb 300 r.status_code)) [
      | inl bad ↦
          let e : app_error _ ≡ f = cc (rw bad at h) in
          subst (Denies (response r)) e (
            not-IsSuccess r.status_code bad,
            IsCode-of_read r,
            Message r.content,
            Trace r.request_id,
          )
      | inr good ↦ cc (rw good at h)
    ]
