-- ===== src/Http.antt =====
-- frontend/packages/api-client/src/http.ts: requests, their errors, and the request function over
-- the platform's `Taro.request`.
pub mod Wire
pub mod Refusal
pub mod Laws
use smart_parcel_locker.Prelude.{
  ℕ, Text, text, text_eq, truthy, Bool, true, false, ◌||◌, Option, none, some, ◌or◌, ◌or_else◌,
  List, [], ◌∷◌, ◌++◌, Result, ok, err, ◌>>=◌, Failure, app_error, AppError, AppErrorCode,
  network_failure, not_found, device_offline, permission_denied, unknown, if◌then◌else◌, ltb, leb,
  ◌==◌,
}
use smart_parcel_locker.Prelude.Int.{ℤ, pos, negsuc}
use smart_parcel_locker.Prelude.Number.{Number, int, other}
use smart_parcel_locker.Prelude.Decimal.{print, print_int}
use smart_parcel_locker.Prelude.Uri.{encode_uri_component}

pub data Method : Type 0 where
  get post : Method

-- A value of a query or of a request body.
pub data Scalar : Type 0 where
  str : Text → Scalar
  num : Number → Scalar
  bool : Bool → Scalar

-- `undefined` is `none`, for a query value as for an optional field.
pub record RequestInput : Type 0 where
  pub path : Text
  pub method : Option Method
  pub query : Option (List (Text × Option Scalar))
  pub body : Option (List (Text × Scalar))

-- A function that sends a request and settles with a reply of type `T`, or is rejected.
abbrev pub RequestFn : Type 0 → Type 0
RequestFn T = RequestInput → Result T

-- What `JSON.parse` can make of a reply's body.
mutual
  pub data Json : Type 0 where
    null : Json
    boolean : Bool → Json
    number : Number → Json
    string : Text → Json
    array : Items → Json
    object : Fields → Json

  pub data Items : Type 0 where
    nil : Items
    cons : Json → Items → Items

  pub data Fields : Type 0 where
    end : Fields
    field : Text → Json → Fields → Fields

-- `body[name]`
unfoldable pub get_field : Text → Fields → Option Json
get_field name end = none
get_field name (field key value rest) = if text_eq name key then some value else get_field name rest

-- `typeof x === "string" ? x : undefined`
unfoldable pub as_string : Option Json → Option Text
as_string (some (string t)) = some t
as_string _ = none

-- `knownErrorCodes`: the code with this name.
unfoldable pub known_error_code : Text → Option AppErrorCode
known_error_code t =
    if text_eq t (text "NETWORK_FAILURE")
    then some network_failure
    else if text_eq t (text "NOT_FOUND")
    then some not_found
    else if text_eq t (text "DEVICE_OFFLINE")
    then some device_offline
    else if text_eq t (text "PERMISSION_DENIED")
    then some permission_denied
    else if text_eq t (text "UNKNOWN")
    then some unknown
    else none

pub record ErrorBody : Type 0 where
  pub code : Option AppErrorCode
  pub message : Option Text

abbrev bind_code : Option Text → Option AppErrorCode
bind_code none = none
bind_code (some t) = known_error_code t

-- `x || undefined` on a string
abbrev non_empty : Option Text → Option Text
non_empty none = none
non_empty (some t) = if truthy t then some t else none

abbrev first_string : Option Json → Option Json → Option Text
first_string a b = as_string a or_else as_string b

-- `readErrorBody`; an array is an object without these fields
unfoldable pub read_error_body : Json → ErrorBody
unfolding get_field as_string known_error_code
read_error_body (object body) = record {
  code = bind_code (first_string (get_field (text "reason") body) (get_field (text "code") body));
  message = non_empty (as_string (get_field (text "message") body));
}
read_error_body _ = record { code = none; message = none }

-- What the platform is handed: `Taro.request`'s options.
pub record WireRequest : Type 0 where
  pub url : Text
  pub method : Method
  pub body : Option (List (Text × Scalar))
  pub header : List (Text × Text)

-- The platform's reply: it answers, or its promise is rejected.
pub record Response : Type 0 where
  pub status_code : ℕ
  pub request_id : Option Text
  pub content : Json

pub data Answer : Type 0 where
  response : Response → Answer
  rejected : Answer

-- `String(value)`
unfoldable pub show_scalar : Scalar → Text
show_scalar (str t) = t
show_scalar (num (int z)) = print_int z
show_scalar (num (other shown)) = shown
show_scalar (bool true) = text "true"
show_scalar (bool false) = text "false"

-- The entries of the query that have a value, as `key=value`.
unfoldable pub query_parts : List (Text × Option Scalar) → Result (List Text)
query_parts [] = ok []
query_parts ((key, none) ∷ rest) = query_parts rest
query_parts ((key, some value) ∷ rest) = do
  k ← encode_uri_component key
  v ← encode_uri_component (show_scalar value)
  parts ← query_parts rest
  ok ((k ++ (b'=' ∷ v)) ∷ parts)

-- `parts.join("&")`
unfoldable pub join : List Text → Text
join [] = []
join (p ∷ []) = p
join (p ∷ q ∷ rest) = p ++ (b'&' ∷ join (q ∷ rest))

-- `baseUrl.replace(/\/$/, "")`
unfoldable pub normalized_base_url : Text → Text
normalized_base_url [] = []
normalized_base_url (c ∷ []) = if c == b'/' then [] else c ∷ []
normalized_base_url (c ∷ d ∷ s) = c ∷ normalized_base_url (d ∷ s)

with_query : Text → Text
with_query [] = []
with_query (c ∷ s) = b'?' ∷ c ∷ s

-- The options, by the method
wire_by : Method → Text → RequestInput → WireRequest
wire_by post url input = record {
  url = url;
  method = post;
  body = some (input.body or []);
  header = (text "content-type", text "application/json") ∷ [];
}
wire_by get url input = record { url = url; method = get; body = none; header = [] }

unfoldable pub wire_request : Text → RequestInput → Text → WireRequest
unfolding wire_by with_query normalized_base_url
wire_request base input query =
    wire_by (input.method or get) (normalized_base_url base ++ (input.path ++ with_query query))
      input

unfoldable pub fallback_code : ℕ → AppErrorCode
fallback_code status =
    if status == 404 then not_found else if status == 403 then permission_denied else unknown

-- What is done with the platform's answer.
unfoldable pub read_answer : Answer → Result Json
unfolding fallback_code
read_answer rejected =
    err (app_error (record { code = network_failure; message = text "网络连接失败"; trace_id = none }))
read_answer (response r) =
    let body = read_error_body r.content in
    if ltb r.status_code 200 || leb 300 r.status_code
    then err (
        app_error (record {
          code = body.code or fallback_code r.status_code;
          message = body.message or text "请求失败";
          trace_id = non_empty r.request_id;
        }))
    else ok r.content

-- `createTaroRequest`. The query is encoded outside the `try` block, so `URIError` passes through.
unfoldable pub create_taro_request : (WireRequest → Answer) → Text → RequestFn Json
unfolding wire_request query_parts join
create_taro_request taro_request base input = do
  parts ← query_parts (input.query or [])
  read_answer (taro_request (wire_request base input (join parts)))
