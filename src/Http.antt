-- ===== src/Http.antt =====
-- The part of net/http's ResponseWriter that the handlers use. The headers that reach the client are
-- those set before the status line is written, and the Content-Type of a body is detected where none
-- of them is one; a second status line is ignored. Date and Content-Length are left out.
pub mod Laws
use tps.Base.{
  Bool, false, ◌||◌, ℕ, Str, bytes, str_eq, Option, none, some, List, [], ◌∷◌, ◌++◌, if◌then◌else◌,
}
use tps.Pod.{StrMap, get}

abbrev pub content_type : Str
content_type = bytes "Content-Type"

-- `Header.Set`
unfoldable pub put : Str → Str → StrMap → StrMap
put k v [] = (k, v) ∷ []
put k v ((j, u) ∷ m) = if str_eq j k then (k, v) ∷ m else (j, u) ∷ put k v m

-- The status line and the headers as they went out.
pub record Sent : Type 0 where
  pub status : ℕ
  pub header : StrMap

pub record ResponseWriter : Type 0 where
  pub header : StrMap
  pub sent : Option Sent
  pub body : Str

abbrev pub new_writer : ResponseWriter
new_writer = record { header = []; sent = none; body = [] }

unfoldable pub write_header : ResponseWriter → ℕ → ResponseWriter
write_header w code = elim w.sent [
  | none ↦ record w { sent = some (record { status = code; header = w.header }) }
  | some _ ↦ w
]

unfoldable pub set_header : ResponseWriter → Str → Str → ResponseWriter
unfolding put
set_header w k v = record w { header = put k v w.header }

-- The first write sends status 200.
unfoldable pub write : ResponseWriter → Str → ResponseWriter
unfolding write_header
write w text = let w' = write_header w 200 in record w' { body = w'.body ++ text }

-- `json.NewEncoder(w).Encode(v)`, where the text of `v` is given, or none if it has no encoding.
unfoldable pub encode : ResponseWriter → Option Str → ResponseWriter
unfolding write
encode w none = w
encode w (some text) = write w (text ++ 10 ∷ [])

-- The status that the client sees: 200 where the handler sent none.
abbrev pub status_of : ResponseWriter → ℕ
status_of w = elim w.sent [ none ↦ 200 | some s ↦ s.status ]

-- The headers that were set before the status line went out.
abbrev pub sent_header : ResponseWriter → StrMap
sent_header w = elim w.sent [ none ↦ w.header | some s ↦ s.header ]

unfoldable pub has : Str → StrMap → Bool
has k [] = false
has k ((j, v) ∷ m) = str_eq j k || has k m

-- The Content-Type that is added to a body, where `detect` is net/http's DetectContentType.
unfoldable pub sniffed : (Str → Str) → Str → StrMap
sniffed detect [] = []
sniffed detect (c ∷ text) = (content_type, detect (c ∷ text)) ∷ []

-- The headers that the client sees: the type of a body is detected where no Content-Type was set in
-- time.
unfoldable pub header_of : (Str → Str) → ResponseWriter → StrMap
unfolding has sniffed
header_of detect w =
    if has content_type (sent_header w)
    then sent_header w
    else sent_header w ++ sniffed detect w.body

abbrev pub application_json : Str
application_json = bytes "application/json"

abbrev pub ok_code : ℕ
ok_code = 200

abbrev pub bad_request : ℕ
bad_request = 400

abbrev pub unauthorized : ℕ
unauthorized = 401

abbrev pub not_found : ℕ
not_found = 404

abbrev pub internal_server_error : ℕ
internal_server_error = 500

abbrev pub service_unavailable : ℕ
service_unavailable = 503
