-- ===== src/Handler.antt =====
-- handler/handler.go and handler/middleware.go: the semaphore that the three endpoints share, and the
-- table of handlers.
pub mod Limit
pub mod Table
pub mod Service
mod Tests
use tps.Base.{
  ℕ, zero, suc, ◌-◌, ltb, ◌==◌, Str, bytes, str_eq, Bool, true, false, Option, none, some, List, [],
  ◌∷◌, ◌++◌, Result, ok, panics, length, if◌then◌else◌,
}
use tps.Http.{ResponseWriter, new_writer, write_header, service_unavailable}

-- A channel of empty structs: its capacity, and how many it holds.
pub record Semaphore : Type 0 where
  pub capacity : ℕ
  pub taken : ℕ

-- `make(chan struct{}, maxInFlight)`
abbrev pub new_semaphore : ℕ → Semaphore
new_semaphore max_in_flight = record { capacity = max_in_flight; taken = 0 }

-- `case handler.semaphore <- struct{}{}` under a `default`: none is the default.
unfoldable pub try_send : Semaphore → Option Semaphore
try_send s = if ltb s.taken s.capacity then some (record s { taken = suc s.taken }) else none

-- `<-handler.semaphore`: none would block.
unfoldable pub receive : Semaphore → Option Semaphore
receive s = elim s.taken [ zero ↦ none | suc n ↦ some (record s { taken = n }) ]

-- The server: the semaphore, and the requests that are inside a delegate handler.
pub record Server : Type 0 where
  pub semaphore : Semaphore
  pub inside : List ℕ

abbrev pub new_server : ℕ → Server
new_server max_in_flight = record { semaphore = new_semaphore max_in_flight; inside = [] }

-- What `tpsHandler.ServeHTTP` does with a request before its delegate: it lets the request in, or
-- answers it at once.
pub data Entry : Type 0 where
  admitted : Server → Entry
  refused : ResponseWriter → Entry

unfoldable pub enter : Server → ResponseWriter → ℕ → Entry
unfolding try_send
enter s w id = elim (try_send s.semaphore) [
  | none ↦ refused (write_header w service_unavailable)
  | some semaphore ↦ admitted (record { semaphore = semaphore; inside = id ∷ s.inside })
]

-- One occurrence of the request leaves.
unfoldable pub remove : ℕ → List ℕ → Option (List ℕ)
remove id [] = none
remove id (x ∷ xs) =
    let rest = remove id xs in
    if x == id then some xs else elim rest [ none ↦ none | some ys ↦ some (x ∷ ys) ]

-- The deferred receive, when the delegate of a request has returned or panicked.
unfoldable pub leave : Server → ℕ → Option Server
unfolding receive remove
leave s id = elim (remove id s.inside) [
  | none ↦ none
  | some rest ↦ elim (receive s.semaphore) [
    | none ↦ none
    | some semaphore ↦ some (record { semaphore = semaphore; inside = rest })
  ]
]

-- Requests come and go in any order.
pub data Event : Type 0 where
  arrives leaves : ℕ → Event

abbrev pub after_entry : Server → Entry → Server
after_entry s (admitted t) = t
after_entry s (refused w) = s

-- One event; none if the request is not inside, or its receive would block.
unfoldable pub step : Server → Event → Option Server
unfolding enter leave
step s (arrives id) = some (after_entry s (enter s new_writer id))
step s (leaves id) = leave s id

unfoldable pub run : Server → List Event → Option Server
unfolding step
run s [] = some s
run s (e ∷ events) = elim (step s e) [ none ↦ none | some t ↦ run t events ]

-- What `LogWrap` logs of a request, with its method and URL.
pub data LogLine : Type 0 where
  serving done : Str → Str → LogLine

-- `LogWrap`: the delegate's own lines stand between the two; a panic leaves out the last.
unfoldable pub log_wrap :
    (ResponseWriter → List LogLine × Result ResponseWriter)
    → Str
    → Str
    → ResponseWriter
    → List LogLine × Result ResponseWriter
log_wrap delegate method url w =
    let (lines, result) = delegate w in
    elim result [
      | ok w' ↦ (serving method url ∷ (lines ++ done method url ∷ []), ok w')
      | panics ↦ (serving method url ∷ lines, panics)
    ]

-- A request that runs alone, from its entry to the deferred receive, with the lines that the delegate
-- logs.
unfoldable pub serve_http :
    Semaphore
    → (ResponseWriter → List LogLine × Result ResponseWriter)
    → ResponseWriter
    → Option (Semaphore × (List LogLine × Result ResponseWriter))
unfolding try_send receive
serve_http semaphore delegate w = elim (try_send semaphore) [
  | none ↦ some (semaphore, ([], ok (write_header w service_unavailable)))
  | some held ↦ elim (receive held) [ none ↦ none | some freed ↦ some (freed, delegate w) ]
]
