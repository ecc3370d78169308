-- ===== src/Handler/Table.antt =====
-- handler/handler.go: the table of handlers that `New` gives to the router.
use tps.Base.{ℕ, Str, str_eq, Option, none, some, List, [], ◌∷◌, ◌≢◌, All, if◌then◌else◌}
use tps.Routes.{Route, routes, lrp_status, lrp_stats, bulk_lrp_status}
use tps.Handler.{Semaphore, new_semaphore}

pub data Endpoint : Type 0 where
  status stats bulk : Endpoint

-- `tpsHandler`: the endpoint behind `LogWrap`, and the semaphore that it waits on.
pub record TpsHandler : Type 0 where
  pub semaphore : Semaphore
  pub delegate_handler : Endpoint

-- The map of handlers, by the names of the routes.
unfoldable pub handlers : ℕ → List (Str × TpsHandler)
handlers max_in_flight =
    let semaphore = new_semaphore max_in_flight in
    (lrp_status, record { semaphore = semaphore; delegate_handler = status })
    ∷ (lrp_stats, record { semaphore = semaphore; delegate_handler = stats })
    ∷ (bulk_lrp_status, record { semaphore = semaphore; delegate_handler = bulk })
    ∷ []

unfoldable pub lookup : Str → List (Str × TpsHandler) → Option TpsHandler
lookup name [] = none
lookup name ((key, h) ∷ rest) = if str_eq key name then some h else lookup name rest

-- Every route of a table has a handler.
abbrev pub IsComplete : List Route → List (Str × TpsHandler) → Type 0
IsComplete table hs = All (λ r. lookup r.name hs ≢ none) table

-- `New`, over rata's `NewRouter`; none is its error.
unfoldable pub new {ℓ} :
    {Router : Type ℓ} → (List Route → List (Str × TpsHandler) → Option Router) → ℕ → Option Router
unfolding handlers
new new_router max_in_flight = new_router routes (handlers max_in_flight)

handlers-IsComplete : (m : ℕ) → IsComplete routes (handlers m)
unfolding handlers routes lookup str_eq
handlers-IsComplete m = ((λ e. cc), ((λ e. cc), ((λ e. cc), tt)))

-- The listener's handler is always made: rata's router takes every table in which each route has a
-- handler, and each route of this table has one.
new-ne-none {ℓ} :
    {Router : Type ℓ} (new_router : List Route → List (Str × TpsHandler) → Option Router) (m : ℕ)
    → ((table : List Route) (hs : List (Str × TpsHandler))
        → IsComplete table hs
        → new_router table hs ≢ none)
    → new new_router m ≢ none
unfolding new
new-ne-none new_router m takes = takes routes (handlers m) (handlers-IsComplete m)
