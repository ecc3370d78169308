-- ===== src/Handler/Limit.antt =====
-- handler/handler.go: the requests inside the delegates and the semaphore, over any coming and going.
use tps.Base.{
  ℕ, suc, ◌≤◌, ◌<◌, ◌==◌, ltb, none, some, List, [], ◌∷◌, ◌≡◌, ◌≢◌, ◌↔◌, inl, inr, refl, arith,
  Result, ok, length, Bool-cases, Option-cases, if◌then◌else◌,
}
use mathlib.Core.Path.{subst}
use mathlib.Core.Option.{some-injective}
use tps.Http.{ResponseWriter, new_writer, write_header, service_unavailable}
use tps.Handler.{
  Semaphore, Server, new_server, admitted, refused, enter, remove, leave, Event, arrives, leaves,
  step, run, LogLine, serve_http,
}

-- The semaphore counts the requests inside, and is within its capacity.
pub record IsBounded (max_in_flight : ℕ) (s : Server) : Type 0 where
  pub capacity : s.semaphore.capacity ≡ max_in_flight
  pub counted : s.semaphore.taken ≡ length s.inside
  pub within : length s.inside ≤ max_in_flight

length-remove : (id : ℕ) (xs ys : List ℕ) → remove id xs ≡ some ys → length xs ≡ suc (length ys)
unfolding remove
length-remove id [] ys h = ground arith
length-remove id (x ∷ xs) ys h = elim (Bool-cases (x == id)) [
  | inl e ↦ ground arith
  | inr e ↦ elim (Option-cases (remove id xs)) [
    | inl f ↦ ground arith
    | inr (zs, f) ↦ ground (arith, length-remove id xs zs f)
  ]
]

enter-IsBounded :
    (m : ℕ) (s t : Server) (w : ResponseWriter) (id : ℕ)
    → enter s w id ≡ admitted t
    → IsBounded m s
    → IsBounded m t
unfolding enter
enter-IsBounded m s t w id h b = ground arith

leave-IsBounded :
    (m : ℕ) (s t : Server) (id : ℕ) → leave s id ≡ some t → IsBounded m s → IsBounded m t
unfolding leave
leave-IsBounded m s t id h b = elim (Option-cases (remove id s.inside)) [
  | inl e ↦ ground arith
  | inr (rest, e) ↦ ground (arith, length-remove id s.inside rest e)
]

enter-admits :
    (m : ℕ) (s : Server) (w : ResponseWriter) (id : ℕ)
    → IsBounded m s
    → length s.inside < m
    → (t : Server) × (enter s w id ≡ admitted t) × (t.inside ≡ id ∷ s.inside)
unfolding enter
enter-admits m s w id b h = (
  record {
    semaphore = record s.semaphore { taken = suc s.semaphore.taken };
    inside = id ∷ s.inside;
  },
  ground (arith, b.capacity, b.counted),
  refl,
)

step-IsBounded :
    (m : ℕ) (s t : Server) (e : Event) → step s e ≡ some t → IsBounded m s → IsBounded m t
unfolding step
step-IsBounded m s t (leaves id) h b = leave-IsBounded m s t id h b
step-IsBounded m s t (arrives id) h b = ground arith

run-IsBounded :
    (m : ℕ) (s t : Server) (events : List Event)
    → run s events ≡ some t
    → IsBounded m s
    → IsBounded m t
unfolding run
run-IsBounded m s t [] h b = subst (IsBounded m) (some-injective _ _ h) b
run-IsBounded m s t (e ∷ events) h b = elim (Option-cases (step s e)) [
  | inl stuck ↦ absurd (ground arith)
  | inr (u, f) ↦ run-IsBounded m u t events (ground arith) (step-IsBounded m s u e f b)
]

-- After any coming and going of requests at most `m` are inside the delegates, where `m` is the
-- listener's limit; the next request is answered with status 503 exactly if `m` are inside, and let
-- in exactly if fewer are.
pub run-limit :
    (m : ℕ) (t : Server) (events : List Event) (id : ℕ)
    → run (new_server m) events ≡ some t
    → (length t.inside ≤ m)
      × ((enter t new_writer id ≡ refused (write_header new_writer service_unavailable))
          ↔ (length t.inside ≡ m))
      × (((u : Server) × (enter t new_writer id ≡ admitted u)) ↔ (length t.inside < m))
unfolding enter
run-limit m t events id h =
    let start : IsBounded m (new_server m) = record {
      capacity = refl;
      counted = refl;
      within = omega arith;
    } in
    let b = run-IsBounded m (new_server m) t events h start in
    (
      b.within,
      ground (arith, b.capacity, b.counted, b.within),
      (
        λ (u, e). ground (arith, b.capacity, b.counted, b.within),
        λ lt. let (u, e, same) = enter-admits m t new_writer id b lt in (u, e),
      ),
    )

-- A request that is inside always gets out: the deferred receive from the semaphore does not block.
pub run-leaves :
    (m : ℕ) (t : Server) (events : List Event) (id : ℕ)
    → run (new_server m) events ≡ some t
    → remove id t.inside ≢ none
    → (u : Server) × (leave t id ≡ some u) × (suc (length u.inside) ≡ length t.inside)
unfolding leave
run-leaves m t events id h inside =
    let start : IsBounded m (new_server m) = record {
      capacity = refl;
      counted = refl;
      within = omega arith;
    } in
    let b = run-IsBounded m (new_server m) t events h start in
    elim (Option-cases (remove id t.inside)) [
      | inl e ↦ absurd (inside e)
      | inr (rest, e) ↦ (
        record { semaphore = record t.semaphore { taken = length rest }; inside = rest },
        ground (arith, b.counted, length-remove id t.inside rest e),
        omega (arith, length-remove id t.inside rest e),
      )
    ]

-- A request that runs alone leaves the semaphore as it found it, also when its delegate panics. It
-- gets the delegate's answer, or status 503 and no line in the log where the semaphore is full.
pub serve_http-restores :
    (s : Semaphore) (delegate : ResponseWriter → List LogLine × Result ResponseWriter)
    (w : ResponseWriter)
    → serve_http s delegate w
      ≡ some (
        s,
        if ltb s.taken s.capacity
            then delegate w
            else ([], ok (write_header w service_unavailable)),
      )
unfolding serve_http
serve_http-restores s delegate w = ground arith
