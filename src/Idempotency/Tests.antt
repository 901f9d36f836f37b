-- ===== src/Idempotency/Tests.antt =====
-- Concrete requests with one key, and what the theorem says of them.
use rabbit_backend.Prelude.{ℕ, ◌≡◌, refl, List, [], ◌∷◌, ok, arith}
use rabbit_backend.Prelude.Texts.{Text, codes}
use rabbit_backend.Idempotency.{starts, replies, conflicts, begin_run, end_run, redis_key}
use rabbit_backend.Idempotency.Refines.{
  Event, request, handled, idle, run_register, run_service, run_service-eq-run_register,
}

abbrev key : Text
key = codes "clicker:idempotency:claim:1:k"

redis_key_of_k : redis_key (λ s. s) (codes "claim") (codes "1") (codes "k") ≡ key
unfolding redis_key
redis_key_of_k = refl

-- A request, one while its handler runs, the end of the handler, and one an hour later
abbrev events : List (Event ℕ ℕ)
events = request 1000 1000 ∷ request 2000 2001 ∷ handled 5000 (ok 7) ∷ request 3600000 3600001 ∷ []

run_service-eq-run_register_example : run_service key events [] ≡ run_register events idle
run_service-eq-run_register_example =
    run_service-eq-run_register key events [] (λ _. refl)
      (omega arith, (tt, (omega arith, (omega arith, (omega arith, (omega arith, tt))))))

replies_to_events : run_service key events [] ≡ starts ∷ conflicts ∷ replies 7 ∷ []
unfolding run_service begin_run end_run
replies_to_events = refl

-- A handler that runs for more than 60 seconds loses its lock: another request starts one too.
started_twice :
    run_service {E = ℕ} {A = ℕ} key (request 1000 1000 ∷ request 61000 61000 ∷ []) []
    ≡ starts ∷ starts ∷ []
unfolding run_service begin_run
started_twice = refl
