-- ===== src/Tests/Limits.antt =====
-- A counter in the cache, and five requests against a limit of three.
use kirby.Base.{ℕ, String, false, List, [], ◌∷◌, none, some, pos, ok, ◌≡◌, refl, arith}
use kirby.Cache.{MemoryStore, open_store, increment}
use kirby.Cache.Live.{
  Refines, perform, promised, view_of, perform-Refines, get-set, set_key, get_key, increment_key,
  text, live,
}
use kirby.Dict.{lookup}
use kirby.Decimal.{format_int, parse_int}
use kirby.Limit.{admitted, rate_key, fixed_window_rate_limit}
use kirby.Limit.Quota.{admitted-eq-limit}
use kirby.Limit.Recovery.{Request, served, serves_again}

abbrev counted : MemoryStore
counted = ("visits", record { value = "41"; expires_at = some 100 }) ∷ []

incremented :
    (perform 20 (increment_key "visits" (pos 60)) counted).1
    ≡ ("visits", record { value = "42"; expires_at = some 100 }) ∷ []
unfolding perform increment format_int parse_int
incremented = refl

perform-Refines_example :
    Refines 20
      (perform 20 (increment_key "visits" (pos 60)) counted)
      (promised 20 (increment_key "visits" (pos 60)) (view_of counted))
perform-Refines_example = perform-Refines 20 (increment_key "visits" (pos 60)) counted

get-set_example :
    (perform 70 (get_key "k") (perform 20 (set_key "k" "v" (pos 60)) counted).1).0 ≡ ok (text "v")
get-set_example = get-set 20 70 "k" "v" (pos 60) counted (omega arith) refl

abbrev digest : String → String
digest s = s

abbrev arrivals : List ℕ
arrivals = 11 ∷ 12 ∷ 30 ∷ 59 ∷ []

nothing_counted : live 10 open_store (rate_key digest "login" "peer") ≡ none
unfolding live open_store lookup
nothing_counted = refl

admitted-eq-limit_example :
    admitted digest "login" (pos 3) (pos 60) "peer" (10 ∷ arrivals) open_store ≡ 3
admitted-eq-limit_example =
    admitted-eq-limit digest "login" "peer" 3 60 (cc) (omega arith) (omega arith) 10 arrivals
      open_store nothing_counted (omega arith) (omega arith)

abbrev blocked : List Request
blocked =
    record {
      namespace = "login";
      identity = "peer";
      limit = pos 1;
      window = pos 60;
      canceled = false;
      now = 10;
    }
    ∷ record {
      namespace = "login";
      identity = "peer";
      limit = pos 1;
      window = pos 60;
      canceled = false;
      now = 20;
    }
    ∷ []

serves_again_example :
    (fixed_window_rate_limit digest "login"
      (pos 1)
      (pos 60)
      "peer"
      false
      80
      (served digest blocked open_store)).0
    ≡ ok tt
serves_again_example =
    serves_again digest "login" "peer" 1 60 80 blocked (cc) (omega arith) (omega arith)
      (omega arith, (omega arith, tt))
