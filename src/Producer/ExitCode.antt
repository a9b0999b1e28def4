-- ===== src/Producer/ExitCode.antt =====
-- The exit code of a producer.
use uzh_blockchain_data_coll.Base.{ℕ, Option, none, some, List, [], ◌∷◌, All, ◌≡◌, ◌≢◌, ◌↔◌, refl}
use uzh_blockchain_data_coll.Errors.{Result, ok, err}
use uzh_blockchain_data_coll.Producer.{exit_code}

-- The task has returned.
abbrev pub HasReturned : Result (Unit {0}) × Option ℕ → Type 0
HasReturned (r, contracts) = r ≡ ok tt

exit_code_one : (rs : List (Result (Unit {0}) × Option ℕ)) → exit_code rs 1 ≢ ok 0
unfolding exit_code
exit_code_one [] h = cc
exit_code_one ((ok u, c) ∷ rs) h = exit_code_one rs h
exit_code_one ((err e, none) ∷ rs) h = cc
exit_code_one ((err e, some n) ∷ rs) h = exit_code_one rs h

exit_code-returned :
    (rs : List (Result (Unit {0}) × Option ℕ)) → All HasReturned rs → exit_code rs 0 ≡ ok 0
unfolding exit_code
exit_code-returned [] h = refl
exit_code-returned ((ok u, c) ∷ rs) (h, hs) = exit_code-returned rs hs
exit_code-returned ((err e, c) ∷ rs) (h, hs) = cc

returned-exit_code :
    (rs : List (Result (Unit {0}) × Option ℕ)) → exit_code rs 0 ≡ ok 0 → All HasReturned rs
unfolding exit_code
returned-exit_code [] h = tt
returned-exit_code ((ok u, c) ∷ rs) h = (refl, returned-exit_code rs h)
returned-exit_code ((err e, none) ∷ rs) h = cc
returned-exit_code ((err e, some n) ∷ rs) h = absurd (exit_code_one rs h)

-- The exit code of a producer is 0 exactly if every task has returned.
pub exit_code_zero :
    (rs : List (Result (Unit {0}) × Option ℕ)) → exit_code rs 0 ≡ ok 0 ↔ All HasReturned rs
exit_code_zero rs = (returned-exit_code rs, exit_code-returned rs)
