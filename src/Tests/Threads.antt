-- ===== src/Tests/Threads.antt =====
-- Two refreshes and a round of Start on one file, and fetches through one cache.
use hasura_secret_refresh.Base.{
  ℕ, ◌≡◌, ◌⊎◌, refl, inl, inr, false, some, [], ◌∷◌, List, All, get_elem?, take,
}
use hasura_secret_refresh.Strings.{Text, codes, str_eq}
use hasura_secret_refresh.Assoc.{Assoc, lookup, insert}
use hasura_secret_refresh.Result.{Result, ok}
use hasura_secret_refresh.Files.{put_file, chmod}
use hasura_secret_refresh.FileLoop.Threads as Threads
use hasura_secret_refresh.FileLoop.Threads.{
  start, refresh, fetching, Moment, State, open_file, fill_file, move, step, run,
}
use hasura_secret_refresh.FileLoop.Threads.Ready.{IsWritten, Grants}
use hasura_secret_refresh.FileLoop.Threads.Written.{run-IsWritten}
use hasura_secret_refresh.FileLoop.Threads.Progress.{CanReturn, run-CanReturn}
use hasura_secret_refresh.FileLoop.Threads.Solo.{alone, ended, turns, sequential, run-refresh}
use hasura_secret_refresh.FileLoop.Threads.Races.{
  gives, pair, overtaken, cleared, ReturnedBut, refresh_undone,
}
use hasura_secret_refresh.Lru.Fetches as Fetches
use hasura_secret_refresh.Lru.Fetches.Origin.{Given, run-returned}
use hasura_secret_refresh.Tests.Cache.{cache, cache-OnlyAdded}

abbrev path : Text
path = codes "/out"

-- Start and two refreshes begin; the first refresh waits for the mutex while the second writes.
abbrev begin : State
begin = record {
  threads = (start, fetching) ∷ (refresh, fetching) ∷ (refresh, fetching) ∷ [];
  shared = record { locked = false; disk = [] };
}

abbrev schedule : List (ℕ × Moment)
schedule =
    (1, gives (codes "x1"))
    ∷ (2, gives (codes "x2"))
    ∷ (2, gives (codes "x2"))
    ∷ (1, gives (codes "x1"))
    ∷ (2, gives (codes "x2"))
    ∷ (2, gives (codes "x2"))
    ∷ (0, gives (codes "x3"))
    ∷ (2, gives (codes "x2"))
    ∷ (2, gives (codes "x2"))
    ∷ []

-- The secrets that are got.
abbrev IsOneOf : Text → Type 0
IsOneOf t = (t ≡ codes "x1") ⊎ (t ≡ codes "x2") ⊎ (t ≡ codes "x3")

gives-Grants : (t : Text) → IsOneOf t → Grants path IsOneOf (gives t)
gives-Grants t h = ((refl, refl), λ s e. let same : s ≡ t = cc in rw same h)

schedule-Grants : All (λ (e : ℕ × Moment). Grants path IsOneOf e.1) schedule
schedule-Grants =
    let one = gives-Grants (codes "x1") (inl refl) in
    let two = gives-Grants (codes "x2") (inr (inl refl)) in
    let three = gives-Grants (codes "x3") (inr (inr refl)) in
    (one, (two, (two, (one, (two, (two, (three, (two, (two, tt)))))))))

runs_done : get_elem? (run path schedule begin).threads 2 ≡ some (refresh, Threads.returned (ok tt))
unfolding run step move open_file fill_file put_file chmod lookup insert str_eq
runs_done = refl

runs_free : (run path schedule begin).shared.locked ≡ false
unfolding run step move open_file fill_file put_file chmod lookup insert str_eq
runs_free = refl

run-IsWritten_example : IsWritten path IsOneOf (run path schedule begin).shared.disk
run-IsWritten_example =
    run-IsWritten path IsOneOf schedule begin 2 (refl, (refl, (refl, (refl, tt)))) schedule-Grants
      runs_done runs_free

-- The first refresh waits for the mutex, which the second holds.
waits :
    get_elem? (run path (take 5 schedule) begin).threads 1
    ≡ some (refresh, Threads.locking (codes "x1"))
unfolding run step move open_file fill_file put_file chmod lookup insert str_eq
waits = refl

run-CanReturn_example : CanReturn path 1 12 (run path (take 5 schedule) begin)
run-CanReturn_example =
    run-CanReturn path (take 5 schedule) begin 1 (Threads.locking (codes "x1")) refl waits

refresh_undone_example :
    ReturnedBut path
      (run path (overtaken (codes "x1") (codes "x2")) (pair fetching []))
      (codes "x1")
    × ReturnedBut path (run path (cleared (codes "x2")) (pair Threads.clearing [])) []
refresh_undone_example = refresh_undone path (codes "x1") (codes "x2") []

run-refresh_example :
    run path (turns (gives (codes "x1"))) (alone [])
    ≡ ended (sequential path (gives (codes "x1")) (record { disk = []; calls = 0 }))
run-refresh_example = run-refresh path (gives (codes "x1")) (record { disk = []; calls = 0 })

-- Two fetches of one key: both miss, and the store answers differently.
abbrev looks : Fetches.State (Assoc Text)
looks = record {
  fetches = (codes "k", Fetches.looking) ∷ (codes "k", Fetches.looking) ∷ [];
  cache = [];
}

abbrev answers : List (ℕ × (Text → Result Text))
answers =
    (0, λ k. ok (codes "v1"))
    ∷ (1, λ k. ok (codes "v2"))
    ∷ (0, λ k. ok (codes "v1"))
    ∷ (1, λ k. ok (codes "v2"))
    ∷ (1, λ k. ok (codes "v2"))
    ∷ (0, λ k. ok (codes "v1"))
    ∷ []

returns :
    get_elem? (Fetches.run cache answers looks).fetches 1
    ≡ some (codes "k", Fetches.returned (ok (codes "v2")))
unfolding Fetches.run Fetches.step Fetches.move lookup insert str_eq
returns = refl

run-returned_example :
    ((cache.get [] (codes "k")).0 ≡ some (codes "v2")) ⊎ Given answers (codes "k") (codes "v2")
run-returned_example =
    run-returned cache cache-OnlyAdded answers looks 1 (codes "k") (codes "v2") (refl, (refl, tt))
      returns
