-- ===== src/Fleet/Tests.antt =====
-- The placement theorem at a concrete fleet.
use apipi.Base.{ℕ, ◌≡◌, refl, true, false, List, [], ◌∷◌, none, some, ◌⊎◌, All}
use apipi.Fleet.Choose.{Candidate, is_ready, choose, sort, insert, key_le}
use apipi.Fleet.Best.{In, Suits, NoBetter, choose-best}

abbrev worker : ℕ → ℕ → ℕ → Candidate
worker w used leases = record {
  worker_id = w;
  accepts = "none" ∷ "microvm" ∷ [];
  images = "base" ∷ [];
  arch = "x86_64";
  draining = false;
  capacity = 4;
  memory_mb = 4096;
  leases = leases;
  used_mem = used;
  instance_id = none;
  conn = true;
}

abbrev fleet : List Candidate
fleet = worker 1 3072 1 ∷ worker 2 1024 2 ∷ worker 3 1024 1 ∷ worker 4 0 4 ∷ []

-- The fourth worker has no slot, the third has fewer leases than the second.
third : choose fleet "microvm" 1024 (some "base") ≡ some (worker 3 1024 1)
unfolding choose is_ready sort insert key_le
third = refl

choose-best_example :
    ((choose fleet "microvm" 1024 (some "base") ≡ none)
      × All (λ d. ¬ Suits "microvm" 1024 (some "base") d) fleet)
    ⊎ ((c : Candidate) × (choose fleet "microvm" 1024 (some "base") ≡ some c)
        × In c fleet
        × Suits "microvm" 1024 (some "base") c
        × All (λ d. Suits "microvm" 1024 (some "base") d → NoBetter c d) fleet)
choose-best_example = choose-best fleet "microvm" 1024 (some "base")
