-- ===== src/HashSample/Tests.antt =====
-- An example for the sample program: with a SHA256 of zeros the first nonce is always good.
use projeto_so.Base.{ℕ, [], ◌∷◌, replicate}
use projeto_so.HashSample.{BlockDraws, Draw}
use projeto_so.HashSample.Chained.{Chained}

abbrev nothing_drawn : Draw
nothing_drawn = record { reward = 0; age = 50; value = 0; now = 7; stack = replicate 64 0 }

abbrev same_draws : ℕ → BlockDraws
same_draws i = record {
  draws = λ j. nothing_drawn;
  times = 7 ∷ [];
  stack = replicate 64 0;
  nonce = 0;
}
