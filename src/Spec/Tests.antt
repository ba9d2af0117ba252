-- ===== src/Spec/Tests.antt =====
-- Examples for the abstract machine.
use projeto_so.Base.{◌≡◌, List, ◌++◌}
use projeto_so.Chain.{TransactionBlock}
use projeto_so.Samples.{zero_sha, zero_sha-IsDigest}
use projeto_so.Samples.Systems.{at_start, at_start-IsSound, after_read, ran, full_pass}
use projeto_so.Validator.System.{System}
use projeto_so.Spec.{view, chain, labels, Moves}
use projeto_so.Spec.Refines.{Reach-Moves, Reach-prefix}

abbrev at_end : System
at_end = ran (ran (ran after_read 10) 11) 12

Reach-Moves_example :
    Moves zero_sha 1 (view at_start) (labels at_start at_end full_pass) (view at_end)
Reach-Moves_example =
    Reach-Moves zero_sha 1 zero_sha-IsDigest at_start at_end at_start-IsSound full_pass

Reach-prefix_example :
    (rest : List TransactionBlock) × (chain at_end.ledger ≡ chain at_start.ledger ++ rest)
Reach-prefix_example =
    Reach-prefix zero_sha 1 zero_sha-IsDigest at_start at_end at_start-IsSound full_pass
