-- ===== src/Clauses/Checks/Tests.antt =====
-- The checks at concrete texts.
use senecial.Base.{◌≡◌, refl, none, some, if◌then◌else◌, arith}
use senecial.Clauses.Segmenter.{segment}
use senecial.Clauses.Segmenter.Tests.{lease, bare}
use senecial.Clauses.Checks.{invalid_hierarchy, order_indexes, check_result}
use senecial.Clauses.Checks.Segmented.{parents_in, check_result-segment}

lease_accepted : check_result lease (segment lease) ≡ some none
unfolding segment check_result
lease_accepted = refl

bare_refused : check_result bare (segment bare) ≡ some (some invalid_hierarchy)
unfolding segment check_result
bare_refused = refl

check_result-segment_example :
    check_result bare (segment bare)
    ≡ some (
        if parents_in (order_indexes (segment bare).clauses) (segment bare).clauses
        then none
        else some invalid_hierarchy)
check_result-segment_example = check_result-segment bare (omega arith)
